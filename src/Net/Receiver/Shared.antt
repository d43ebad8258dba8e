-- ===== src/Net/Receiver/Shared.antt =====
-- Which sockets the threads get.
use diversity.Prelude.Int.{pos, pos_part}
use diversity.Prelude.{ℕ, ◌≡◌, refl, Bool, false, replicate}
use diversity.Net.Result.{ok}
use diversity.Net.Addr.{Inet, NetAddr, parse_addr}
use diversity.Net.Sockets.{SocketCalls, net_bind_udp, buffer_loop, net_set_buffer_size}
use diversity.Net.Receiver.{Options, listening, thread_sockets}

module _ (inet : Inet) (sys : SocketCalls inet) where
  set_nothing :
      (fd : sys.Fd) (max : ℕ) (send : Bool) (w : sys.World)
      → net_set_buffer_size inet sys fd max send w ≡ ok w
  unfolding net_set_buffer_size buffer_loop
  set_nothing fd max send w = refl

  -- With reuseport 0, an address that parses and a socket that can be bound, one socket is bound, all
  -- threads have that one descriptor, and asking for larger buffers changes nothing of the system.
  pub thread_sockets-shared :
      (o : Options) (addr : NetAddr inet) (fd : sys.Fd) (w w1 : sys.World)
      → o.reuseport ≡ pos 0
      → parse_addr inet o.listen_addr_str ≡ ok addr
      → net_bind_udp inet sys addr false w ≡ ok (fd, w1)
      → thread_sockets inet sys o w ≡ ok (replicate (pos_part o.thread_num) fd, w1)
  unfolding thread_sockets listening
  thread_sockets-shared o addr fd w w1 z p b = rw (p, z, b, set_nothing fd 4096 false w1)
