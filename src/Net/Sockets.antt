-- ===== src/Net/Sockets.antt =====
-- fast_leveldb/src/net.c: the sockets of the sender and of the receiver. The system's socket calls are parameters.
pub mod Bind
use diversity.Prelude.Int.{ℤ, pos, negsuc}
use diversity.Prelude.{
  ℕ, zero, suc, ◌*◌, Bool, true, false, ◌&&◌, Option, none, some, ◌++◌, ltb, leb, ◌==◌,
  if◌then◌else◌, take, codes,
}
use diversity.Net.Result.{
  Reason, no_socket, no_reuseaddr, no_bind, no_connect, no_getsockopt, Result, ok, abort, ◌>>=◌,
}
use diversity.Net.Numbers.{decimal}
use diversity.Net.Addr.{Inet, SockAddr, NetAddr, parse_addr}

-- The options that are set.
pub data SockOpt : Type 0 where
  reuse_addr reuse_port : SockOpt

pub data BufferOpt : Type 0 where
  sndbuf rcvbuf : BufferOpt

-- What `connect` reports.
pub data Connected : Type 0 where
  connected in_progress refused : Connected

-- `false` is the error -1, `none` a descriptor below 0.
pub record SocketCalls (inet : Inet) : Type 1 where
  pub World : Type 0
  pub Fd : Type 0
  pub socket : World → Option Fd × World
  pub getsockopt_size : Fd → BufferOpt → World → Option ℕ
  pub setsockopt_size : Fd → BufferOpt → ℕ → World → Bool × World
  pub setsockopt : Fd → SockOpt → World → Bool × World
  pub bind : Fd → SockAddr inet → ℕ → World → Bool × World
  pub connect : Fd → SockAddr inet → ℕ → World → Connected × World

module _ (inet : Inet) (sys : SocketCalls inet) where
  open sys use {World, Fd}

  abbrev check : Reason → Bool × World → Result World
  check r (true, w) = ok w
  check r (false, w) = abort r

  abbrev opened : Option Fd × World → Result (Fd × World)
  opened (none, w) = abort no_socket
  opened (some sd, w) = ok (sd, w)

  -- The socket with SO_REUSEADDR, as both functions begin.
  abbrev pub new_socket : World → Result (Fd × World)
  new_socket w = do
    (sd, w1) ← opened (sys.socket w)
    w2 ← check no_reuseaddr (sys.setsockopt sd reuse_addr w1)
    ok (sd, w2)

  abbrev pub bound : NetAddr inet → Fd → World → Result (Fd × World)
  bound addr sd w = do
    w1 ← check no_bind (sys.bind sd addr.sockaddr addr.sockaddr_len w)
    ok (sd, w1)

  -- `r` is not assigned by the call that sets SO_REUSEPORT, so the test behind it sees the old one.
  unfoldable pub net_bind_udp : NetAddr inet → Bool → World → Result (Fd × World)
  net_bind_udp shost reuseport w = do
    (sd, w1) ← new_socket w
    bound shost sd (if reuseport then (sys.setsockopt sd reuse_port w1).1 else w1)

  abbrev connected_to : Fd → Connected × World → Result (Fd × World)
  connected_to sd (connected, w) = ok (sd, w)
  connected_to sd (in_progress, w) = ok (sd, w)
  connected_to sd (refused, w) = abort no_connect

  abbrev pub connect_to : NetAddr inet → Fd → World → Result (Fd × World)
  connect_to shost sd w = connected_to sd (sys.connect sd shost.sockaddr shost.sockaddr_len w)

  abbrev pub from_port : ℕ → Fd → World → Result (Fd × World)
  from_port port sd w = do
    src ← parse_addr inet (take 31 (codes "0.0.0.0:" ++ decimal port))
    bound src sd w

  abbrev pub from_src_port : ℤ → Fd → World → Result (Fd × World)
  from_src_port (pos port) sd w =
      if ltb 1 port && ltb port 65536 then from_port port sd w else ok (sd, w)
  from_src_port (negsuc n) sd w = ok (sd, w)

  unfoldable pub net_connect_udp : NetAddr inet → ℤ → World → Result (Fd × World)
  net_connect_udp shost src_port w = do
    (sd, w1) ← new_socket w
    (sd, w2) ← from_src_port src_port sd w1
    connect_to shost sd w2

  -- The loop: `turns` is 10 - i, and `size` the one outside of the loop, which nothing in it assigns.
  unfoldable pub buffer_loop : ℕ → ℕ → Fd → BufferOpt → ℕ → World → Result World
  buffer_loop zero size cd flag max w = ok w
  buffer_loop (suc turns) size cd flag max w =
      if size == 0 then ok w else elim (sys.getsockopt_size cd flag w) [
        | none ↦ abort no_getsockopt
        | some bef ↦
            if leb max bef
            then ok w
            else (let (worked, w') = sys.setsockopt_size cd flag (bef * 2) w in
                if worked then buffer_loop turns size cd flag max w' else ok w')
      ]

  unfoldable pub net_set_buffer_size : Fd → ℕ → Bool → World → Result World
  net_set_buffer_size cd max send w = buffer_loop 10 0 cd (if send then sndbuf else rcvbuf) max w
