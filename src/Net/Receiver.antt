-- ===== src/Net/Receiver.antt =====
-- fast_leveldb/src/udpreceiver.c, `main`: its arguments, and the sockets of its threads.
pub mod Shared
use diversity.Prelude.Int.{ℤ, pos, negsuc, pos_part}
use diversity.Prelude.{
  ℕ, zero, suc, Bool, true, false, none, some, List, [], ◌∷◌, ◌==◌, if◌then◌else◌, replicate, Bytes,
  codes,
}
use diversity.Net.Result.{undefined, usage, Result, ok, abort, ◌>>=◌}
use diversity.Net.Numbers.{atoi}
use diversity.Net.Addr.{Inet, NetAddr, parse_addr}
use diversity.Net.Sockets.{SocketCalls, net_bind_udp, net_set_buffer_size}

-- `listen_addr_str`, `thread_num` and `reuseport`
pub record Options : Type 0 where
  pub listen_addr_str : Bytes
  pub thread_num : ℤ
  pub reuseport : ℤ

abbrev pub number : Bytes → Result ℤ
number s = elim (atoi s) [ none ↦ abort undefined | some n ↦ ok n ]

-- The switch on argc with its fall-through, on `argv[1]` and those behind it.
unfoldable pub options : List Bytes → Result Options
options [] =
    ok (record { listen_addr_str = codes "0.0.0.0:4321"; thread_num = pos 1; reuseport = pos 0 })
options (a ∷ []) = ok (record { listen_addr_str = a; thread_num = pos 1; reuseport = pos 0 })
options (a ∷ t ∷ []) = do
  n ← number t
  ok (record { listen_addr_str = a; thread_num = n; reuseport = pos 0 })
options (a ∷ t ∷ r ∷ []) = do
  u ← number r
  n ← number t
  ok (record { listen_addr_str = a; thread_num = n; reuseport = u })
options (a ∷ t ∷ r ∷ more ∷ rest) = abort usage

abbrev is_zero : ℤ → Bool
is_zero (pos n) = n == 0
is_zero (negsuc n) = false

module _ (inet : Inet) (sys : SocketCalls inet) where
  open sys use {World, Fd}

  -- A receiving socket, with a receive buffer of 4 KiB asked for.
  unfoldable pub listening : NetAddr inet → Bool → World → Result (Fd × World)
  listening addr reuse w = do
    (fd, w1) ← net_bind_udp inet sys addr reuse w
    w2 ← net_set_buffer_size inet sys fd 4096 false w1
    ok (fd, w2)

  -- The descriptors of `n` threads with sockets of their own.
  unfoldable pub own_sockets : ℕ → NetAddr inet → World → Result (List Fd × World)
  own_sockets zero addr w = ok ([], w)
  own_sockets (suc n) addr w = do
    (fd, w1) ← listening addr true w
    (fds, w2) ← own_sockets n addr w1
    ok (fd ∷ fds, w2)

  abbrev shared_socket : ℕ → NetAddr inet → World → Result (List Fd × World)
  shared_socket n addr w = do (fd, w1) ← listening addr false w; ok (replicate n fd, w1)

  unfoldable pub thread_sockets : Options → World → Result (List Fd × World)
  thread_sockets o w = do
    addr ← parse_addr inet o.listen_addr_str
    if is_zero o.reuseport
        then shared_socket (pos_part o.thread_num) addr w
        else own_sockets (pos_part o.thread_num) addr w
