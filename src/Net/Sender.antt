-- ===== src/Net/Sender.antt =====
-- fast_leveldb/src/udpsender.c, `main` and the begin of `thread_loop`: the targets in the arguments, and a socket for
-- each of them.
use diversity.Prelude.Int.{pos}
use diversity.Prelude.{List, [], ◌∷◌, Bytes}
use diversity.Net.Result.{usage, Result, ok, abort, ◌>>=◌}
use diversity.Net.Addr.{Inet, NetAddr, parse_addr}
use diversity.Net.Sockets.{SocketCalls, net_connect_udp}

module _ (inet : Inet) (sys : SocketCalls inet) where
  open sys use {World, Fd}

  -- All addresses are parsed before a thread starts.
  unfoldable pub target_addrs : List Bytes → Result (List (NetAddr inet))
  target_addrs [] = ok []
  target_addrs (a ∷ args) = do
    addr ← parse_addr inet a
    addrs ← target_addrs args
    ok (addr ∷ addrs)

  -- The threads in the order in which they connect, each from the source port 11404.
  unfoldable pub connected_threads : List (NetAddr inet) → World → Result (List Fd × World)
  connected_threads [] w = ok ([], w)
  connected_threads (addr ∷ addrs) w = do
    (fd, w1) ← net_connect_udp inet sys addr (pos 11404) w
    (fds, w2) ← connected_threads addrs w1
    ok (fd ∷ fds, w2)

  -- On `argv[1]` and those behind it.
  unfoldable pub sender_sockets : List Bytes → World → Result (List Fd × World)
  sender_sockets [] w = abort usage
  sender_sockets (a ∷ args) w = do addrs ← target_addrs (a ∷ args); connected_threads addrs w
