-- ===== src/Net/Sockets/Bind.antt =====
-- What the sockets are bound to.
use mathlib.Core.Path.{fun_ext}
use diversity.Prelude.Int.{pos}
use diversity.Net.Numbers.{decimal, decimal_short}
use diversity.Net.Addr.Parse.{parse_addr-decimal}
use diversity.Prelude.{
  ℕ, ◌<◌, ◌≡◌, ap, inl, inr, true, false, ◌&&◌, some, ◌∷◌, ◌++◌, arith, ltb, if◌then◌else◌,
  Bool-cases, take, take-length, codes,
}
use diversity.Net.Result.{ok, ◌>>=◌}
use diversity.Net.Addr.{Inet, NetAddr, got_ipv4, net_gethostbyname}
use diversity.Net.Sockets.{
  reuse_addr, reuse_port, SocketCalls, new_socket, bound, net_bind_udp, connect_to, from_src_port,
  net_connect_udp,
}

module _ (inet : Inet) (sys : SocketCalls inet) where
  kept :
      (port : ℕ)
      → port < 65536
      → take 31 (codes "0.0.0.0:" ++ decimal port) ≡ codes "0.0.0.0" ++ 58 ∷ decimal port
  kept port h =
      take-length 31 (codes "0.0.0.0:" ++ decimal port) (omega (arith, decimal_short port h))

  below : (port : ℕ) → (ltb 1 port && ltb port 65536) ≡ true → port < 65536
  below port h = ground arith

  from_src_port_lem :
      (any : inet.In4) (port : ℕ) (sd : sys.Fd) (w : sys.World)
      → inet.pton4 (codes "0.0.0.0") ≡ some any
      → from_src_port inet sys (pos port) sd w ≡ (
          if ltb 1 port && ltb port 65536
          then bound inet sys (got_ipv4 inet any port) sd w
          else ok (sd, w))
  unfolding net_gethostbyname
  from_src_port_lem any port sd w h = elim (Bool-cases (ltb 1 port && ltb port 65536)) [
    | inl t ↦ rw (
      t,
      kept port (below port t),
      parse_addr-decimal inet (codes "0.0.0.0") port (omega arith) (below port t),
      h,
    )
    | inr f ↦ rw f
  ]

  -- With a source port from 2 to 65535, where the library reads 0.0.0.0 as an IPv4 address, the
  -- socket is bound to that address and port before it connects; with any other it is not bound.
  pub net_connect_udp-bound :
      (any : inet.In4) (shost : NetAddr inet) (port : ℕ) (w : sys.World)
      → inet.pton4 (codes "0.0.0.0") ≡ some any
      → net_connect_udp inet sys shost (pos port) w ≡ (
          new_socket inet sys w >>= λ (sd, w1).
          (if ltb 1 port && ltb port 65536
            then bound inet sys (got_ipv4 inet any port) sd w1
            else ok (sd, w1))
          >>= λ (sd, w2). connect_to inet sys shost sd w2)
  unfolding net_connect_udp
  net_connect_udp-bound any shost port w h =
      ap (λ k. new_socket inet sys w >>= k)
        (fun_ext (λ x.
          ap (λ r. r >>= λ y. connect_to inet sys shost y.0 y.1)
            (from_src_port_lem any port x.0 x.1 h)))

  -- With SO_REUSEPORT asked for, where the socket, SO_REUSEADDR and bind succeed, the receiver gets
  -- the socket even if the system refuses SO_REUSEPORT.
  pub net_bind_udp-refused :
      (shost : NetAddr inet) (sd : sys.Fd) (w w1 w2 w3 w4 : sys.World)
      → sys.socket w ≡ (some sd, w1)
      → sys.setsockopt sd reuse_addr w1 ≡ (true, w2)
      → sys.setsockopt sd reuse_port w2 ≡ (false, w3)
      → sys.bind sd shost.sockaddr shost.sockaddr_len w3 ≡ (true, w4)
      → net_bind_udp inet sys shost true w ≡ ok (sd, w4)
  unfolding net_bind_udp
  net_bind_udp-refused shost sd w w1 w2 w3 w4 s a p b = rw (s, a, p, b)
