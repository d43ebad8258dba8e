-- ===== src/Net/Addr.antt =====
-- fast_leveldb/src/net.c: `parse_addr`, `net_gethostbyname` and `addr_to_str`, and `struct net_addr`.
pub mod Parse
pub mod Print
use diversity.Prelude.Int.{ℤ, pos, negsuc}
use diversity.Prelude.{
  ℕ, ◌≤◌, min, ◌≡◌, Option, none, some, [], ◌∷◌, ◌++◌, ltb, ◌==◌, if◌then◌else◌, length, take,
  Bytes,
}
use diversity.Net.Result.{no_port, undefined, invalid_port, no_address, Result, ok, abort}
use diversity.Net.Numbers.{atoi, strrchr, decimal, htons}

-- `inet_pton` and `inet_ntop` for the two families
pub record Inet : Type 1 where
  pub In4 : Type 0
  pub In6 : Type 0
  pub pton4 : Bytes → Option In4
  pub pton6 : Bytes → Option In6
  pub ntop4 : In4 → Bytes
  pub ntop6 : In6 → Bytes

module _ (inet : Inet) where
  -- What is printed of an IPv4 address is read as that address, and is at most 15 characters.
  pub record Laws : Type 0 where
    pub pton-ntop : (a : inet.In4) → inet.pton4 (inet.ntop4 a) ≡ some a
    pub ntop_short : (a : inet.In4) → length (inet.ntop4 a) ≤ 15

  -- The socket address that `sockaddr` points to, with the port in network order.
  pub data SockAddr : Type 0 where
    sin4 : ℕ → inet.In4 → SockAddr
    sin6 : ℕ → inet.In6 → SockAddr

  -- `struct net_addr`
  pub record NetAddr : Type 0 where
    pub ipver : ℕ
    pub sockaddr : SockAddr
    pub sockaddr_len : ℕ

  -- `sizeof(shost->sin4)` is 16 in both cases.
  abbrev pub got_ipv4 : inet.In4 → ℕ → NetAddr
  got_ipv4 a port = record { ipver = 4; sockaddr = sin4 (htons port) a; sockaddr_len = 16 }

  abbrev pub got_ipv6 : inet.In6 → ℕ → NetAddr
  got_ipv6 a port = record { ipver = 6; sockaddr = sin6 (htons port) a; sockaddr_len = 16 }

  abbrev try_ipv6 : Bytes → ℕ → Option inet.In6 → Result NetAddr
  try_ipv6 host port (some a) = ok (got_ipv6 a port)
  try_ipv6 host port none = abort (no_address host)

  abbrev try_ipv4 : Bytes → ℕ → Option inet.In4 → Result NetAddr
  try_ipv4 host port (some a) = ok (got_ipv4 a port)
  try_ipv4 host port none = try_ipv6 host port (inet.pton6 host)

  unfoldable pub net_gethostbyname : Bytes → ℕ → Result NetAddr
  net_gethostbyname host port = try_ipv4 host port (inet.pton4 host)

  abbrev with_port : Bytes → Option ℤ → Result NetAddr
  with_port host none = abort undefined
  with_port host (some (negsuc n)) = abort (invalid_port (negsuc n))
  with_port host (some (pos port)) =
      if ltb 65535 port
      then abort (invalid_port (pos port))
      else net_gethostbyname (take (min 254 (length host)) host) port

  abbrev at_colon : Option (Bytes × Bytes) → Result NetAddr
  at_colon none = abort no_port
  at_colon (some (host, port)) = with_port host (atoi port)

  unfoldable pub parse_addr : Bytes → Result NetAddr
  parse_addr addr = at_colon (strrchr 58 addr)

  -- `dst` and `port`, by `ipver`: the IPv6 case is 16, but `net_gethostbyname` sets 6.
  abbrev port_of : SockAddr → ℕ
  port_of (sin4 p a) = htons p
  port_of (sin6 p a) = htons p

  abbrev dst_of : SockAddr → Bytes
  dst_of (sin4 p a) = inet.ntop4 a
  dst_of (sin6 p a) = inet.ntop6 a

  abbrev by_version : ℕ → SockAddr → Bytes × ℕ
  by_version v s =
      if v == 4
      then (dst_of s, port_of s)
      else if v == 16
      then (dst_of s, port_of s)
      else (63 ∷ [], 0)

  -- `snprintf` keeps 254 characters.
  unfoldable pub addr_to_str : NetAddr → Bytes
  addr_to_str addr =
      let (dst, port) = by_version addr.ipver addr.sockaddr in take 254 (dst ++ 58 ∷ decimal port)
