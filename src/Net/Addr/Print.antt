-- ===== src/Net/Addr/Print.antt =====
-- What `addr_to_str` prints of the addresses that `net_gethostbyname` makes.
use diversity.Net.Addr.Parse.{parse_addr-decimal}
use diversity.Prelude.{
  ℕ, ◌<◌, ◌≡◌, refl, ap, ◌∙◌, none, some, ◌∷◌, ◌++◌, arith, length-append, take-length, Bytes,
  codes,
}
use diversity.Net.Result.{ok}
use diversity.Net.Numbers.{decimal, htons-htons, decimal_short}
use diversity.Net.Addr.{Inet, Laws, got_ipv4, got_ipv6, net_gethostbyname, parse_addr, addr_to_str}

module _ (inet : Inet) where
  kept :
      (laws : Laws inet) (a : inet.In4) (port : ℕ)
      → port < 65536
      → addr_to_str inet (got_ipv4 inet a port) ≡ inet.ntop4 a ++ 58 ∷ decimal port
  unfolding addr_to_str
  kept laws a port h = rw (htons-htons port h) (
      take-length 254 (inet.ntop4 a ++ 58 ∷ decimal port) (
        omega (
          arith,
          length-append {0} (inet.ntop4 a) (58 ∷ decimal port),
          decimal_short port h,
          laws.ntop_short a,
        )))

  -- Where the library reads an IPv4 address as it prints it, what addr_to_str prints of an IPv4
  -- address with any port is parsed as that address.
  pub parse_addr-addr_to_str :
      (laws : Laws inet) (a : inet.In4) (port : ℕ)
      → port < 65536
      → parse_addr inet (addr_to_str inet (got_ipv4 inet a port)) ≡ ok (got_ipv4 inet a port)
  unfolding addr_to_str net_gethostbyname
  parse_addr-addr_to_str laws a port h =
      ap (parse_addr inet) (kept laws a port h)
      ∙ parse_addr-decimal inet (inet.ntop4 a) port (omega (arith, laws.ntop_short a)) h
      ∙ rw (laws.pton-ntop a)

  -- Every address that net_gethostbyname takes for IPv6 prints as a question mark with port 0.
  pub addr_to_str_ipv6 :
      (host : Bytes) (port : ℕ) (a : inet.In6)
      → inet.pton4 host ≡ none
      → inet.pton6 host ≡ some a
      → (net_gethostbyname inet host port ≡ ok (got_ipv6 inet a port))
        × (addr_to_str inet (got_ipv6 inet a port) ≡ codes "?:0")
  unfolding addr_to_str net_gethostbyname decimal
  addr_to_str_ipv6 host port a n s = (rw (n, s), refl)
