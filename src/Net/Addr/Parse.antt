-- ===== src/Net/Addr/Parse.antt =====
-- What `parse_addr` reads.
use diversity.Prelude.Int.{pos}
use diversity.Prelude.{
  ℕ, ◌^◌, ◌≤◌, ◌<◌, min, ◌≡◌, refl, ◌∙◌, true, not, none, [], ◌∷◌, ◌++◌, arith, ltb, leb, ◌==◌,
  if◌then◌else◌, length, take, take-length, Bytes, All,
}
use diversity.Net.Result.{no_port, invalid_port, Result, abort}
use diversity.Net.Numbers.{
  is_digit, value_from, strrchr, decimal, decimal-value, decimal-All, atoi-digits, strrchr-port,
}
use diversity.Net.Addr.{Inet, NetAddr, net_gethostbyname, parse_addr}

module _ (inet : Inet) where
  whole : (host : Bytes) → length host ≤ 254 → take (min 254 (length host)) host ≡ host
  whole host l = take-length (min 254 (length host)) host (omega arith)

  checked :
      (p : ℕ) (r : Result (NetAddr inet))
      → (if ltb 65535 p then abort (invalid_port (pos p)) else r)
        ≡ (if leb p 65535 then r else abort (invalid_port (pos p)))
  checked p r = ground arith

  small : (p : ℕ) → p < 65536 → leb p 65535 ≡ true
  small p h = ground arith

  no_colon : (s : Bytes) → All (λ c. not (c == 58)) s → strrchr 58 s ≡ none
  unfolding strrchr
  no_colon [] a = refl
  no_colon (c ∷ cs) a = ground (arith, no_colon cs a.1)

  -- A host of at most 254 bytes, which may hold colons itself, a colon and the digits of a port: up
  -- to 65535 the host is looked up with that port, and a larger port aborts with its number, as long
  -- as it fits an int.
  pub parse_addr_host :
      (host ds : Bytes)
      → length host ≤ 254
      → All is_digit ds
      → value_from 0 ds < 2 ^ 31
      → parse_addr inet (host ++ 58 ∷ ds) ≡ (
          if leb (value_from 0 ds) 65535
          then net_gethostbyname inet host (value_from 0 ds)
          else abort (invalid_port (pos (value_from 0 ds))))
  unfolding parse_addr
  parse_addr_host host ds l a h =
      rw (strrchr-port host ds a, atoi-digits ds a h, whole host l)
        (checked (value_from 0 ds) (net_gethostbyname inet host (value_from 0 ds)))

  -- The printed port is read again.
  pub parse_addr-decimal :
      (host : Bytes) (port : ℕ)
      → length host ≤ 254
      → port < 65536
      → parse_addr inet (host ++ 58 ∷ decimal port) ≡ net_gethostbyname inet host port
  parse_addr-decimal host port l h =
      parse_addr_host host (decimal port) l (decimal-All port) (omega (arith, decimal-value port))
      ∙ rw (decimal-value port, small port h)

  -- A text without a colon aborts.
  pub parse_addr_no_port :
      (s : Bytes) → All (λ c. not (c == 58)) s → parse_addr inet s ≡ abort no_port
  unfolding parse_addr
  parse_addr_no_port s a = rw (no_colon s a)
