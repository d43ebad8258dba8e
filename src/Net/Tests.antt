-- ===== src/Net/Tests.antt =====
-- Addresses of four bytes, sockets that always work, and the theorems with them.
use diversity.Prelude.Int.{pos}
use diversity.Prelude.{
  ◌≤◌, ◌≡◌, refl, ◌∙◌, Bool, true, false, Option, none, some, [], ◌∷◌, arith, if◌then◌else◌, length,
  Bytes, codes, bytes_eq,
}
use diversity.Net.Result.{ok}
use diversity.Net.Numbers.{atoi, strrchr, decimal, htons}
use diversity.Net.Addr.{
  Inet, Laws, SockAddr, sin4, got_ipv4, net_gethostbyname, parse_addr, addr_to_str,
}
use diversity.Net.Addr.Parse.{parse_addr_host}
use diversity.Net.Addr.Print.{parse_addr-addr_to_str}
use diversity.Net.Sockets.{
  SockOpt, reuse_addr, reuse_port, connected, SocketCalls, net_bind_udp, net_connect_udp,
}
use diversity.Net.Receiver.{Options}
use diversity.Net.Sender.{target_addrs, connected_threads, sender_sockets}

-- Two IPv4 addresses and one IPv6 address.
abbrev shown : Bool → Bytes
shown true = codes "0.0.0.0"
shown false = codes "127.0.0.1"

abbrev toy_inet : Inet
toy_inet = record {
  In4 = Bool;
  In6 = Unit {0};
  pton4 = λ s.
      if bytes_eq s (codes "0.0.0.0")
      then some true
      else if bytes_eq s (codes "127.0.0.1")
      then some false
      else none;
  pton6 = λ s. if bytes_eq s (codes "::1") then some tt else none;
  ntop4 = shown;
  ntop6 = λ a. codes "::1";
}

pton-shown : (a : Bool) → toy_inet.pton4 (shown a) ≡ some a
unfolding bytes_eq
pton-shown true = refl
pton-shown false = refl

shown_short : (a : Bool) → length (shown a) ≤ 15
shown_short true = omega arith
shown_short false = omega arith

abbrev toy_laws : Laws toy_inet
toy_laws = record { pton-ntop = pton-shown; ntop_short = shown_short }

parse_addr-addr_to_str_example :
    parse_addr toy_inet (addr_to_str toy_inet (got_ipv4 toy_inet false 4321))
    ≡ ok (got_ipv4 toy_inet false 4321)
parse_addr-addr_to_str_example = parse_addr-addr_to_str toy_inet toy_laws false 4321 (omega arith)

not_four : toy_inet.pton4 (codes "::1") ≡ none
unfolding bytes_eq
not_four = refl

six : toy_inet.pton6 (codes "::1") ≡ some tt
unfolding bytes_eq
six = refl

-- The world is the address that a socket is bound to; the system has no SO_REUSEPORT.
abbrev accepted : SockOpt → Bool
accepted reuse_addr = true
accepted reuse_port = false

abbrev toy_calls : SocketCalls toy_inet
toy_calls = record {
  World = Option (SockAddr toy_inet);
  Fd = Unit {0};
  socket = λ w. (some tt, w);
  getsockopt_size = λ sd o w. none;
  setsockopt_size = λ sd o n w. (false, w);
  setsockopt = λ sd o w. (accepted o, w);
  bind = λ sd a n w. (true, some a);
  connect = λ sd a n w. (connected, w);
}

any_shown : toy_inet.pton4 (codes "0.0.0.0") ≡ some true
any_shown = pton-shown true

abbrev four_threads : Options
four_threads = record {
  listen_addr_str = codes "0.0.0.0:4321";
  thread_num = pos 4;
  reuseport = pos 0;
}

looked_up : net_gethostbyname toy_inet (codes "0.0.0.0") 4321 ≡ ok (got_ipv4 toy_inet true 4321)
unfolding net_gethostbyname bytes_eq
looked_up = refl

four_threads_parsed : parse_addr toy_inet (codes "0.0.0.0:4321") ≡ ok (got_ipv4 toy_inet true 4321)
four_threads_parsed =
    parse_addr_host toy_inet (codes "0.0.0.0") (codes "4321") (omega arith)
      (refl, (refl, (refl, (refl, tt)))) (omega arith)
    ∙ looked_up

four_threads_bound :
    net_bind_udp toy_inet toy_calls (got_ipv4 toy_inet true 4321) false none
    ≡ ok (tt, some (sin4 (htons 4321) true))
unfolding net_bind_udp
four_threads_bound = refl

two_targets :
    sender_sockets toy_inet toy_calls (codes "127.0.0.1:80" ∷ codes "0.0.0.0:81" ∷ []) none
    ≡ ok (tt ∷ tt ∷ [], some (sin4 (htons 11404) true))
unfolding sender_sockets target_addrs connected_threads parse_addr strrchr atoi net_gethostbyname
    bytes_eq net_connect_udp decimal
two_targets = refl
