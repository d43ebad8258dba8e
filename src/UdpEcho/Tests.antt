-- ===== src/UdpEcho/Tests.antt =====
-- The exchange at concrete times.
use diversity.Prelude.{ℕ, ◌≡◌, refl, none, some, List, [], ◌∷◌, replicate}
use diversity.Prelude.Int.{pos}
use diversity.Latency.{Timespec, timespec_diff}
use diversity.UdpEcho.Exchange.{Round, elapsed}
use diversity.UdpEcho.Client.{on_read, send_to_addr, start_of}
use diversity.UdpEcho.Server.{datagram}

abbrev at : ℕ → ℕ → Timespec
at s ns = record { tv_sec = pos s; tv_nsec = pos ns }

abbrev two_rounds : List Round
two_rounds =
    record { stale = replicate 16 255; end = at 11 4; next = at 12 0 }
    ∷ record { stale = []; end = at 13 5; next = at 14 0 }
    ∷ []

two_elapsed : elapsed (at 10 999999999) two_rounds ≡ some (at 0 5) ∷ some (at 1 5) ∷ []
two_elapsed = refl

-- An answer that is read before its request, as after the clock was set back, is not printed.
set_back :
    on_read (datagram (send_to_addr (at 12 0))) [] (at 9 5) (at 14 0)
    ≡ some (none, send_to_addr (at 14 0))
unfolding on_read timespec_diff send_to_addr start_of
set_back = refl
