-- ===== src/Latency/Tests.antt =====
-- The theorem at two answers, the second over a change of the second.
use diversity.Prelude.{List, [], ◌∷◌}
use diversity.Latency.{Stat}
use diversity.Latency.Reads.{Answer}

abbrev two_answers : List Answer
two_answers =
    record { start_sec = 5; start_nsec = 100; end_sec = 5; end_nsec = 350 }
    ∷ record { start_sec = 5; start_nsec = 999999900; end_sec = 6; end_nsec = 200 }
    ∷ []

abbrev no_answers : Stat
no_answers = record { nb_packets = 0; latency = 0 }
