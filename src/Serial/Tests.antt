-- ===== src/Serial/Tests.antt =====
-- The exchange at concrete requests.
use diversity.Prelude.{
  ℕ, ◌+◌, ◌*◌, ◌^◌, ◌<◌, ◌≡◌, refl, true, none, some, List, [], ◌∷◌, arith, ◌>>=◌, replicate,
}
use diversity.Prelude.Int.{pos}
use diversity.Latency.{Timespec}
use diversity.Latency.Diff.{IsReading}
use diversity.Serial.Client.{letters}
use diversity.Serial.Client.{Inputs, send_request}
use diversity.Serial.Server.{Stat, echo_read_cb, echo}
use diversity.Serial.Exchange.{Round, conversation}
use diversity.Serial.Exchange.Rounds.{send_request-conversation}

abbrev at : ℕ → ℕ → Timespec
at s ns = record { tv_sec = pos s; tv_nsec = pos ns }

reading : (s ns : ℕ) → s < 2 ^ 63 → ns < 1000000000 → IsReading (at s ns)
reading s ns h l = (refl, h, l)

abbrev request_at : ℕ → Inputs
request_at s = record {
  rand = λ i. i * 7 + s;
  garbage = replicate 23 255;
  padding = (9, 9, 9, 9);
  ts = at s 999999999;
}

abbrev two_rounds : List Round
two_rounds =
    record { stale = replicate 128 255; end = at 11 4; next = request_at 12 }
    ∷ record { stale = []; end = at 13 5; next = request_at 14 }
    ∷ []

abbrev fresh_stat : Stat
fresh_stat = record { pps = 0; ts = 0 }

send_request-conversation_example :
    (send_request (request_at 10) >>= λ request. conversation two_rounds request fresh_stat)
    ≡ some record {
      printed =
          record { content = letters (request_at 10).rand 0 15; size = 16; elapsed = at 0 5 }
          ∷ record { content = letters (request_at 12).rand 0 15; size = 16; elapsed = at 0 6 }
          ∷ [];
      request = send_request (request_at 14);
      stat = record { pps = 2; ts = 0 };
    }
send_request-conversation_example =
    send_request-conversation (request_at 10) two_rounds fresh_stat
      (
        reading 10 999999999 (omega arith) (omega arith),
        reading 11 4 (omega arith) (omega arith),
        omega arith,
        (
          reading 12 999999999 (omega arith) (omega arith),
          reading 13 5 (omega arith) (omega arith),
          omega arith,
          reading 14 999999999 (omega arith) (omega arith),
        ),
      )
      (omega arith)

-- A message without a terminator, in a buffer without one
unterminated :
    echo_read_cb true true
      (replicate 128 255)
      record { input = replicate 40 65; output = []; stat = fresh_stat }
    ≡ none
unfolding echo_read_cb echo
unterminated = refl
