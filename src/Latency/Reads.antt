-- ===== src/Latency/Reads.antt =====
-- The latency that is summed up over the answers.
use diversity.Prelude.Int.{pos}
use diversity.Prelude.{
  ℕ, ◌+◌, ◌-◌, ◌*◌, ◌%◌, ◌^◌, ◌≤◌, ◌<◌, ◌≡◌, ap, ap₂, ◌∙◌, Option, some, List, [], ◌∷◌, arith,
  ◌>>=◌, length,
}
use diversity.Latency.{ns_per_s, Stat, nanoseconds, on_read}
use diversity.Latency.Diff.{at_time, timespec_diff_later}

-- The time that an answer carries, and the time when it came.
pub record Answer : Type 0 where
  pub start_sec : ℕ
  pub start_nsec : ℕ
  pub end_sec : ℕ
  pub end_nsec : ℕ

abbrev started : Answer → ℕ
started a = a.start_sec * ns_per_s + a.start_nsec

abbrev ended : Answer → ℕ
ended a = a.end_sec * ns_per_s + a.end_nsec

-- Valid readings, the end not before the start, less than 2 ^ 63 ns after the clock's zero.
abbrev pub Later : List Answer → Type 0
Later [] = Unit
Later (a ∷ as') =
    (a.start_nsec < ns_per_s)
    × (a.end_nsec < ns_per_s)
    × (started a ≤ ended a)
    × (ended a < 2 ^ 63)
    × Later as'

abbrev pub elapsed : List Answer → ℕ
elapsed [] = 0
elapsed (a ∷ as') = (ended a - started a) + elapsed as'

abbrev pub on_answer : Answer → Stat → Option Stat
on_answer a s = on_read (at_time a.start_sec a.start_nsec) (at_time a.end_sec a.end_nsec) s

abbrev pub on_answers : List Answer → Stat → Option Stat
on_answers [] s = some s
on_answers (a ∷ as') s = do s' ← on_answer a s; on_answers as' s'

nanoseconds_lem :
    (s n : ℕ)
    → s * ns_per_s + n < 2 ^ 63
    → nanoseconds (at_time s n) ≡ some (pos (s * ns_per_s + n))
nanoseconds_lem s n h = ground arith

on_answer_lem :
    (a : Answer) (s : Stat)
    → a.start_nsec < ns_per_s
    → a.end_nsec < ns_per_s
    → started a ≤ ended a
    → ended a < 2 ^ 63
    → on_answer a s
      ≡ some record {
        nb_packets = (s.nb_packets + 1) % 2 ^ 64;
        latency = (s.latency + (ended a - started a)) % 2 ^ 64;
      }
unfolding on_read
on_answer_lem a s v w h u =
    let (sec, n, e, k, d) =
      timespec_diff_later a.start_sec a.start_nsec a.end_sec a.end_nsec v w h (omega (arith, u)) in
    rw (e, nanoseconds_lem sec n (omega (arith, d, u)))
      (ap (λ l. some record { nb_packets = (s.nb_packets + 1) % 2 ^ 64; latency = l })
        (omega (arith, d)))

-- Answers that come not before they were sent, with valid clock readings: no long overflows, and the packets and the
-- nanoseconds between are added up, modulo 2 ^ 64.
pub on_answers-elapsed :
    (as' : List Answer) (s : Stat)
    → Later as'
    → s.nb_packets < 2 ^ 64
    → s.latency < 2 ^ 64
    → on_answers as' s
      ≡ some record {
        nb_packets = (s.nb_packets + length as') % 2 ^ 64;
        latency = (s.latency + elapsed as') % 2 ^ 64;
      }
on_answers-elapsed [] s l p t =
    ap₂ (λ n m. some record { nb_packets = n; latency = m }) {x = s.nb_packets}
      {y = (s.nb_packets + 0) % 2 ^ 64} {u = s.latency} {v = (s.latency + 0) % 2 ^ 64} (omega arith)
      (omega arith)
on_answers-elapsed (a ∷ as') s l p t = rw (on_answer_lem a s l.0 l.1 l.2 l.3) (
    on_answers-elapsed as'
      record {
        nb_packets = (s.nb_packets + 1) % 2 ^ 64;
        latency = (s.latency + (ended a - started a)) % 2 ^ 64;
      }
      l.4 (omega arith) (omega arith)
    ∙ ap₂ (λ n m. some record { nb_packets = n; latency = m }) (omega arith) (omega arith))
