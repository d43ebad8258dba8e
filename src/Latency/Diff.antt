-- ===== src/Latency/Diff.antt =====
-- What `timespec_diff` computes on clock readings.
use diversity.Prelude.Int.{pos}
use diversity.Prelude.Int.{pos_part}
use diversity.Prelude.{
  ℕ, ◌+◌, ◌-◌, ◌*◌, ◌/◌, ◌%◌, ◌^◌, ◌≤◌, ◌<◌, ◌≡◌, ap₂, ◌∙◌, inl, inr, false, some, arith, ltb,
  ltb→lt, Bool-cases,
}
use diversity.Latency.{ns_per_s, Timespec, timespec_diff}

-- A reading of the clock
abbrev pub at_time : ℕ → ℕ → Timespec
at_time s n = record { tv_sec = pos s; tv_nsec = pos n }

not_before : (a b : ℕ) → ltb a b ≡ false → b ≤ a
not_before a b h = ground arith

borrowed :
    (s1 n1 s2 n2 : ℕ)
    → n2 < n1
    → n1 < ns_per_s
    → s1 < s2
    → s2 < 2 ^ 63
    → timespec_diff (at_time s2 n2) (at_time s1 n1)
      ≡ some (at_time (s2 - s1 - 1) (ns_per_s + n2 - n1), false)
unfolding timespec_diff
borrowed s1 n1 s2 n2 h v l u = ground arith

subtracted :
    (s1 n1 s2 n2 : ℕ)
    → n1 ≤ n2
    → s1 ≤ s2
    → s2 < 2 ^ 63
    → n2 < ns_per_s
    → timespec_diff (at_time s2 n2) (at_time s1 n1) ≡ some (at_time (s2 - s1) (n2 - n1), false)
unfolding timespec_diff
subtracted s1 n1 s2 n2 h l u v = ground arith

-- For clock readings with less than a second of nanoseconds, the end not before the start: no long overflows, the flag
-- is 0, and the result has less than a second of nanoseconds and is the time between them.
pub timespec_diff_later :
    (s1 n1 s2 n2 : ℕ)
    → n1 < ns_per_s
    → n2 < ns_per_s
    → s1 * ns_per_s + n1 ≤ s2 * ns_per_s + n2
    → s2 < 2 ^ 63
    → (s n : ℕ) × (timespec_diff (at_time s2 n2) (at_time s1 n1) ≡ some (at_time s n, false))
      × (n < ns_per_s)
      × (s * ns_per_s + n + (s1 * ns_per_s + n1) ≡ s2 * ns_per_s + n2)
timespec_diff_later s1 n1 s2 n2 v1 v2 h u = elim (Bool-cases (ltb n2 n1)) [
  | inl t ↦
      let lt = ltb→lt n2 n1 t in
      (
        s2 - s1 - 1,
        ns_per_s + n2 - n1,
        borrowed s1 n1 s2 n2 lt v1 (omega (arith, lt)) u,
        omega (arith, lt),
        omega (arith, lt),
      )
  | inr f ↦
      let le = not_before n2 n1 f in
      (
        s2 - s1,
        n2 - n1,
        subtracted s1 n1 s2 n2 le (omega (arith, le)) u v2,
        omega (arith, le),
        omega (arith, le),
      )
]

-- A reading of the clock, and its nanoseconds
abbrev pub IsReading : Timespec → Type 0
IsReading t =
    (t ≡ at_time (pos_part t.tv_sec) (pos_part t.tv_nsec))
    × pos_part t.tv_sec < 2 ^ 63
    × pos_part t.tv_nsec < ns_per_s

abbrev pub total_ns : Timespec → ℕ
total_ns t = pos_part t.tv_sec * ns_per_s + pos_part t.tv_nsec

-- The timespec of so many nanoseconds
abbrev pub time_of : ℕ → Timespec
time_of t = at_time (t / ns_per_s) (t % ns_per_s)

-- For readings of the clock, the end not before the start: the nanoseconds between them, and 0.
pub timespec_diff-IsReading :
    (end start : Timespec)
    → IsReading end
    → IsReading start
    → total_ns start ≤ total_ns end
    → timespec_diff end start ≡ some (time_of (total_ns end - total_ns start), false)
timespec_diff-IsReading end start (e, es, en) (f, fs, fn) h =
    let (s, n, r, l, d) =
      timespec_diff_later (pos_part start.tv_sec) (pos_part start.tv_nsec) (pos_part end.tv_sec)
        (pos_part end.tv_nsec) fn en h es in
    let gone = total_ns end - total_ns start in
    ap₂ timespec_diff e f
    ∙ r
    ∙ ap₂ (λ a b. some (at_time a b, false)) {x = s} {y = gone / ns_per_s} {u = n}
        {v = gone % ns_per_s} (omega (arith, l, d)) (omega (arith, l, d))
