-- ===== src/Million/Receiver/Cleared.antt =====
-- The vectors are as `state_init` made them before every call, and the counters count.
use diversity.Prelude.{
  ℕ, zero, suc, ◌+◌, ◌*◌, ◌%◌, ◌^◌, ◌≤◌, ◌<◌, ◌≡◌, sym, ap, ap₂, ◌∙◌, true, some, List, [], ◌∷◌,
  ◌++◌, arith, bounded_lem, length, length-append,
}
use diversity.Million.Receiver.{
  mtu_size, max_msg, init_slots, state_init, State, Arrival, stored, count_bytes, on_batch, Recv,
  messages, again, fatal, thread_loop,
}

abbrev pub sum_lengths : List Arrival → ℕ
sum_lengths [] = 0
sum_lengths (m ∷ ms) = m.0 + sum_lengths ms

-- Each message fits its buffer.
abbrev pub AllFit : List Arrival → Type 0
AllFit [] = Unit
AllFit (m ∷ ms) = (m.0 ≤ mtu_size) × AllFit ms

sum_bounded : (ms : List Arrival) → AllFit ms → sum_lengths ms ≤ length ms * 1920
sum_bounded [] h = omega arith
sum_bounded (m ∷ ms) h = omega (arith, h.0, sum_bounded ms h.1)

count_bytes-stored :
    (ms : List Arrival) (i n bytes : ℕ)
    → length ms ≤ n
    → bytes + sum_lengths ms < 2 ^ 31
    → count_bytes (length ms) (stored ms (init_slots i n)) bytes
      ≡ some (init_slots i n, bytes + sum_lengths ms)
unfolding count_bytes stored init_slots
count_bytes-stored [] i n bytes l h =
    ap (λ b. some (init_slots i n, b)) {x = bytes} {y = bytes + 0} (omega arith)
count_bytes-stored (m ∷ ms) i zero bytes l h = absurd (omega (arith, l))
count_bytes-stored (m ∷ ms) i (suc n) bytes l h =
    rw
      (
        bounded_lem (bytes + m.0) (omega (arith, h)),
        count_bytes-stored ms (suc i) n (bytes + m.0) (omega (arith, l)) (omega (arith, h)),
      )
      (ap (λ b. some (init_slots i (suc n), b)) {x = bytes + m.0 + sum_lengths ms}
        {y = bytes + (m.0 + sum_lengths ms)} (omega arith))

-- What arrives in all calls
abbrev pub arrived : List Recv → List Arrival
arrived [] = []
arrived (messages m ms ∷ rs) = (m ∷ ms) ++ arrived rs
arrived (again ∷ rs) = arrived rs
arrived (fatal ∷ rs) = arrived rs

-- No call fails for good, and each gives as many messages as there are slots, of lengths that fit.
abbrev pub AllGood : List Recv → Type 0
AllGood [] = Unit
AllGood (messages m ms ∷ rs) = (length (m ∷ ms) ≤ max_msg) × AllFit (m ∷ ms) × AllGood rs
AllGood (again ∷ rs) = AllGood rs
AllGood (fatal ∷ rs) = ⊥

abbrev pub fresh : ℕ → ℕ → State
fresh pps bps = record { pps = pps; bps = bps; messages = state_init }

on_batch-fresh :
    (ms : List Arrival) (pps bps : ℕ)
    → length ms ≤ max_msg
    → AllFit ms
    → on_batch ms (fresh pps bps)
      ≡ some (fresh ((pps + length ms) % 2 ^ 64) ((bps + sum_lengths ms) % 2 ^ 64))
unfolding on_batch
on_batch-fresh ms pps bps l f =
    rw (count_bytes-stored ms 0 max_msg 0 l (omega (arith, l, sum_bounded ms f))) (
      ap (λ b. some (fresh ((pps + length ms) % 2 ^ 64) ((bps + b) % 2 ^ 64)))
        {x = 0 + sum_lengths ms} {y = sum_lengths ms} (omega arith))

sum_lengths-append :
    (ms ns : List Arrival) → sum_lengths (ms ++ ns) ≡ sum_lengths ms + sum_lengths ns
sum_lengths-append [] ns = omega arith
sum_lengths-append (m ∷ ms) ns = omega (arith, sum_lengths-append ms ns)

wrap_add : (c n s : ℕ) → ((c + n) % 2 ^ 64 + s) % 2 ^ 64 ≡ (c + (n + s)) % 2 ^ 64
wrap_add c n s = omega arith

count_after :
    (c : ℕ) (now later : List Arrival)
    → ((c + length now) % 2 ^ 64 + length later) % 2 ^ 64 ≡ (c + length (now ++ later)) % 2 ^ 64
count_after c now later =
    wrap_add c (length now) (length later)
    ∙ ap (λ n. (c + n) % 2 ^ 64) (sym (length-append now later))

bytes_after :
    (c : ℕ) (now later : List Arrival)
    → ((c + sum_lengths now) % 2 ^ 64 + sum_lengths later) % 2 ^ 64
      ≡ (c + sum_lengths (now ++ later)) % 2 ^ 64
bytes_after c now later =
    wrap_add c (sum_lengths now) (sum_lengths later)
    ∙ ap (λ n. (c + n) % 2 ^ 64) (sym (sum_lengths-append now later))

-- Over any calls that give at most 512 messages, each no longer than its buffer, or an error that is retried: the thread
-- goes on, no int passes its bound, the messages and their bytes are added up modulo 2 ^ 64, and the vectors
-- are again as state_init made them.
pub thread_loop-fresh :
    (rs : List Recv) (pps bps : ℕ)
    → AllGood rs
    → pps < 2 ^ 64
    → bps < 2 ^ 64
    → thread_loop rs (fresh pps bps)
      ≡ some (
        fresh ((pps + length (arrived rs)) % 2 ^ 64) ((bps + sum_lengths (arrived rs)) % 2 ^ 64),
        true,
      )
unfolding thread_loop
thread_loop-fresh [] pps bps g p b =
    ap₂ (λ p b. some (fresh p b, true)) {x = pps} {y = (pps + 0) % 2 ^ 64} {u = bps}
      {v = (bps + 0) % 2 ^ 64} (omega arith) (omega arith)
thread_loop-fresh (messages m ms ∷ rs) pps bps g p b =
    let now = m ∷ ms in
    rw (on_batch-fresh now pps bps g.0 g.1) (
      thread_loop-fresh rs ((pps + length now) % 2 ^ 64) ((bps + sum_lengths now) % 2 ^ 64) g.2
        (omega arith) (omega arith)
      ∙ ap₂ (λ p b. some (fresh p b, true)) (count_after pps now (arrived rs))
          (bytes_after bps now (arrived rs)))
thread_loop-fresh (again ∷ rs) pps bps g p b = thread_loop-fresh rs pps bps g p b
thread_loop-fresh (fatal ∷ rs) pps bps g p b = absurd g
