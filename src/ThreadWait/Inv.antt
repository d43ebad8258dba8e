-- ===== src/ThreadWait/Inv.antt =====
-- What holds between any two moves.
use diversity.Prelude.{
  ℕ, zero, suc, ◌+◌, ◌≤◌, ◌<◌, ◌≡◌, refl, ◌⊎◌, inl, inr, Bool, true, false, Option, none, some,
  arith, ltb, ◌==◌, if◌then◌else◌, ltb→lt, Bool-cases,
}
use diversity.ThreadWait.{
  Watcher, starting, waiting, woken, finished, State, state, Move, inc_first, inc_second, watch,
  wake, spurious, inc_count, watch_test, step,
}

-- While it waits the limit is not reached; only a wait adds to what the counting threads add.
abbrev pub Inv : State → Type 0
Inv (state c l r starting) = c + l + r ≡ 20
Inv (state c l r waiting) = (c + l + r ≡ 20) × (c < 12)
Inv (state c l r woken) = c + l + r ≡ 20
Inv (state c l r finished) = (c + l + r ≡ 20) ⊎ (c + l + r ≡ 145)

same : (b : Bool) (w : Watcher) → (if b then w else w) ≡ w
same true w = refl
same false w = refl

counted-Inv :
    (c l r : ℕ) (w : Watcher)
    → Inv (state c (suc l) r w)
    → Inv (state (suc c) l r (inc_count (suc c) w))
counted-Inv c l r starting h = rw (same (suc c == 12) starting) (omega arith)
counted-Inv c l r waiting h = elim (Bool-cases (suc c == 12)) [
  | inl t ↦ rw t (omega (arith, h.0))
  | inr f ↦ rw f (omega (arith, h.0), ground (arith, h.1))
]
counted-Inv c l r woken h = rw (same (suc c == 12) woken) (omega arith)
counted-Inv c l r finished (inl h) = rw (same (suc c == 12) finished) (inl (omega arith))
counted-Inv c l r finished (inr h) = rw (same (suc c == 12) finished) (inr (omega arith))

swapped : (c l r : ℕ) (w : Watcher) → Inv (state c l r w) → Inv (state c r l w)
swapped c l r starting h = omega (arith, h)
swapped c l r waiting h = (omega (arith, h.0), h.1)
swapped c l r woken h = omega (arith, h)
swapped c l r finished (inl h) = inl (omega arith)
swapped c l r finished (inr h) = inr (omega arith)

-- The moves that each state has left.
abbrev rank : Watcher → ℕ
rank starting = 2
rank waiting = 1
rank woken = 1
rank finished = 0

abbrev pub measure : State → ℕ
measure (state c l r w) = l + r + rank w

rank_counted : (c : ℕ) (w : Watcher) → rank (inc_count c w) ≡ rank w
rank_counted c starting = rw (same (c == 12) starting)
rank_counted c waiting = elim (Bool-cases (c == 12)) [ inl t ↦ rw t | inr f ↦ rw f ]
rank_counted c woken = rw (same (c == 12) woken)
rank_counted c finished = rw (same (c == 12) finished)

-- A move keeps the invariant, and leaves fewer moves.
abbrev pub Keeps : State → Option State → Type 0
Keeps s none = Unit
Keeps s (some s') = Inv s' × (measure s' < measure s)

through : (c : ℕ) → watch_test (c + 125) ≡ finished
through c = ground arith

watched-Inv :
    (c l r : ℕ) → c + l + r ≡ 20 → Inv (state c l r (watch_test c)) × (rank (watch_test c) ≤ 1)
watched-Inv c l r h = elim (Bool-cases (ltb c 12)) [
  | inl t ↦ rw t ((h, ltb→lt c 12 t), omega arith)
  | inr f ↦ rw f (inl h, omega arith)
]

pub step-Keeps : (m : Move) (s : State) → Inv s → Keeps s (step m s)
unfolding step
step-Keeps inc_first (state c zero r w) h = tt
step-Keeps inc_first (state c (suc l) r w) h =
    (counted-Inv c l r w h, omega (arith, rank_counted (suc c) w))
step-Keeps inc_second (state c l zero w) h = tt
step-Keeps inc_second (state c l (suc r) w) h = (
  swapped (suc c) r l (inc_count (suc c) w) (counted-Inv c r l w (swapped c l (suc r) w h)),
  omega (arith, rank_counted (suc c) w),
)
step-Keeps watch (state c l r starting) h =
    let (i, k) = watched-Inv c l r h in (i, omega (arith, k))
step-Keeps watch (state c l r waiting) h = tt
step-Keeps watch (state c l r woken) h = tt
step-Keeps watch (state c l r finished) h = tt
step-Keeps wake (state c l r starting) h = tt
step-Keeps wake (state c l r waiting) h = tt
step-Keeps wake (state c l r woken) h = rw (through c) (inr (omega arith), omega arith)
step-Keeps wake (state c l r finished) h = tt
step-Keeps spurious (state c l r starting) h = tt
step-Keeps spurious (state c l r waiting) h = rw (through c) (inr (omega (arith, h.0)), omega arith)
step-Keeps spurious (state c l r woken) h = tt
step-Keeps spurious (state c l r finished) h = tt
