-- ===== src/ThreadWait/Runs.antt =====
-- Every run of the three threads.
use diversity.Prelude.{
  ℕ, zero, suc, ◌+◌, ◌≤◌, ◌<◌, ◌≡◌, refl, subst, ◌⊎◌, inl, inr, Option, none, some, List, [], ◌∷◌,
  arith, Option-cases, length,
}
use diversity.ThreadWait.{
  Watcher, starting, waiting, woken, finished, State, state, Move, inc_first, inc_second, watch,
  wake, step, run, initial,
}
use diversity.ThreadWait.Inv.{Inv, measure, Keeps, step-Keeps}

abbrev Holds : ℕ → State → Option State → Type 0
Holds n s none = Unit
Holds n s (some s') = Inv s' × (n + measure s' ≤ measure s)

Holds-Keeps :
    (n : ℕ) (s t : State) (o : Option State)
    → measure t < measure s
    → Holds n t o
    → Holds (suc n) s o
Holds-Keeps n s t none lt h = tt
Holds-Keeps n s t (some s') lt h = (h.0, omega (arith, lt, h.1))

run-Holds : (ms : List Move) (s : State) → Inv s → Holds (length ms) s (run ms s)
unfolding run
run-Holds [] s i = (i, omega arith)
run-Holds (m ∷ ms) s i = elim (Option-cases (step m s)) [
  | inl n ↦ rw n tt
  | inr (t, e) ↦
      let (it, lt) = subst (Keeps s) e (step-Keeps m s i) in
      rw e (Holds-Keeps (length ms) s t (run ms t) lt (run-Holds ms t it))
]

run-Inv :
    (ms : List Move) (s : State) → run ms initial ≡ some s → Inv s × (length ms + measure s ≤ 22)
run-Inv ms s e = subst (Holds (length ms) initial) e (run-Holds ms initial (omega arith))

stopped :
    (c l r : ℕ) (w : Watcher)
    → Inv (state c l r w)
    → step inc_first (state c l r w) ≡ none
    → step inc_second (state c l r w) ≡ none
    → step watch (state c l r w) ≡ none
    → step wake (state c l r w) ≡ none
    → (l ≡ 0) × (r ≡ 0) × (w ≡ finished) × ((c ≡ 20) ⊎ (c ≡ 145))
unfolding step
stopped c (suc l) r w i f s t k = absurd (ground (arith, f))
stopped c zero (suc r) w i f s t k = absurd (ground (arith, s))
stopped c zero zero starting i f s t k = absurd (ground (arith, t))
stopped c zero zero waiting i f s t k = absurd (omega (arith, i.0, i.1))
stopped c zero zero woken i f s t k = absurd (ground (arith, k))
stopped c zero zero finished (inl i) f s t k = (refl, refl, refl, inl (omega arith))
stopped c zero zero finished (inr i) f s t k = (refl, refl, refl, inr (omega arith))

-- Whatever the order of the moves, with spurious wakeups: there are at most 22 of them.
pub run-length : (ms : List Move) (s : State) → run ms initial ≡ some s → length ms ≤ 22
run-length ms s e = omega (arith, (run-Inv ms s e).1)

-- Whatever the order of the moves, with spurious wakeups: where no thread has a move but by a spurious
-- wakeup, the counting threads have counted ten times each, the watcher is through, so no wakeup was
-- lost, and the count is 20 or 145.
pub run_stuck :
    (ms : List Move) (c l r : ℕ) (w : Watcher)
    → run ms initial ≡ some (state c l r w)
    → step inc_first (state c l r w) ≡ none
    → step inc_second (state c l r w) ≡ none
    → step watch (state c l r w) ≡ none
    → step wake (state c l r w) ≡ none
    → (l ≡ 0) × (r ≡ 0) × (w ≡ finished) × ((c ≡ 20) ⊎ (c ≡ 145))
run_stuck ms c l r w e f s t k = stopped c l r w (run-Inv ms (state c l r w) e).0 f s t k
