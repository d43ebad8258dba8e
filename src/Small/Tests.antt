-- ===== src/Small/Tests.antt =====
-- The programs on concrete values.
use diversity.Prelude.{◌≡◌, refl, true, false, none, some, [], ◌∷◌}
use diversity.Small.Factorial.{factorial}
use diversity.Small.Fill.{func2, heap_allocation}
use diversity.Small.Yes.{sig_handler, turn, run}

factorial_five : factorial 5 5 ≡ some 120
unfolding factorial
factorial_five = refl

-- 13! does not fit an int.
factorial_thirteen : factorial 20 13 ≡ none
unfolding factorial
factorial_thirteen = refl

filled_twice : heap_allocation 2 (1 ∷ 2 ∷ 3 ∷ 4 ∷ []) 4 ≡ some (99 ∷ 99 ∷ 3 ∷ 0 ∷ [])
unfolding heap_allocation func2
filled_twice = refl

two_threads :
    run
      (turn 0 ∷ turn 1 ∷ turn 0 ∷ sig_handler ∷ turn 0 ∷ turn 1 ∷ [])
      record { stopped = false; threads = (0, true) ∷ (0, true) ∷ [] }
    ≡ record { stopped = true; threads = (2, false) ∷ (1, false) ∷ [] }
unfolding run
two_threads = refl
