-- ===== src/ThreadWait/Tests.antt =====
-- The theorems at a run in which the watcher waits and is signalled.
use diversity.Prelude.{ℕ, ◌≤◌, ◌≡◌, refl, ◌⊎◌, none, some, List, ◌∷◌, ◌++◌, length, replicate}
use diversity.ThreadWait.{
  finished, state, Move, inc_first, inc_second, watch, wake, spurious, step, run, initial,
}
use diversity.ThreadWait.Runs.{run-length, run_stuck}

abbrev signalled_run : List Move
signalled_run =
    watch ∷ replicate 10 inc_first ++ inc_second ∷ inc_second ∷ wake ∷ replicate 8 inc_second

signalled : run signalled_run initial ≡ some (state 145 0 0 finished)
unfolding run step
signalled = refl

ended : (m : Move) → step m (state 145 0 0 finished) ≡ none
unfolding step
ended inc_first = refl
ended inc_second = refl
ended watch = refl
ended wake = refl
ended spurious = refl

run-length_example : length signalled_run ≤ 22
run-length_example = run-length signalled_run (state 145 0 0 finished) signalled

run_stuck_example :
    (◌≡◌ {A = ℕ} 0 0)
    × (◌≡◌ {A = ℕ} 0 0)
    × (finished ≡ finished)
    × ((◌≡◌ {A = ℕ} 145 20) ⊎ (◌≡◌ {A = ℕ} 145 145))
run_stuck_example =
    run_stuck signalled_run 145 0 0 finished signalled (ended inc_first) (ended inc_second)
      (ended watch) (ended wake)
