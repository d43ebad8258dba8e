-- ===== src/Small/Yes.antt =====
-- multithread/src/multithread.c: the threads that print until a signal stops them. A move is a turn of a thread's loop, or a
-- signal.
use diversity.Prelude.{
  ℕ, zero, suc, ◌≡◌, refl, ap, ◌∙◌, Bool, true, false, List, [], ◌∷◌, map, if◌then◌else◌,
}

-- `stopped`, and for each thread the lines it has written, with whether it still runs.
pub record Program : Type 0 where
  pub stopped : Bool
  pub threads : List (ℕ × Bool)

pub data Move : Type 0 where
  sig_handler : Move
  turn : ℕ → Move

-- A turn of `yesThread`: a line, or the end of the loop.
abbrev pub yes_thread : Bool → ℕ × Bool → ℕ × Bool
yes_thread true (lines, running) = (lines, false)
yes_thread false (lines, running) = if running then (suc lines, true) else (lines, false)

abbrev pub turned : Bool → ℕ → List (ℕ × Bool) → List (ℕ × Bool)
turned stopped i [] = []
turned stopped zero (t ∷ ts) = yes_thread stopped t ∷ ts
turned stopped (suc i) (t ∷ ts) = t ∷ turned stopped i ts

unfoldable pub run : List Move → Program → Program
run [] p = p
run (sig_handler ∷ ms) p = run ms record p { stopped = true }
run (turn i ∷ ms) p = run ms record p { threads = turned p.stopped i p.threads }

abbrev pub lines : List (ℕ × Bool) → List ℕ
lines ts = map (λ t. t.0) ts

turned-lines : (i : ℕ) (ts : List (ℕ × Bool)) → lines (turned true i ts) ≡ lines ts
turned-lines i [] = refl
turned-lines zero (t ∷ ts) = refl
turned-lines (suc i) (t ∷ ts) = ap (◌∷◌ t.0) (turned-lines i ts)

-- Once the signal has come, no thread writes a line, whatever the order of the turns.
pub run-lines :
    (ms : List Move) (ts : List (ℕ × Bool))
    → lines (run ms record { stopped = true; threads = ts }).threads ≡ lines ts
unfolding run
run-lines [] ts = refl
run-lines (sig_handler ∷ ms) ts = run-lines ms ts
run-lines (turn i ∷ ms) ts = run-lines ms (turned true i ts) ∙ turned-lines i ts
