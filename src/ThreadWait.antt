-- ===== src/ThreadWait.antt =====
-- pthread_wait/main.c: two threads that count and one that waits for the count. A move is what a thread does between
-- taking the mutex and giving it up; a waiting thread may also wake without a signal.
pub mod Inv
pub mod Runs
mod Tests
use diversity.Prelude.{
  ℕ, zero, suc, ◌+◌, Option, none, some, List, [], ◌∷◌, ltb, ◌==◌, if◌then◌else◌, ◌>>=◌,
}

-- Where `watch_count` is: before it takes the mutex, in pthread_cond_wait, signalled, or through.
pub data Watcher : Type 0 where
  starting waiting woken finished : Watcher

-- `count`, the iterations that each `inc_count` has left, and the watcher.
pub data State : Type 0 where
  state : ℕ → ℕ → ℕ → Watcher → State

pub data Move : Type 0 where
  inc_first inc_second watch wake spurious : Move

-- pthread_cond_signal wakes a thread that waits, and is lost otherwise.
abbrev pub signal : Watcher → Watcher
signal waiting = woken
signal w = w

-- COUNT_LIMIT is 12.
abbrev pub inc_count : ℕ → Watcher → Watcher
inc_count count w = if count == 12 then signal w else w

-- The test of the loop of `watch_count`.
abbrev pub watch_test : ℕ → Watcher
watch_test count = if ltb count 12 then waiting else finished

-- `none`: the thread has no such move.
unfoldable pub step : Move → State → Option State
step inc_first (state c (suc l) r w) = some (state (suc c) l r (inc_count (suc c) w))
step inc_first (state c zero r w) = none
step inc_second (state c l (suc r) w) = some (state (suc c) l r (inc_count (suc c) w))
step inc_second (state c l zero w) = none
step watch (state c l r starting) = some (state c l r (watch_test c))
step watch (state c l r _) = none
step wake (state c l r woken) = some (state (c + 125) l r (watch_test (c + 125)))
step wake (state c l r _) = none
step spurious (state c l r waiting) = some (state (c + 125) l r (watch_test (c + 125)))
step spurious (state c l r _) = none

unfoldable pub run : List Move → State → Option State
run [] s = some s
run (m ∷ ms) s = do s' ← step m s; run ms s'

-- As `main` starts the threads, with TCOUNT iterations each.
abbrev pub initial : State
initial = state 0 10 10 starting
