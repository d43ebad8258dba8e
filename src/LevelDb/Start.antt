-- ===== src/LevelDb/Start.antt =====
-- fast_leveldb/src/udpreceiver.c: `state_init` and the loop of `main` that calls it for each thread. Opening the
-- database is a parameter: `none` is an error.
use diversity.Prelude.{
  ℕ, zero, suc, ◌≡◌, refl, inl, inr, Option, none, some, List, [], ◌∷◌, Option-cases, ◌>>=◌,
}
use diversity.Million.Receiver.{Slot, state_init}

module _ {World : Type 0} (leveldb_open : World → Option World) where
  -- The vectors of a state, which are those of the receiver without a database, and the library after `leveldb_open`;
  -- `none` is the exit of the program.
  unfoldable pub init_with_db : World → Option (List Slot × World)
  init_with_db w = do w' ← leveldb_open w; some (state_init, w')

  -- The states of so many threads
  unfoldable pub init_states : ℕ → World → Option (List (List Slot) × World)
  init_states zero w = some ([], w)
  init_states (suc thread_num) w = do
    (s, w') ← init_with_db w
    (states, w'') ← init_states thread_num w'
    some (s ∷ states, w'')

  -- As LevelDB documents it, a database that is open is locked.
  abbrev pub IsLocking : Type 0
  IsLocking = (w w' : World) → leveldb_open w ≡ some w' → leveldb_open w' ≡ none

  refused :
      (thread_num : ℕ) (w : World) → leveldb_open w ≡ none → init_states (suc thread_num) w ≡ none
  unfolding init_states init_with_db
  refused thread_num w e = rw e refl

  second :
      (thread_num : ℕ) (w w' : World)
      → leveldb_open w ≡ some w'
      → leveldb_open w' ≡ none
      → init_states (suc (suc thread_num)) w ≡ none
  unfolding init_states init_with_db
  second thread_num w w' e f = rw (e, f) refl

  -- With two threads or more the receiver exits while it starts them, since every thread opens the same database.
  pub init_states-none :
      (thread_num : ℕ) (w : World) → IsLocking → init_states (suc (suc thread_num)) w ≡ none
  init_states-none thread_num w locking = elim (Option-cases (leveldb_open w)) [
    | inl e ↦ refused (suc thread_num) w e
    | inr o ↦ second thread_num w o.0 o.1 (locking w o.0 o.1)
  ]
