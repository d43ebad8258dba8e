-- ===== src/Graph/Reach.antt =====
-- The vertices that edges lead to from the vertex 0.
use diversity.Prelude.{ℕ, ◌<◌, ◌≡◌, Bool, true}

pub data Reach (count : ℕ) (edge : ℕ → ℕ → Bool) : ℕ → Type 0 where
  start : Reach count edge 0
  along : {i j : ℕ} → Reach count edge i → j < count → edge i j ≡ true → Reach count edge j
