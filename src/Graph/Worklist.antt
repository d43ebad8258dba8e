-- ===== src/Graph/Worklist.antt =====
-- What the searches need of the stack and of the queue.
use diversity.Prelude.Int.{ℤ, pos}
use diversity.Prelude.{
  ℕ, suc, ◌<◌, ◌≡◌, ◌⊎◌, Bool, true, false, Option, some, List, [], ◌∷◌, length,
}

-- The operations that the loops call; `none` is an access outside the array.
pub record Worklist (S : Type 0) : Type 0 where
  pub is_empty : S → Bool
  pub peek : S → Option ℤ
  pub push : ℤ → S → Option S
  pub pop : S → Option S

abbrev pub In : ℕ → List ℕ → Type 0
In v [] = ⊥
In v (x ∷ xs) = (v ≡ x) ⊎ In v xs

-- `Holds s xs` says that `s` holds the vertices `xs`, the next one first, and has room for `room` vertices in all.
pub record Laws (S : Type 0) (w : Worklist S) (room : ℕ) (Holds : S → List ℕ → Type 0)
    : Type 0 where
  pub none_left : (s : S) → Holds s [] → w.is_empty s ≡ true
  pub some_left : (s : S) (x : ℕ) (xs : List ℕ) → Holds s (x ∷ xs) → w.is_empty s ≡ false
  pub peek-next : (s : S) (x : ℕ) (xs : List ℕ) → Holds s (x ∷ xs) → w.peek s ≡ some (pos x)
  pub pop-next :
      (s : S) (x : ℕ) (xs : List ℕ)
      → Holds s (x ∷ xs)
      → (s' : S) × (w.pop s ≡ some s') × Holds s' xs
  pub push-added :
      (s : S) (x : ℕ) (xs : List ℕ)
      → Holds s xs
      → length xs < room
      → (s' : S) × (ys : List ℕ) × (w.push (pos x) s ≡ some s')
        × Holds s' ys
        × (length ys ≡ suc (length xs))
        × ((v : ℕ) → In v ys → (v ≡ x) ⊎ In v xs)
        × ((v : ℕ) → (v ≡ x) ⊎ In v xs → In v ys)
