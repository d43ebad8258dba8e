-- ===== src/Sorting/Merging.antt =====
-- `merge_sort` of c++/src/sorting.cpp. The array `b` has `high - low + 1` cells, which are `none` before they are
-- written; `low` and `high` are not negative, as in a call for an array that is not empty.
pub mod Cells
pub mod Fault
use diversity.Prelude.Int.{ℤ}
use diversity.Prelude.Int.{ltb_ℤ}
use diversity.Prelude.{
  ℕ, zero, suc, ◌+◌, ◌-◌, ◌/◌, Option, none, some, List, ◌==◌, if◌then◌else◌, ◌>>=◌, replicate,
}
use diversity.Prelude.Arrays.{read, write}

-- `fault` is an access outside an array or a read of a cell not written, `unfinished` says that the fuel ran out.
pub data Outcome : Type 0 where
  done : List ℤ → Outcome
  fault : Outcome
  unfinished : Outcome

abbrev pub and_then : Outcome → (List ℤ → Outcome) → Outcome
and_then (Outcome.done a) f = f a
and_then Outcome.fault f = Outcome.fault
and_then Outcome.unfinished f = Outcome.unfinished

abbrev pub checked : Option (List ℤ) → Outcome
checked (some a) = Outcome.done a
checked none = Outcome.fault

-- The three loops of `merge`, with `k1` elements left up to `mid` and `k2` up to `high`.
unfoldable pub merge_into : ℕ → ℕ → List ℤ → List (Option ℤ) → ℕ → ℕ → ℕ → Option (List (Option ℤ))
merge_into zero zero a b l1 l2 i = some b
merge_into zero (suc k2) a b l1 l2 i = do
  y ← read a l2
  b' ← write b i (some y)
  merge_into zero k2 a b' l1 (l2 + 1) (i + 1)
merge_into (suc k1) zero a b l1 l2 i = do
  x ← read a l1
  b' ← write b i (some x)
  merge_into k1 zero a b' (l1 + 1) l2 (i + 1)
merge_into (suc k1) (suc k2) a b l1 l2 i = do
  x ← read a l1
  y ← read a l2
  (let left = write b i (some x) >>= λ b'. merge_into k1 (suc k2) a b' (l1 + 1) l2 (i + 1) in
      let right = write b i (some y) >>= λ b'. merge_into (suc k1) k2 a b' l1 (l2 + 1) (i + 1) in
      if ltb_ℤ x y then left else right)

unfoldable pub merge : List ℤ → List (Option ℤ) → ℕ → ℕ → ℕ → Option (List (Option ℤ))
merge a b low mid high = merge_into (mid + 1 - low) (high - mid) a b low (mid + 1) low

-- The loop that copies `b` back, with `k` turns left.
unfoldable pub copy_back : ℕ → List ℤ → List (Option ℤ) → ℕ → Option (List ℤ)
copy_back zero a b low = some a
copy_back (suc k) a b low = do c ← read b low; v ← c; a' ← write a low v; copy_back k a' b (low + 1)

unfoldable pub merged_back : List ℤ → ℕ → ℕ → ℕ → Option (List ℤ)
merged_back a low mid high = do
  b ← merge a (replicate (high - low + 1) none) low mid high
  copy_back (high - low + 1) a b low

-- The fuel bounds the depth of the recursion.
unfoldable pub merge_sort : ℕ → List ℤ → ℕ → ℕ → Outcome
merge_sort zero a low high = Outcome.unfinished
merge_sort (suc fuel) a low high =
    let mid = (low + high) / 2 in
    let sorted = and_then (merge_sort fuel a low mid) (λ a1.
      and_then (merge_sort fuel a1 (mid + 1) high) (λ a2. checked (merged_back a2 low mid high))) in
    if low == high then Outcome.done a else sorted
