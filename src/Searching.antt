-- ===== src/Searching.antt =====
-- c++/src/searching.cpp and binaryTree/SearchMatrix.cpp: searches in an array of ints. What the searches print of
-- their progress is left out.
pub mod Reads
pub mod Linear
pub mod Binary
pub mod Matrix
pub mod Interpolation
mod Tests
use diversity.Prelude.Int.{ℤ}
use diversity.Prelude.Int.{negsuc, pos}
use diversity.Prelude.Int.{ltb_ℤ}
use diversity.Prelude.{
  ℕ, zero, suc, ◌+◌, ◌-◌, ◌*◌, ◌/◌, ◌%◌, Bool, false, Option, none, some, List, ltb, ◌==◌,
  if◌then◌else◌, ◌>>=◌,
}
use diversity.Prelude.Arrays.{read}

-- `==` on ints
abbrev pub eq_ℤ : ℤ → ℤ → Bool
eq_ℤ (pos m) (pos n) = m == n
eq_ℤ (pos m) (negsuc n) = false
eq_ℤ (negsuc m) (pos n) = false
eq_ℤ (negsuc m) (negsuc n) = m == n

-- The loop from `i` on, with `k` turns left.
unfoldable pub linear_from : ℕ → List ℤ → ℕ → ℤ → Option ℤ
linear_from zero a i x = some (negsuc 0)
linear_from (suc k) a i x = do
  y ← read a i
  (let next = linear_from k a (i + 1) x in
      if ltb_ℤ x y then some (negsuc 0) else if eq_ℤ y x then some (pos i) else next)

-- The result is the index, -1 if there is none; `none` is a read outside the array.
unfoldable pub linear_search : List ℤ → ℕ → ℤ → Option ℤ
linear_search a n x = linear_from n a 0 x

-- The loop of `binary_search` over the reads of a structure; `top` is `high + 1`, so that it is not
-- negative. Each turn halves what is left, the fuel bounds the turns.
unfoldable pub bisect : (ℕ → Option ℤ) → ℕ → ℕ → ℕ → ℤ → Option ℤ
bisect at zero low top x = none
bisect at (suc fuel) low top x =
    let mid = low + (top - 1 - low) / 2 in
    let turn = (do
      y ← at mid
      (let right = bisect at fuel (mid + 1) top x in
          let left = bisect at fuel low mid x in
          if eq_ℤ y x then some (pos mid) else if ltb_ℤ y x then right else left)) in
    if ltb low top then turn else some (negsuc 0)

unfoldable pub binary_search : List ℤ → ℕ → ℤ → Option ℤ
binary_search a n x = bisect (read a) (n + 1) 0 n x

-- `mat[row][col]` with `row` and `col` of an index into the rows behind each other; the program divides by
-- the columns, so it needs one.
abbrev pub read_cell : List (List ℤ) → ℕ → ℕ → Option ℤ
read_cell mat cols i = do row ← read mat (i / cols); read row (i % cols)

unfoldable pub search_matrix : List (List ℤ) → ℕ → ℕ → ℤ → Option ℤ
search_matrix mat rows cols value =
    bisect (read_cell mat cols) (rows * cols + 1) 0 (rows * cols) value
