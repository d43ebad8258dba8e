-- ===== src/Duplication.antt =====
-- binaryTree/Duplication.cpp: a search for two equal elements that puts elements at their own indices. `none` is an access outside the array.
pub mod Twice
mod Tests
use diversity.Prelude.Int.{ℤ}
use diversity.Prelude.Int.{pos}
use diversity.Prelude.Int.{negsuc}
use diversity.Prelude.{
  ℕ, zero, suc, ◌+◌, Bool, true, false, Option, none, some, List, if◌then◌else◌, ◌>>=◌,
}
use diversity.Prelude.Arrays.{read, write}
use diversity.Searching.{eq_ℤ}

-- `arr[i]` with an int as index
abbrev pub read_int : List ℤ → ℤ → Option ℤ
read_int arr (pos i) = read arr i
read_int arr (negsuc i) = none

abbrev pub write_int : List ℤ → ℤ → ℤ → Option (List ℤ)
write_int arr (pos i) v = write arr i v
write_int arr (negsuc i) v = none

-- `swap(arr[i], arr[arr[i]])`, where both references are taken first.
unfoldable pub swap : List ℤ → ℕ → Option (List ℤ)
swap arr i = do m ← read arr i; temp ← read_int arr m; arr' ← write_int arr m m; write arr' i temp

-- The loop from `i` on, with `k` turns left.
unfoldable pub find_from : ℕ → List ℤ → ℕ → Option Bool
find_from zero arr i = some false
find_from (suc k) arr i = do
  m ← read arr i
  (let other = (do
    v ← read_int arr m
    (let swapped = swap arr i >>= λ arr'. find_from k arr' (i + 1) in
        if eq_ℤ v m then some true else swapped)) in
      let rest = find_from k arr (i + 1) in if eq_ℤ m (pos i) then rest else other)

unfoldable pub find_duplication : List ℤ → ℕ → Option Bool
find_duplication arr n = find_from n arr 0
