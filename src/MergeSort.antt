-- ===== src/MergeSort.antt =====
-- sorts/mergeSort.c: the array is a list of ints, and an index that only moves forward through `left` or `right` is the
-- part that is left. `none` is an access outside the array, or fuel that ran out.
pub mod Merge
pub mod Sort
mod Tests
use diversity.Prelude.Int.{ℤ, ltb_ℤ}
use diversity.Prelude.{
  ℕ, zero, suc, ◌+◌, ◌-◌, ◌/◌, true, false, Option, none, some, List, [], ◌∷◌, leb, if◌then◌else◌,
  ◌>>=◌, length, set, take, drop, Bytes,
}
use diversity.Net.Numbers.{atoi}

-- The loops that fill `left` and `right`.
abbrev pub copied : List ℤ → ℕ → ℕ → Option (List ℤ)
copied arr from n = if leb (from + n) (length arr) then some (take n (drop from arr)) else none

-- The last two loops.
unfoldable pub write_rest : List ℤ → ℕ → List ℤ → List ℤ
write_rest [] idx arr = arr
write_rest (x ∷ xs) idx arr = write_rest xs (idx + 1) (set arr idx x)

unfoldable pub merge_loop : List ℤ → List ℤ → ℕ → List ℤ → List ℤ
merge_loop (x ∷ left) (y ∷ right) idx arr = elim (ltb_ℤ x y) [
  | true ↦ merge_loop left (y ∷ right) (idx + 1) (set arr idx x)
  | false ↦ merge_loop (x ∷ left) right (idx + 1) (set arr idx y)
]
merge_loop (x ∷ left) [] idx arr = write_rest (x ∷ left) idx arr
merge_loop [] right idx arr = write_rest right idx arr

-- `arr[idx]` runs from `l` to `r`, where the copies were read.
unfoldable pub merge : List ℤ → ℕ → ℕ → ℕ → Option (List ℤ)
merge arr l m r = do
  left ← copied arr l (m - l + 1)
  right ← copied arr (m + 1) (r - m)
  some (merge_loop left right l arr)

-- The depth of the recursion is bounded by the fuel.
unfoldable pub merge_sort : ℕ → List ℤ → ℕ → ℕ → Option (List ℤ)
merge_sort zero arr l r = none
merge_sort (suc fuel) arr l r =
    let m = l + (r - l) / 2 in
    let sorted =
      merge_sort fuel arr l m >>= λ a. merge_sort fuel a (m + 1) r >>= λ b. merge b l m r in
    if leb r l then some arr else sorted

-- The array that `main` fills.
unfoldable pub read_array : List Bytes → Option (List ℤ)
read_array [] = some []
read_array (a ∷ args) = do n ← atoi a; rest ← read_array args; some (n ∷ rest)

-- On `argv[1]` and those behind it; with none, `r` is -1 and below `l`.
unfoldable pub main : List Bytes → Option (List ℤ)
main [] = some []
main (a ∷ args) = do arr ← read_array (a ∷ args); merge_sort (length arr) arr 0 (length arr - 1)
