-- ===== src/Sorting.antt =====
-- c++/src/sorting.cpp: the sorts on an array of ints.
pub mod Order
pub mod Exchange
pub mod Insert
pub mod Select
pub mod Merging
pub mod Quick
pub mod Agree
mod Tests
use diversity.Prelude.Int.{ℤ}
use diversity.Prelude.Arrays.{read, write}
use diversity.Prelude.Int.{ltb_ℤ}
use diversity.Prelude.{ℕ, zero, suc, ◌+◌, ◌-◌, not, Option, some, List, ◌==◌, if◌then◌else◌, ◌>>=◌}

-- `swap(a[i], a[j])`
unfoldable pub swap : List ℤ → ℕ → ℕ → Option (List ℤ)
swap arr i j = do x ← read arr i; y ← read arr j; arr' ← write arr i y; write arr' j x

-- The inner loop with `k` turns left.
unfoldable pub bubble : ℕ → List ℤ → ℕ → ℕ → Option (List ℤ)
bubble zero arr i j = some arr
bubble (suc k) arr i j = do
  y ← read arr j
  x ← read arr i
  arr' ← if ltb_ℤ y x then swap arr i j else some arr
  bubble k arr' i (j + 1)

unfoldable pub bubble_from : ℕ → ℕ → List ℤ → ℕ → Option (List ℤ)
bubble_from zero n arr i = some arr
bubble_from (suc k) n arr i = do
  arr' ← bubble (n - (i + 1)) arr i (i + 1)
  bubble_from k n arr' (i + 1)

unfoldable pub bubble_sort : List ℤ → ℕ → Option (List ℤ)
bubble_sort arr n = bubble_from (n - 1) n arr 0

-- The loop on the hole, and the write into it.
unfoldable pub insert_at : ℕ → ℤ → List ℤ → Option (List ℤ)
insert_at zero v arr = write arr 0 v
insert_at (suc h) v arr = do
  y ← read arr h
  if ltb_ℤ v y then (write arr (h + 1) y >>= insert_at h v) else write arr (h + 1) v

unfoldable pub insert_from : ℕ → List ℤ → ℕ → Option (List ℤ)
insert_from zero arr i = some arr
insert_from (suc k) arr i = do v ← read arr i; arr' ← insert_at i v arr; insert_from k arr' (i + 1)

unfoldable pub insertion_sort : List ℤ → ℕ → Option (List ℤ)
insertion_sort arr n = insert_from (n - 1) arr 1

-- The loop on `j` with `k` turns left; the result is `min_index`.
unfoldable pub min_from : ℕ → List ℤ → ℕ → ℕ → Option ℕ
min_from zero arr j min_index = some min_index
min_from (suc k) arr j min_index = do
  y ← read arr j
  m ← read arr min_index
  min_from k arr (j + 1) (if ltb_ℤ y m then j else min_index)

unfoldable pub select_from : ℕ → ℕ → List ℤ → ℕ → Option (List ℤ)
select_from zero n arr i = some arr
select_from (suc k) n arr i = do
  min_index ← min_from (n - (i + 1)) arr (i + 1) i
  arr' ← if not (min_index == i) then swap arr min_index i else some arr
  select_from k n arr' (i + 1)

unfoldable pub selection_sort : List ℤ → ℕ → Option (List ℤ)
selection_sort arr n = select_from n n arr 0
