-- ===== src/Sorting/Tests.antt =====
-- The sorts on concrete arrays, and the theorems there.
use mathlib.Core.List.{Perm}
use diversity.MergeSort.Merge.{IsSorted}
use diversity.Prelude.Int.{negsuc, ℤ}
use diversity.Prelude.Int.{pos}
use diversity.Sorting.Agree.{sorts_agree}
use diversity.Prelude.{◌-◌, ◌≡◌, refl, none, some, List, [], ◌∷◌, ◌++◌, arith, length}
use diversity.Sorting.{
  swap, bubble, bubble_from, bubble_sort, insert_at, insert_from, insertion_sort, min_from,
  select_from, selection_sort,
}
use diversity.Sorting.Quick.{quick_sort, quick_sort-none}
use diversity.Sorting.Merging.{Outcome, merge_into, merge, copy_back, merged_back, merge_sort}
use diversity.Sorting.Merging.Fault.{merge_sort-fault}

abbrev three : List ℤ
three = pos 14 ∷ negsuc 2 ∷ pos 10 ∷ []

abbrev rest : List ℤ
rest = pos 1 ∷ []

abbrev five : List ℤ
five = pos 5 ∷ pos 4 ∷ pos 3 ∷ pos 2 ∷ pos 1 ∷ []

abbrev sorted_three : List ℤ
sorted_three = negsuc 2 ∷ pos 10 ∷ pos 14 ∷ pos 1 ∷ []

bubble_three : bubble_sort (three ++ rest) 3 ≡ some sorted_three
unfolding bubble_sort bubble_from bubble swap
bubble_three = refl

insertion_three : insertion_sort (three ++ rest) 3 ≡ some sorted_three
unfolding insertion_sort insert_from insert_at
insertion_three = refl

selection_three : selection_sort (three ++ rest) 3 ≡ some sorted_three
unfolding selection_sort select_from min_from swap
selection_three = refl

merge_three : merge_sort 3 three 0 2 ≡ Outcome.done (negsuc 2 ∷ pos 10 ∷ pos 14 ∷ [])
unfolding merge_sort merged_back merge merge_into copy_back
merge_three = refl

sorts_agree_example :
    (part' : List ℤ) × (bubble_sort (three ++ rest) (length three) ≡ some (part' ++ rest))
    × (insertion_sort (three ++ rest) (length three) ≡ some (part' ++ rest))
    × (selection_sort (three ++ rest) (length three) ≡ some (part' ++ rest))
    × IsSorted part'
    × Perm part' three
sorts_agree_example = sorts_agree three rest

merge_sort-fault_example : merge_sort 5 five 0 (5 - 1) ≡ Outcome.fault
merge_sort-fault_example = merge_sort-fault 5 5 five (omega arith) (omega arith)

quick_sort-none_example : quick_sort 7 five 0 4 ≡ none
quick_sort-none_example = quick_sort-none 7 five 0 4 (omega arith)
