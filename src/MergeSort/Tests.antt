-- ===== src/MergeSort/Tests.antt =====
-- The program on concrete arguments, and the theorems there.
use mathlib.Core.List.{Perm}
use diversity.Prelude.Int.{ℤ, pos, negsuc}
use diversity.Prelude.{◌≡◌, refl, some, List, [], ◌∷◌, Bytes, codes}
use diversity.Net.Numbers.{atoi}
use diversity.MergeSort.{write_rest, merge_loop, merge, merge_sort, read_array, main}
use diversity.MergeSort.Merge.{IsSorted}
use diversity.MergeSort.Sort.{main-IsSorted}

abbrev three : List Bytes
three = codes "12" ∷ codes "-7" ∷ codes "5" ∷ []

abbrev three_ints : List ℤ
three_ints = pos 12 ∷ negsuc 6 ∷ pos 5 ∷ []

three_read : read_array three ≡ some three_ints
unfolding read_array atoi
three_read = refl

three_sorted : main three ≡ some (negsuc 6 ∷ pos 5 ∷ pos 12 ∷ [])
unfolding main merge_sort merge merge_loop write_rest read_array atoi
three_sorted = refl

main-IsSorted_example :
    (sorted : List ℤ) × (main three ≡ some sorted) × IsSorted sorted × Perm sorted three_ints
main-IsSorted_example = main-IsSorted three three_ints three_read
