-- ===== src/Sorting/Agree.antt =====
-- The three quadratic sorts together.
use mathlib.Core.List.{Perm}
use mathlib.Core.List.Perm
use diversity.MergeSort.Merge.{IsSorted}
use diversity.MergeSort.Sort.{length-perm}
use diversity.Prelude.Int.{pos, negsuc, ℤ}
use diversity.Prelude.Int.{◌≤ℤ◌}
use diversity.Prelude.{◌≡◌, refl, ap, ap₂, ◌∙◌, subst, some, List, [], ◌∷◌, ◌++◌, arith, length}
use diversity.Sorting.{bubble_sort, insertion_sort, selection_sort}
use diversity.Sorting.Order.{IsBelow-perm}
use diversity.Sorting.Exchange.{bubble_sort-IsSorted}
use diversity.Sorting.Insert.{insertion_sort-IsSorted}
use diversity.Sorting.Select.{selection_sort-IsSorted}

antisym : (x y : ℤ) → x ≤ℤ y → y ≤ℤ x → x ≡ y
antisym (pos m) (pos n) a b = ap pos (omega (arith, a, b))
antisym (pos m) (negsuc n) a b = absurd (omega (arith, a))
antisym (negsuc m) (pos n) a b = absurd (omega (arith, b))
antisym (negsuc m) (negsuc n) a b = ap negsuc (omega (arith, a, b))

-- A list has one sorted order.
sorted_unique : (xs ys : List ℤ) → IsSorted xs → IsSorted ys → Perm xs ys → xs ≡ ys
sorted_unique [] [] a b p = refl
sorted_unique [] (y ∷ ys) a b p = absurd (omega (arith, length-perm p))
sorted_unique (x ∷ xs) [] a b p = absurd (omega (arith, length-perm p))
sorted_unique (x ∷ xs) (y ∷ ys) a b p =
    let x_le = (IsBelow-perm {xs = x ∷ xs} {ys = y ∷ ys} x p (omega arith, a.0)).0 in
    let y_le = (IsBelow-perm {xs = y ∷ ys} {ys = x ∷ xs} y (Perm.symm p) (omega arith, b.0)).0 in
    let e = antisym x y x_le y_le in
    let p' : Perm (y ∷ xs) (y ∷ ys) = subst (λ z. Perm (z ∷ xs) (y ∷ ys)) e p in
    ap₂ (λ u us. u ∷ us) {x = x} {y = y} {u = xs} {v = ys} e
      (sorted_unique xs ys a.1 b.1 (Perm.cons_inv p'))

-- bubble_sort, insertion_sort and selection_sort on the first `n` elements of an array return, with no access outside the
-- array, and leave the same array: these elements are sorted, in ascending order, with the values they had, and the
-- others are as they were.
pub sorts_agree :
    (part after : List ℤ)
    → (part' : List ℤ) × (bubble_sort (part ++ after) (length part) ≡ some (part' ++ after))
      × (insertion_sort (part ++ after) (length part) ≡ some (part' ++ after))
      × (selection_sort (part ++ after) (length part) ≡ some (part' ++ after))
      × IsSorted part'
      × Perm part' part
sorts_agree part after =
    let (b, eb, sb, pb) = bubble_sort-IsSorted part after in
    let (i, ei, si, pi) = insertion_sort-IsSorted part after in
    let (s, es, ss, ps) = selection_sort-IsSorted part after in
    let same_i : i ≡ b = sorted_unique i b si sb (Perm.trans pi (Perm.symm pb)) in
    let same_s : s ≡ b = sorted_unique s b ss sb (Perm.trans ps (Perm.symm pb)) in
    (
      b,
      eb,
      ei ∙ ap (λ l. some (l ++ after)) same_i,
      es ∙ ap (λ l. some (l ++ after)) same_s,
      sb,
      pb,
    )
