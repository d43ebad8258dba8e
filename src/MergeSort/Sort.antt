-- ===== src/MergeSort/Sort.antt =====
-- `mergeSort` on a part of the array, and `main`.
use mathlib.Core.Logic.{∥∥₁_elim}
use mathlib.Core.List.{Perm, Permᴰ}
use mathlib.Core.List.Perm
use native.Mathlib.Nat.{ℕ_set}
use diversity.Prelude.Int.{ℤ}
use diversity.Net.Numbers.{atoi}
use diversity.Prelude.{
  ℕ, zero, suc, ◌+◌, ◌-◌, ◌/◌, ◌≤◌, ◌<◌, ◌≡◌, refl, sym, ap, ◌∙◌, subst, inl, inr, true, false,
  some, List, [], ◌∷◌, ◌++◌, append-nil, append_assoc, arith, leb, Bool-cases, >>=-eq-some, length,
  take, drop, length-append, length-take, length-drop, take-append-drop, Bytes,
}
use diversity.MergeSort.{merge, merge_sort, read_array, main}
use diversity.MergeSort.Merge.{merged, merged-perm, IsSorted, merged-IsSorted, merge-merged}

Permᴰ-length : {xs ys : List ℤ} → Permᴰ xs ys → length xs ≡ length ys
Permᴰ-length Permᴰ.nil = refl
Permᴰ-length (Permᴰ.cons x p) = ap suc (Permᴰ-length p)
Permᴰ-length (Permᴰ.swap x y) = refl
Permᴰ-length (Permᴰ.trans p q) = Permᴰ-length p ∙ Permᴰ-length q

pub length-perm : {xs ys : List ℤ} → Perm xs ys → length xs ≡ length ys
length-perm p = ∥∥₁_elim p (ℕ_set _ _) Permᴰ-length

short-IsSorted : (xs : List ℤ) → length xs ≤ 1 → IsSorted xs
short-IsSorted [] h = tt
short-IsSorted (x ∷ []) h = (tt, tt)
short-IsSorted (x ∷ y ∷ xs) h = absurd (omega arith)

le_of_leb : (r l : ℕ) → leb r l ≡ true → r ≤ l
le_of_leb r l h = ground arith

lt_of_leb : (r l : ℕ) → leb r l ≡ false → l < r
lt_of_leb r l h = ground arith

merge_sort_step :
    (fuel k l r : ℕ) (arr a b : List ℤ)
    → k ≡ (r - l) / 2
    → leb r l ≡ false
    → merge_sort fuel arr l (l + k) ≡ some a
    → merge_sort fuel a (l + k + 1) r ≡ some b
    → merge_sort (suc fuel) arr l r ≡ merge b l (l + k) r
unfolding merge_sort
merge_sort_step fuel k l r arr a b hk f first second = rw (f, ← hk, first, second)

merge_sort_stop :
    (fuel l r : ℕ) (arr : List ℤ) → leb r l ≡ true → merge_sort (suc fuel) arr l r ≡ some arr
unfolding merge_sort
merge_sort_stop fuel l r arr t = rw t

-- What a call with the bounds of `part` does.
abbrev Sorts : ℕ → List ℤ → List ℤ → List ℤ → ℕ → ℕ → Type 0
Sorts fuel before part after l r =
    (part' : List ℤ) × (merge_sort fuel (before ++ (part ++ after)) l r
      ≡ some (before ++ (part' ++ after)))
    × IsSorted part'
    × Perm part' part

-- Four lists behind each other, bracketed as the calls leave them.
regrouped : (a b c d : List ℤ) → (a ++ b) ++ (c ++ d) ≡ a ++ ((b ++ c) ++ d)
regrouped a b c d = append_assoc a b (c ++ d) ∙ ap (◌++◌ a) (sym (append_assoc b c d))

halved :
    (k : ℕ) (before part after : List ℤ)
    → before ++ (part ++ after) ≡ before ++ (take k part ++ (drop k part ++ after))
halved k before part after = ap (◌++◌ before) (
    ap (λ p. p ++ after) (sym (take-append-drop k part))
    ∙ append_assoc (take k part) (drop k part) after)

-- The two halves sorted, and merged.
halves-Sorts :
    (fuel k l r : ℕ) (before part after : List ℤ)
    → k ≡ (r - l) / 2
    → l < r
    → leb r l ≡ false
    → l ≡ length before
    → r + 1 ≡ l + length part
    → Sorts fuel before (take (k + 1) part) (drop (k + 1) part ++ after) l (l + k)
    → ((left : List ℤ)
        → length left ≡ k + 1
        → Sorts fuel (before ++ left) (drop (k + 1) part) after (l + k + 1) r)
    → Sorts (suc fuel) before part after l r
halves-Sorts fuel k l r before part after hk lt f hl hr (left, e1, s1, p1) second =
    let n1 : length left ≡ k + 1 = length-perm p1 ∙ omega (arith, length-take (k + 1) part) in
    let (right, e2, s2, p2) = second left n1 in
    let n2 : length right ≡ length part - (k + 1) = length-perm p2 ∙ length-drop (k + 1) part in
    let whole : take (k + 1) part ++ drop (k + 1) part ≡ part = take-append-drop (k + 1) part in
    (
      merged left right,
      ap (λ q. merge_sort (suc fuel) q l r) (halved (k + 1) before part after)
          ∙ merge_sort_step fuel k l r
              (before ++ (take (k + 1) part ++ (drop (k + 1) part ++ after)))
              (before ++ (left ++ (drop (k + 1) part ++ after)))
              ((before ++ left) ++ (right ++ after)) hk f e1
              (ap (λ q. merge_sort fuel q (l + k + 1) r)
                  (sym (append_assoc before left (drop (k + 1) part ++ after)))
                ∙ e2)
          ∙ ap (λ q. merge q l (l + k) r) (regrouped before left right after)
          ∙ merge-merged before left right after l (l + k) r hl (omega arith) (omega arith)
              (omega arith),
      merged-IsSorted left right s1 s2,
      subst (Perm (merged left right)) whole
          (Perm.trans (merged-perm left right) (Perm.append p1 p2)),
    )

sorts :
    (fuel : ℕ) (before part after : List ℤ) (l r : ℕ)
    → l ≡ length before
    → r + 1 ≡ l + length part
    → 0 < length part
    → length part ≤ fuel
    → Sorts fuel before part after l r
sorts zero before part after l r hl hr pos' enough = absurd (omega arith)
sorts (suc fuel) before part after l r hl hr pos' enough = elim (Bool-cases (leb r l)) [
  | inl t ↦ (
    part,
    merge_sort_stop fuel l r (before ++ (part ++ after)) t,
    short-IsSorted part (omega (arith, le_of_leb r l t)),
    Perm.refl part,
  )
  | inr f ↦
      let lt = lt_of_leb r l f in
      let k = (r - l) / 2 in
      let n1 : length (take (k + 1) part) ≡ k + 1 = omega (arith, length-take (k + 1) part) in
      let n2 = length-drop (k + 1) part in
      halves-Sorts fuel k l r before part after refl lt f hl hr
        (sorts fuel before (take (k + 1) part) (drop (k + 1) part ++ after) l (l + k) hl
          (omega arith) (omega arith) (omega arith))
        (λ left n.
          sorts fuel (before ++ left) (drop (k + 1) part) after (l + k + 1) r
            (omega (arith, length-append {0} before left)) (omega arith) (omega arith)
            (omega arith))
]

-- Called with the bounds of a part of the array that is not empty, with as much fuel as the part is long,
-- mergeSort returns: the part is then sorted, in ascending order and with the values it had, and
-- the rest of the array is as it was. No access is outside the array.
pub merge_sort-IsSorted :
    (before part after : List ℤ)
    → 0 < length part
    → (part' : List ℤ) × (merge_sort
          (length part)
          (before ++ (part ++ after))
          (length before)
          (length before + length part - 1)
        ≡ some (before ++ (part' ++ after)))
      × IsSorted part'
      × Perm part' part
merge_sort-IsSorted before part after h =
    sorts (length part) before part after (length before) (length before + length part - 1) refl
      (omega arith) h (omega arith)

read_array-length :
    (args : List Bytes) (arr : List ℤ) → read_array args ≡ some arr → length arr ≡ length args
unfolding read_array
read_array-length [] arr h = ground arith
read_array-length (a ∷ args) arr h =
    let (n, e, h') = >>=-eq-some (atoi a) h in
    let (rest, e', h'') = >>=-eq-some (read_array args) h' in
    ground (arith, read_array-length args rest e')

-- For arguments that are numbers that fit an int, the program prints them in ascending order, each as often
-- as it was given.
pub main-IsSorted :
    (args : List Bytes) (arr : List ℤ)
    → read_array args ≡ some arr
    → (sorted : List ℤ) × (main args ≡ some sorted) × IsSorted sorted × Perm sorted arr
unfolding main
main-IsSorted [] [] h = ([], refl, tt, Perm.refl [])
main-IsSorted [] (x ∷ arr) h = absurd (omega (arith, read_array-length [] (x ∷ arr) h))
main-IsSorted (a ∷ args) arr h =
    let (sorted, e, s, p) =
      merge_sort-IsSorted [] arr [] (omega (arith, read_array-length (a ∷ args) arr h)) in
    let e' = rw (append-nil arr, append-nil sorted) at e in
    (
      sorted,
      rw h (ap (merge_sort (length arr) arr 0) {y = 0 + length arr - 1} (omega arith) ∙ e'),
      s,
      p,
    )
