-- ===== src/MergeSort/Merge.antt =====
-- `merge` on two parts of the array.
use mathlib.Core.List.{Perm, perm_middle}
use mathlib.Core.List.Perm
use diversity.Prelude.Int.{ℤ, ◌≤ℤ◌, ltb_ℤ}
use diversity.Prelude.{
  ℕ, ◌+◌, ◌-◌, ◌≤◌, ◌≡◌, refl, sym, ap, ◌∙◌, inl, inr, true, false, some, List, [], ◌∷◌, ◌++◌,
  append-nil, append_assoc, arith, Bool-cases, length, set, length-append, take-append, drop-append,
}
use diversity.MergeSort.{copied, write_rest, merge_loop, merge}

-- The merge of two lists; of equal heads the second goes first.
pub merged : List ℤ → List ℤ → List ℤ
merged (x ∷ xs) (y ∷ ys) = elim (ltb_ℤ x y) [
  | true ↦ x ∷ merged xs (y ∷ ys)
  | false ↦ y ∷ merged (x ∷ xs) ys
]
merged (x ∷ xs) [] = x ∷ xs
merged [] ys = ys

merged_left :
    (x y : ℤ) (xs ys : List ℤ)
    → ltb_ℤ x y ≡ true
    → merged (x ∷ xs) (y ∷ ys) ≡ x ∷ merged xs (y ∷ ys)
unfolding merged
merged_left x y xs ys t = ground arith

merged_right :
    (x y : ℤ) (xs ys : List ℤ)
    → ltb_ℤ x y ≡ false
    → merged (x ∷ xs) (y ∷ ys) ≡ y ∷ merged (x ∷ xs) ys
unfolding merged
merged_right x y xs ys f = ground arith

merge_loop_left :
    (x y : ℤ) (xs ys : List ℤ) (idx : ℕ) (arr : List ℤ)
    → ltb_ℤ x y ≡ true
    → merge_loop (x ∷ xs) (y ∷ ys) idx arr ≡ merge_loop xs (y ∷ ys) (idx + 1) (set arr idx x)
unfolding merge_loop
merge_loop_left x y xs ys idx arr t = ground arith

merge_loop_right :
    (x y : ℤ) (xs ys : List ℤ) (idx : ℕ) (arr : List ℤ)
    → ltb_ℤ x y ≡ false
    → merge_loop (x ∷ xs) (y ∷ ys) idx arr ≡ merge_loop (x ∷ xs) ys (idx + 1) (set arr idx y)
unfolding merge_loop
merge_loop_right x y xs ys idx arr f = ground arith

set_middle :
    (before after : List ℤ) (o x : ℤ)
    → set (before ++ o ∷ after) (length before) x ≡ (before ++ x ∷ []) ++ after
set_middle [] after o x = refl
set_middle (b ∷ before) after o x = ap (◌∷◌ b) (set_middle before after o x)

-- A write behind `before`, which is then one longer.
advanced :
    (before old after : List ℤ) (o x : ℤ) (idx : ℕ)
    → idx ≡ length before
    → set (before ++ (o ∷ old ++ after)) idx x ≡ (before ++ x ∷ []) ++ (old ++ after)
advanced before old after o x idx i = rw i (set_middle before (old ++ after) o x)

next_index :
    (before : List ℤ) (x : ℤ) (idx : ℕ) → idx ≡ length before → idx + 1 ≡ length (before ++ x ∷ [])
next_index before x idx i = omega (arith, length-append {0} before (x ∷ []))

write_rest_lem :
    (xs before old after : List ℤ) (idx : ℕ)
    → idx ≡ length before
    → length old ≡ length xs
    → write_rest xs idx (before ++ (old ++ after)) ≡ before ++ (xs ++ after)
unfolding write_rest
write_rest_lem [] before [] after idx i h = refl
write_rest_lem [] before (o ∷ old) after idx i h = absurd (omega arith)
write_rest_lem (x ∷ xs) before [] after idx i h = absurd (omega arith)
write_rest_lem (x ∷ xs) before (o ∷ old) after idx i h =
    ap (write_rest xs (idx + 1)) (advanced before old after o x idx i)
    ∙ write_rest_lem xs (before ++ x ∷ []) old after (idx + 1) (next_index before x idx i)
        (omega arith)
    ∙ append_assoc before (x ∷ []) (xs ++ after)

merge_loop_lem :
    (left right before old after : List ℤ) (idx : ℕ)
    → idx ≡ length before
    → length old ≡ length left + length right
    → merge_loop left right idx (before ++ (old ++ after)) ≡ before ++ (merged left right ++ after)
unfolding merge_loop merged
merge_loop_lem [] ys before old after idx i h =
    write_rest_lem ys before old after idx i (omega arith)
merge_loop_lem (x ∷ xs) [] before old after idx i h =
    write_rest_lem (x ∷ xs) before old after idx i (omega arith)
merge_loop_lem (x ∷ xs) (y ∷ ys) before [] after idx i h = absurd (omega arith)
merge_loop_lem (x ∷ xs) (y ∷ ys) before (o ∷ old) after idx i h = elim (Bool-cases (ltb_ℤ x y)) [
  | inl t ↦
      merge_loop_left x y xs ys idx (before ++ (o ∷ old ++ after)) t
      ∙ ap (merge_loop xs (y ∷ ys) (idx + 1)) (advanced before old after o x idx i)
      ∙ merge_loop_lem xs (y ∷ ys) (before ++ x ∷ []) old after (idx + 1)
          (next_index before x idx i) (omega arith)
      ∙ append_assoc before (x ∷ []) (merged xs (y ∷ ys) ++ after)
      ∙ ap (λ l. before ++ (l ++ after)) (sym (merged_left x y xs ys t))
  | inr f ↦
      merge_loop_right x y xs ys idx (before ++ (o ∷ old ++ after)) f
      ∙ ap (merge_loop (x ∷ xs) ys (idx + 1)) (advanced before old after o y idx i)
      ∙ merge_loop_lem (x ∷ xs) ys (before ++ y ∷ []) old after (idx + 1)
          (next_index before y idx i) (omega arith)
      ∙ append_assoc before (y ∷ []) (merged (x ∷ xs) ys ++ after)
      ∙ ap (λ l. before ++ (l ++ after)) (sym (merged_right x y xs ys f))
]

pub merged-perm : (xs ys : List ℤ) → Perm (merged xs ys) (xs ++ ys)
unfolding merged
merged-perm [] ys = Perm.rfl
merged-perm (x ∷ xs) [] = rw (append-nil xs) Perm.rfl
merged-perm (x ∷ xs) (y ∷ ys) = elim (Bool-cases (ltb_ℤ x y)) [
  | inl t ↦ rw (merged_left x y xs ys t) (Perm.cons x (merged-perm xs (y ∷ ys)))
  | inr f ↦
      rw (merged_right x y xs ys f)
        (Perm.trans (Perm.cons y (merged-perm (x ∷ xs) ys)) (Perm.symm (perm_middle (x ∷ xs) ys)))
]

-- Each of `l` is at least `x`.
abbrev pub IsBelow : ℤ → List ℤ → Type 0
IsBelow x [] = Unit
IsBelow x (y ∷ l) = (x ≤ℤ y) × IsBelow x l

abbrev pub IsSorted : List ℤ → Type 0
IsSorted [] = Unit
IsSorted (x ∷ l) = IsBelow x l × IsSorted l

pub IsBelow-le : (x y : ℤ) (l : List ℤ) → x ≤ℤ y → IsBelow y l → IsBelow x l
IsBelow-le x y [] h b = tt
IsBelow-le x y (z ∷ l) h b = (omega (arith, b.0), IsBelow-le x y l h b.1)

IsBelow-merged : (z : ℤ) (xs ys : List ℤ) → IsBelow z xs → IsBelow z ys → IsBelow z (merged xs ys)
unfolding merged
IsBelow-merged z [] ys a b = b
IsBelow-merged z (x ∷ xs) [] a b = a
IsBelow-merged z (x ∷ xs) (y ∷ ys) a b = elim (Bool-cases (ltb_ℤ x y)) [
  | inl t ↦ rw (merged_left x y xs ys t) (a.0, IsBelow-merged z xs (y ∷ ys) a.1 b)
  | inr f ↦ rw (merged_right x y xs ys f) (b.0, IsBelow-merged z (x ∷ xs) ys a b.1)
]

pub below : (x y : ℤ) → ltb_ℤ x y ≡ true → x ≤ℤ y
below x y t = ground arith

pub not_below : (x y : ℤ) → ltb_ℤ x y ≡ false → y ≤ℤ x
not_below x y f = ground arith

pub merged-IsSorted : (xs ys : List ℤ) → IsSorted xs → IsSorted ys → IsSorted (merged xs ys)
unfolding merged
merged-IsSorted [] ys a b = b
merged-IsSorted (x ∷ xs) [] a b = a
merged-IsSorted (x ∷ xs) (y ∷ ys) a b = elim (Bool-cases (ltb_ℤ x y)) [
  | inl t ↦
      let le = below x y t in
      rw (merged_left x y xs ys t) (
        IsBelow-merged x xs (y ∷ ys) a.0 (le, IsBelow-le x y ys le b.0),
        merged-IsSorted xs (y ∷ ys) a.1 b,
      )
  | inr f ↦
      let le = not_below x y f in
      rw (merged_right x y xs ys f) (
        IsBelow-merged y (x ∷ xs) ys (le, IsBelow-le y x xs le a.0) b.0,
        merged-IsSorted (x ∷ xs) ys a b.1,
      )
]

copied_middle :
    (before part after : List ℤ) (from n : ℕ)
    → from ≡ length before
    → n ≡ length part
    → copied (before ++ (part ++ after)) from n ≡ some part
copied_middle before part after from n f h =
    rw (f, h)
      (ground (
        arith,
        length-append {0} before (part ++ after),
        length-append {0} part after,
        drop-append before (part ++ after),
        take-append part after,
      ))

-- `merge` on two parts that stand one behind the other leaves their merge in their place.
pub merge-merged :
    (before left right after : List ℤ) (l m r : ℕ)
    → l ≡ length before
    → l ≤ m
    → m + 1 ≡ l + length left
    → r ≡ m + length right
    → merge (before ++ ((left ++ right) ++ after)) l m r
      ≡ some (before ++ (merged left right ++ after))
unfolding merge
merge-merged before left right after l m r hl lm hm hr =
    let first = copied_middle before left (right ++ after) l (m - l + 1) hl (omega arith) in
    let second =
      copied_middle (before ++ left) right after (m + 1) (r - m)
        (omega (arith, length-append {0} before left)) (omega arith) in
    rw
      (
        append_assoc left right after,
        first,
        rw (append_assoc before left (right ++ after)) at second,
        ← append_assoc left right after,
      )
      (ap some (
        merge_loop_lem left right before (left ++ right) after l hl (length-append {0} left right)))
