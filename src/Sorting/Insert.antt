-- ===== src/Sorting/Insert.antt =====
-- `insertion_sort`: the elements before `i` are sorted, and the next is inserted.
use mathlib.Core.List.Perm
use diversity.MergeSort.Merge.{IsBelow, IsSorted}
use diversity.Prelude.Int.{ℤ}
use diversity.Prelude.Arrays.{read, write-middle}
use diversity.Prelude.Int.{ltb_ℤ}
use diversity.Prelude.Arrays.{write}
use diversity.Sorting.{insert_from, insertion_sort}
use diversity.Prelude.Arrays.{read-middle}
use diversity.Sorting.Order.{IsBelow-append}
use mathlib.Core.List.{Perm}
use diversity.MergeSort.Merge.{below}
use diversity.Sorting.Order.{inserted-IsSorted}
use diversity.Sorting.Order.{write-second}
use mathlib.Core.List.{perm_middle}
use diversity.Sorting.Order.{IsAbove-last}
use diversity.MergeSort.Merge.{not_below}
use diversity.Prelude.{
  ℕ, zero, suc, ◌+◌, ◌-◌, ◌≡◌, refl, sym, ap, ◌∙◌, subst, inl, inr, true, false, some, List, [],
  ◌∷◌, ◌++◌, append-nil, append_assoc, arith, Bool-cases, length, length-append,
}
use diversity.Sorting.{insert_at}
use diversity.Sorting.Order.{IsAbove}

-- A list of `h + 1` elements ends in one.
last_split :
    (xs : List ℤ) (h : ℕ)
    → length xs ≡ suc h
    → (ys : List ℤ) × (y : ℤ) × (xs ≡ ys ++ y ∷ []) × (length ys ≡ h)
last_split [] h e = absurd (omega (arith, e))
last_split (x ∷ []) zero e = ([], x, refl, refl)
last_split (x ∷ []) (suc h) e = absurd (omega (arith, e))
last_split (x ∷ y ∷ xs) zero e = absurd (omega (arith, e))
last_split (x ∷ y ∷ xs) (suc h) e =
    let (ys, z, e', l) = last_split (y ∷ xs) h (omega (arith, e)) in
    (x ∷ ys, z, ap (◌∷◌ x) e', ap suc l)

-- Where the loop leaves `v`, with the hole at the end of `xs` and `done'`, all above `v`, behind it.
abbrev Inserts : ℕ → ℤ → List ℤ → ℤ → List ℤ → Type 0
Inserts h v xs o rest =
    (ys : List ℤ) × (zs : List ℤ) × (xs ≡ ys ++ zs)
    × IsAbove v ys
    × IsBelow v zs
    × (insert_at h v (xs ++ o ∷ rest) ≡ some (ys ++ v ∷ (zs ++ rest)))

insert_shift :
    (h : ℕ) (v y : ℤ) (arr arr' : List ℤ)
    → read arr h ≡ some y
    → ltb_ℤ v y ≡ true
    → write arr (h + 1) y ≡ some arr'
    → insert_at (suc h) v arr ≡ insert_at h v arr'
unfolding insert_at
insert_shift h v y arr arr' r t w = rw (r, t, w)

insert_stop :
    (h : ℕ) (v y : ℤ) (arr : List ℤ)
    → read arr h ≡ some y
    → ltb_ℤ v y ≡ false
    → insert_at (suc h) v arr ≡ write arr (h + 1) v
unfolding insert_at
insert_stop h v y arr r f = rw (r, f)

IsBelow-init : (x : ℤ) (xs ys : List ℤ) → IsBelow x (xs ++ ys) → IsBelow x xs
IsBelow-init x [] ys b = tt
IsBelow-init x (y ∷ xs) ys b = (b.0, IsBelow-init x xs ys b.1)

IsSorted-init : (xs ys : List ℤ) → IsSorted (xs ++ ys) → IsSorted xs
IsSorted-init [] ys s = tt
IsSorted-init (x ∷ xs) ys s = (IsBelow-init x xs ys s.0, IsSorted-init xs ys s.1)

-- The element `y` before the hole.
last-Inserts :
    (h : ℕ) (v : ℤ) (ys : List ℤ) (y o : ℤ) (rest : List ℤ)
    → h ≡ length ys
    → IsSorted (ys ++ y ∷ [])
    → Inserts h v ys y (y ∷ rest)
    → Inserts (suc h) v (ys ++ y ∷ []) o rest
last-Inserts h v ys y o rest hh s (as', bs, e, above, under, ins) =
    let split = append_assoc ys (y ∷ []) (o ∷ rest) in
    let r = read-middle ys (o ∷ rest) y h hh in
    let hj : h + 1 ≡ h + 1 + length {A = ℤ} [] = omega arith in
    elim (Bool-cases (ltb_ℤ v y)) [
      | inl t ↦ (
        as',
        bs ++ y ∷ [],
        ap (λ l. l ++ y ∷ []) e ∙ append_assoc as' bs (y ∷ []),
        above,
        IsBelow-append v bs (y ∷ []) under (below v y t, tt),
        ap (insert_at (suc h) v) split
            ∙ insert_shift h v y (ys ++ y ∷ o ∷ rest) (ys ++ y ∷ y ∷ rest) r t
                (write-second ys [] rest y o h (h + 1) hh hj y y)
            ∙ ins
            ∙ ap (λ l. some (as' ++ v ∷ l)) (sym (append_assoc bs (y ∷ []) rest)),
      )
      | inr f ↦ (
        ys ++ y ∷ [],
        [],
        sym (append-nil (ys ++ y ∷ [])),
        IsAbove-last ys y v s (not_below v y f),
        tt,
        ap (insert_at (suc h) v) split
            ∙ insert_stop h v y (ys ++ y ∷ o ∷ rest) r f
            ∙ write-second ys [] rest y o h (h + 1) hh hj y v
            ∙ ap some (sym (append_assoc ys (y ∷ []) (v ∷ rest))),
      )
    ]

inserts :
    (h : ℕ) (v : ℤ) (xs : List ℤ) (o : ℤ) (rest : List ℤ)
    → h ≡ length xs
    → IsSorted xs
    → Inserts h v xs o rest
unfolding insert_at
inserts zero v [] o rest hh s = ([], [], refl, tt, tt, write-middle [] rest o v 0 refl)
inserts zero v (x ∷ xs) o rest hh s = absurd (omega (arith, hh))
inserts (suc h) v xs o rest hh s =
    let (ys, y, e, l) = last_split xs h (sym hh) in
    let motive = λ (zs : List ℤ). IsSorted zs → Inserts (suc h) v zs o rest in
    subst motive (sym e)
      (λ s'.
        last-Inserts h v ys y o rest (sym l) s'
          (inserts h v ys y (y ∷ rest) (sym l) (IsSorted-init ys (y ∷ []) s')))
      s

insert_from_step :
    (k i : ℕ) (v : ℤ) (arr arr' : List ℤ)
    → read arr i ≡ some v
    → insert_at i v arr ≡ some arr'
    → insert_from (suc k) arr i ≡ insert_from k arr' (i + 1)
unfolding insert_from
insert_from_step k i v arr arr' r e = rw (r, e)

insert_from-IsSorted :
    (k i : ℕ) (xs part after : List ℤ)
    → i ≡ length xs
    → k ≡ length part
    → IsSorted xs
    → (part' : List ℤ) × (insert_from k (xs ++ (part ++ after)) i ≡ some (part' ++ after))
      × IsSorted part'
      × Perm part' (xs ++ part)
unfolding insert_from
insert_from-IsSorted zero i xs [] after hi hk s = (xs, refl, s, rw (append-nil xs) Perm.rfl)
insert_from-IsSorted zero i xs (v ∷ part) after hi hk s = absurd (omega (arith, hk))
insert_from-IsSorted (suc k) i xs [] after hi hk s = absurd (omega (arith, hk))
insert_from-IsSorted (suc k) i xs (v ∷ part) after hi hk s =
    let (ys, zs, e, above, under, ins) = inserts i v xs v (part ++ after) hi s in
    let n : i + 1 ≡ length (ys ++ v ∷ zs) =
      omega (arith, hi, ap length e, length-append {0} ys zs, length-append {0} ys (v ∷ zs)) in
    let (part', e', s', p) =
      insert_from-IsSorted k (i + 1) (ys ++ v ∷ zs) part after n (omega (arith, hk))
        (inserted-IsSorted ys zs v (subst IsSorted e s) above under) in
    (
      part',
      insert_from_step k i v (xs ++ v ∷ (part ++ after)) (ys ++ v ∷ (zs ++ (part ++ after)))
            (read-middle xs (part ++ after) v i hi) ins
          ∙ ap (λ a. insert_from k a (i + 1)) (sym (append_assoc ys (v ∷ zs) (part ++ after)))
          ∙ e',
      s',
      Perm.trans p (
          Perm.trans (Perm.append_right part (perm_middle ys zs)) (
            subst (λ l. Perm (v ∷ (l ++ part)) (xs ++ v ∷ part)) e
              (Perm.symm (perm_middle xs part)))),
    )

-- insertion_sort on the first `n` elements of an array returns with no access outside the array: these elements are
-- then sorted, in ascending order, with the values they had, and the others are as they were.
pub insertion_sort-IsSorted :
    (part after : List ℤ)
    → (part' : List ℤ) × (insertion_sort (part ++ after) (length part) ≡ some (part' ++ after))
      × IsSorted part'
      × Perm part' part
unfolding insertion_sort insert_from
insertion_sort-IsSorted [] after = ([], refl, tt, Perm.rfl)
insertion_sort-IsSorted (x ∷ part) after =
    insert_from-IsSorted (length (x ∷ part) - 1) 1 (x ∷ []) part after refl (omega arith) (tt, tt)
