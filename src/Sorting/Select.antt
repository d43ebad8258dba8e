-- ===== src/Sorting/Select.antt =====
-- `selection_sort`: each turn takes the least of the rest to `i`.
use mathlib.Core.List.Perm
use diversity.MergeSort.Merge.{IsBelow, below, not_below, IsBelow-le}
use diversity.Prelude.Int.{ℤ}
use diversity.Prelude.Int.{ltb_ℤ}
use diversity.Prelude.Arrays.{read}
use diversity.Prelude.Arrays.{read-middle}
use diversity.Sorting.{swap, selection_sort, select_from}
use mathlib.Core.List.{Perm}
use diversity.Sorting.Order.{swap-back}
use diversity.MergeSort.Merge.{IsSorted}
use diversity.MergeSort.Sort.{length-perm}
use mathlib.Core.List.{perm_middle}
use diversity.Sorting.Order.{IsBelow-perm}
use diversity.Sorting.Order.{Sorts}
use diversity.Sorting.Order.{pass-Sorts}
use diversity.Prelude.{
  ℕ, zero, suc, ◌+◌, ◌-◌, ◌<◌, ◌≡◌, refl, sym, ap, ◌∙◌, subst, inl, inr, true, false, not, Option,
  some, List, [], ◌∷◌, ◌++◌, append-nil, append_assoc, arith, ◌==◌, if◌then◌else◌, ==_self,
  Bool-cases, length, length-append,
}
use diversity.Sorting.{min_from}
use diversity.Sorting.Order.{IsBelow-append}

read_at :
    (arr before after : List ℤ) (x : ℤ) (i : ℕ)
    → arr ≡ before ++ x ∷ after
    → i ≡ length before
    → read arr i ≡ some x
read_at arr before after x i e h = ap (λ a. read a i) e ∙ read-middle before after x i h

min_from_less :
    (k : ℕ) (arr : List ℤ) (j p : ℕ) (y m : ℤ)
    → read arr j ≡ some y
    → read arr p ≡ some m
    → ltb_ℤ y m ≡ true
    → min_from (suc k) arr j p ≡ min_from k arr (j + 1) j
unfolding min_from
min_from_less k arr j p y m ry rm t = rw (ry, rm, t)

min_from_keep :
    (k : ℕ) (arr : List ℤ) (j p : ℕ) (y m : ℤ)
    → read arr j ≡ some y
    → read arr p ≡ some m
    → ltb_ℤ y m ≡ false
    → min_from (suc k) arr j p ≡ min_from k arr (j + 1) p
unfolding min_from
min_from_keep k arr j p y m ry rm f = rw (ry, rm, f)

-- The least element of `seen ++ rest`, and where the loop finds it.
abbrev Least : ℕ → List ℤ → List ℤ → List ℤ → ℕ → ℕ → Type 0
Least k arr before whole j p =
    (q1 : List ℤ) × (m : ℤ) × (q2 : List ℤ) × (whole ≡ q1 ++ m ∷ q2)
    × IsBelow m whole
    × (min_from k arr j p ≡ some (length before + length q1))

least :
    (k : ℕ) (arr before p1 p2 rest after : List ℤ) (m : ℤ) (j p : ℕ)
    → k ≡ length rest
    → arr ≡ before ++ ((p1 ++ m ∷ p2) ++ (rest ++ after))
    → j ≡ length before + length (p1 ++ m ∷ p2)
    → p ≡ length before + length p1
    → IsBelow m (p1 ++ m ∷ p2)
    → Least k arr before ((p1 ++ m ∷ p2) ++ rest) j p
unfolding min_from
least zero arr before p1 p2 [] after m j p hk e hj hp b =
    (p1, m, p2, append-nil (p1 ++ m ∷ p2), rw (append-nil (p1 ++ m ∷ p2)) b, ap some hp)
least zero arr before p1 p2 (y ∷ rest) after m j p hk e hj hp b = absurd (omega (arith, hk))
least (suc k) arr before p1 p2 [] after m j p hk e hj hp b = absurd (omega (arith, hk))
least (suc k) arr before p1 p2 (y ∷ rest) after m j p hk e hj hp b =
    let seen = p1 ++ m ∷ p2 in
    let ry =
      read_at arr (before ++ seen) (rest ++ after) y j
        (e ∙ sym (append_assoc before seen (y ∷ (rest ++ after))))
        (hj ∙ sym (length-append {0} before seen)) in
    let rm =
      read_at arr (before ++ p1) (p2 ++ y ∷ (rest ++ after)) m p
        (e
          ∙ ap (◌++◌ before) (append_assoc p1 (m ∷ p2) (y ∷ (rest ++ after)))
          ∙ sym (append_assoc before p1 (m ∷ (p2 ++ y ∷ (rest ++ after)))))
        (hp ∙ sym (length-append {0} before p1)) in
    let longer : length (seen ++ y ∷ []) ≡ length seen + 1 = length-append {0} seen (y ∷ []) in
    let split : seen ++ y ∷ rest ≡ (seen ++ y ∷ []) ++ rest =
      sym (append_assoc seen (y ∷ []) rest) in
    let split' : arr ≡ before ++ ((seen ++ y ∷ []) ++ (rest ++ after)) =
      e ∙ ap (◌++◌ before) (sym (append_assoc seen (y ∷ []) (rest ++ after))) in
    elim (Bool-cases (ltb_ℤ y m)) [
      | inl t ↦
          let le = below y m t in
          let (q1, m', q2, e1, b1, r) =
            least k arr before seen [] rest after y (j + 1) j (omega (arith, hk)) split'
              (omega (arith, hj, longer)) hj
              (IsBelow-append y seen (y ∷ []) (IsBelow-le y m seen le b) (omega arith, tt)) in
          (
            q1,
            m',
            q2,
            split ∙ e1,
            subst (IsBelow m') (sym split) b1,
            min_from_less k arr j p y m ry rm t ∙ r,
          )
      | inr f ↦
          let regroup : seen ++ y ∷ [] ≡ p1 ++ m ∷ (p2 ++ y ∷ []) =
            append_assoc p1 (m ∷ p2) (y ∷ []) in
          let (q1, m', q2, e1, b1, r) =
            least k arr before p1 (p2 ++ y ∷ []) rest after m (j + 1) p (omega (arith, hk))
              (split' ∙ ap (λ l. before ++ (l ++ (rest ++ after))) regroup)
              (omega (arith, hj, longer, ap length regroup)) hp
              (subst (IsBelow m) regroup
                (IsBelow-append m seen (y ∷ []) b (not_below y m f, tt))) in
          let split2 = split ∙ ap (λ l. l ++ rest) regroup in
          (
            q1,
            m',
            q2,
            split2 ∙ e1,
            subst (IsBelow m') (sym split2) b1,
            min_from_keep k arr j p y m ry rm f ∙ r,
          )
    ]

exchange : List ℤ → ℕ → ℕ → Option (List ℤ)
exchange arr p i = if not (p == i) then swap arr p i else some arr

exchange_same : (arr : List ℤ) (p i : ℕ) → p ≡ i → exchange arr p i ≡ some arr
unfolding exchange
exchange_same arr p i h = rw (h, ==_self i) refl

exchange_other : (arr : List ℤ) (p i : ℕ) → i < p → exchange arr p i ≡ swap arr p i
unfolding exchange
exchange_other arr p i h = rw (differ p i h) refl
  where
    differ : (p i : ℕ) → i < p → (p == i) ≡ false
    differ p i h = ground arith

-- The exchange puts the element found at `i`.
exchange-perm :
    (arr before q1 q2 after : List ℤ) (m : ℤ) (i : ℕ)
    → arr ≡ before ++ ((q1 ++ m ∷ q2) ++ after)
    → i ≡ length before
    → (zs : List ℤ) × (exchange arr (length before + length q1) i
        ≡ some (before ++ m ∷ (zs ++ after)))
      × Perm (m ∷ zs) (q1 ++ m ∷ q2)
exchange-perm arr before [] q2 after m i e hi =
    (q2, exchange_same arr (length before + 0) i (omega (arith, hi)) ∙ ap some e, Perm.rfl)
exchange-perm arr before (c ∷ q1) q2 after m i e hi =
    let p = length before + length (c ∷ q1) in
    (
      q1 ++ c ∷ q2,
      exchange_other arr p i (omega (arith, hi))
          ∙ ap (λ a. swap a p i) (e ∙ ap (λ l. before ++ c ∷ l) (append_assoc q1 (m ∷ q2) after))
          ∙ swap-back before q1 (q2 ++ after) c m i p hi (omega (arith, hi))
          ∙ ap (λ l. some (before ++ m ∷ l)) (sym (append_assoc q1 (c ∷ q2) after)),
      Perm.trans (Perm.cons m (perm_middle q1 q2))
          (Perm.trans (Perm.swap c m (q1 ++ q2)) (Perm.cons c (Perm.symm (perm_middle q1 q2)))),
    )

select_from_step :
    (k n i p : ℕ) (arr arr' : List ℤ)
    → min_from (n - (i + 1)) arr (i + 1) i ≡ some p
    → exchange arr p i ≡ some arr'
    → select_from (suc k) n arr i ≡ select_from k n arr' (i + 1)
unfolding select_from exchange
select_from_step k n i p arr arr' m e = rw (m, e)

select_from-IsSorted :
    (k n i : ℕ) (before part after : List ℤ)
    → i ≡ length before
    → n ≡ i + length part
    → k ≡ length part
    → Sorts (select_from k n (before ++ (part ++ after)) i) before part after
unfolding select_from
select_from-IsSorted zero n i before [] after hi hn hk = ([], refl, tt, Perm.rfl)
select_from-IsSorted zero n i before (x ∷ part) after hi hn hk = absurd (omega (arith, hk))
select_from-IsSorted (suc k) n i before [] after hi hn hk = absurd (omega (arith, hk))
select_from-IsSorted (suc k) n i before (x ∷ part) after hi hn hk =
    let arr = before ++ (x ∷ part ++ after) in
    let (q1, m, q2, e, b, found) =
      least (n - (i + 1)) arr before [] [] part after x (i + 1) i (omega (arith, hn)) refl
        (omega (arith, hi)) (omega (arith, hi)) (omega arith, tt) in
    let (zs, ex, p) =
      exchange-perm arr before q1 q2 after m i (ap (λ l. before ++ (l ++ after)) e) hi in
    let p' : Perm (m ∷ zs) (x ∷ part) = subst (Perm (m ∷ zs)) (sym e) p in
    let l = length-perm p' in
    pass-Sorts (λ a. select_from k n a (i + 1)) (select_from (suc k) n arr i) before (x ∷ part)
      after zs m
      (select_from_step k n i (length before + length q1) arr (before ++ m ∷ (zs ++ after)) found
        ex)
      (IsBelow-perm {ys = m ∷ zs} m (Perm.symm p') b).1 p'
      (select_from-IsSorted k n (i + 1) (before ++ m ∷ []) zs after
        (omega (arith, hi, length-append {0} before (m ∷ []))) (omega (arith, hn, l))
        (omega (arith, hk, l)))

-- selection_sort on the first `n` elements of an array returns with no access outside the array: these elements are
-- then sorted, in ascending order, with the values they had, and the others are as they were.
pub selection_sort-IsSorted :
    (part after : List ℤ)
    → (part' : List ℤ) × (selection_sort (part ++ after) (length part) ≡ some (part' ++ after))
      × IsSorted part'
      × Perm part' part
unfolding selection_sort
selection_sort-IsSorted part after =
    select_from-IsSorted (length part) (length part) 0 [] part after refl (omega arith) refl
