-- ===== src/Sorting/Exchange.antt =====
-- `bubble_sort`: each pass leaves the least of the rest at `i`.
use mathlib.Core.List.{Perm, perm_middle}
use mathlib.Core.List.Perm
use diversity.MergeSort.Merge.{IsBelow, below, not_below, IsBelow-le}
use diversity.Prelude.Int.{ℤ}
use diversity.Prelude.Arrays.{read, read-middle}
use diversity.Prelude.Int.{ltb_ℤ}
use diversity.Sorting.{bubble_from, bubble_sort}
use diversity.MergeSort.Merge.{IsSorted}
use diversity.MergeSort.Sort.{length-perm}
use diversity.Sorting.Order.{Sorts}
use diversity.Sorting.Order.{pass-Sorts}
use diversity.Prelude.{
  ℕ, zero, suc, ◌+◌, ◌-◌, ◌≡◌, refl, sym, ap, ◌∙◌, inl, inr, true, false, some, List, [], ◌∷◌, ◌++◌,
  append-nil, append_assoc, arith, Bool-cases, length, length-append,
}
use diversity.Sorting.{swap, bubble}
use diversity.Sorting.Order.{IsBelow-append, read-second, swap-middle}

-- What the inner loop leaves of `x` at `i`, the elements `mid` it has passed and the elements `rest` to come.
abbrev Passes : ℕ → List ℤ → ℤ → List ℤ → List ℤ → List ℤ → ℕ → ℕ → Type 0
Passes k before x mid rest after i j =
    (m : ℤ) × (zs : List ℤ) × (bubble k (before ++ x ∷ (mid ++ (rest ++ after))) i j
      ≡ some (before ++ m ∷ (zs ++ after)))
    × IsBelow m zs
    × Perm (m ∷ zs) (x ∷ (mid ++ rest))

bubble_smaller :
    (k : ℕ) (arr arr' : List ℤ) (i j : ℕ) (x y : ℤ)
    → read arr j ≡ some y
    → read arr i ≡ some x
    → ltb_ℤ y x ≡ true
    → swap arr i j ≡ some arr'
    → bubble (suc k) arr i j ≡ bubble k arr' i (j + 1)
unfolding bubble
bubble_smaller k arr arr' i j x y ry rx t s = rw (ry, rx, t, s)

bubble_keep :
    (k : ℕ) (arr : List ℤ) (i j : ℕ) (x y : ℤ)
    → read arr j ≡ some y
    → read arr i ≡ some x
    → ltb_ℤ y x ≡ false
    → bubble (suc k) arr i j ≡ bubble k arr i (j + 1)
unfolding bubble
bubble_keep k arr i j x y ry rx f = rw (ry, rx, f)

longer :
    (mid : List ℤ) (w : ℤ) (i j : ℕ)
    → j ≡ i + 1 + length mid
    → j + 1 ≡ i + 1 + length (mid ++ w ∷ [])
longer mid w i j h = omega (arith, h, length-append {0} mid (w ∷ []))

-- The element passed joins `mid`.
rebracket :
    (before mid rest after : List ℤ) (v w : ℤ)
    → before ++ v ∷ (mid ++ w ∷ (rest ++ after))
      ≡ before ++ v ∷ ((mid ++ w ∷ []) ++ (rest ++ after))
rebracket before mid rest after v w =
    ap (λ l. before ++ v ∷ l) (sym (append_assoc mid (w ∷ []) (rest ++ after)))

exchanged-perm :
    (x y : ℤ) (mid rest : List ℤ) → Perm (y ∷ ((mid ++ x ∷ []) ++ rest)) (x ∷ (mid ++ y ∷ rest))
exchanged-perm x y mid rest = rw (append_assoc mid (x ∷ []) rest) (
    Perm.trans (Perm.cons y (perm_middle mid rest))
      (Perm.trans (Perm.swap x y (mid ++ rest)) (Perm.cons x (Perm.symm (perm_middle mid rest)))))

passes :
    (rest before mid after : List ℤ) (x : ℤ) (k i j : ℕ)
    → k ≡ length rest
    → i ≡ length before
    → j ≡ i + 1 + length mid
    → IsBelow x mid
    → Passes k before x mid rest after i j
unfolding bubble
passes [] before mid after x zero i j hk hi hj b = (x, mid, refl, b, rw (append-nil mid) Perm.rfl)
passes [] before mid after x (suc k) i j hk hi hj b = absurd (omega (arith, hk))
passes (y ∷ rest) before mid after x zero i j hk hi hj b = absurd (omega (arith, hk))
passes (y ∷ rest) before mid after x (suc k) i j hk hi hj b =
    let ry = read-second before mid (rest ++ after) x y i j hi hj in
    let rx = read-middle before (mid ++ y ∷ (rest ++ after)) x i hi in
    elim (Bool-cases (ltb_ℤ y x)) [
      | inl t ↦
          let le = below y x t in
          let (m, zs, e, bm, p) =
            passes rest before (mid ++ x ∷ []) after y k i (j + 1) (omega (arith, hk)) hi
              (longer mid x i j hj)
              (IsBelow-append y mid (x ∷ []) (IsBelow-le y x mid le b) (le, tt)) in
          (
            m,
            zs,
            bubble_smaller k (before ++ x ∷ (mid ++ y ∷ (rest ++ after)))
                  (before ++ y ∷ (mid ++ x ∷ (rest ++ after))) i j x y ry rx t
                  (swap-middle before mid (rest ++ after) x y i j hi hj)
                ∙ ap (λ a. bubble k a i (j + 1)) (rebracket before mid rest after y x)
                ∙ e,
            bm,
            Perm.trans p (exchanged-perm x y mid rest),
          )
      | inr f ↦
          let le = not_below y x f in
          let (m, zs, e, bm, p) =
            passes rest before (mid ++ y ∷ []) after x k i (j + 1) (omega (arith, hk)) hi
              (longer mid y i j hj) (IsBelow-append x mid (y ∷ []) b (le, tt)) in
          (
            m,
            zs,
            bubble_keep k (before ++ x ∷ (mid ++ y ∷ (rest ++ after))) i j x y ry rx f
                ∙ ap (λ a. bubble k a i (j + 1)) (rebracket before mid rest after x y)
                ∙ e,
            bm,
            rw (← append_assoc mid (y ∷ []) rest) p,
          )
    ]

bubble_from_step :
    (k n i : ℕ) (arr arr' : List ℤ)
    → bubble (n - (i + 1)) arr i (i + 1) ≡ some arr'
    → bubble_from (suc k) n arr i ≡ bubble_from k n arr' (i + 1)
unfolding bubble_from
bubble_from_step k n i arr arr' e = rw e

bubble_from-IsSorted :
    (k n i : ℕ) (before part after : List ℤ)
    → i ≡ length before
    → n ≡ i + length part
    → k ≡ length part - 1
    → Sorts (bubble_from k n (before ++ (part ++ after)) i) before part after
unfolding bubble_from
bubble_from-IsSorted zero n i before [] after hi hn hk = ([], refl, tt, Perm.rfl)
bubble_from-IsSorted zero n i before (x ∷ []) after hi hn hk = (x ∷ [], refl, (tt, tt), Perm.rfl)
bubble_from-IsSorted zero n i before (x ∷ y ∷ part) after hi hn hk = absurd (omega (arith, hk))
bubble_from-IsSorted (suc k) n i before [] after hi hn hk = absurd (omega (arith, hk))
bubble_from-IsSorted (suc k) n i before (x ∷ part) after hi hn hk =
    let (m, zs, e, b, p) =
      passes part before [] after x (n - (i + 1)) i (i + 1) (omega (arith, hn)) hi (omega arith)
        tt in
    let l = length-perm p in
    pass-Sorts (λ a. bubble_from k n a (i + 1))
      (bubble_from (suc k) n (before ++ x ∷ (part ++ after)) i) before (x ∷ part) after zs m
      (bubble_from_step k n i (before ++ x ∷ (part ++ after)) (before ++ m ∷ (zs ++ after)) e) b p
      (bubble_from-IsSorted k n (i + 1) (before ++ m ∷ []) zs after
        (omega (arith, hi, length-append {0} before (m ∷ []))) (omega (arith, hn, l))
        (omega (arith, hk, l)))

-- bubble_sort on the first `n` elements of an array returns with no access outside the array: these elements are
-- then sorted, in ascending order, with the values they had, and the others are as they were.
pub bubble_sort-IsSorted :
    (part after : List ℤ)
    → (part' : List ℤ) × (bubble_sort (part ++ after) (length part) ≡ some (part' ++ after))
      × IsSorted part'
      × Perm part' part
unfolding bubble_sort
bubble_sort-IsSorted part after =
    bubble_from-IsSorted (length part - 1) (length part) 0 [] part after refl (omega arith) refl
