-- ===== src/Searching/Binary.antt =====
-- `binary_search` on a sorted array.
use diversity.Prelude.Int.{ℤ}
use diversity.Prelude.Int.{negsuc, pos, ◌<ℤ◌}
use diversity.Prelude.Int.{ltb_ℤ}
use diversity.MergeSort.Merge.{IsSorted}
use diversity.Searching.Reads.{lt_or_ge}
use diversity.Searching.{binary_search}
use diversity.Prelude.Arrays.{read}
use diversity.Searching.{linear_search}
use diversity.Searching.Reads.{sorted-Reads}
use diversity.Searching.Linear.{linear_search-Ends}
use diversity.Prelude.{
  ℕ, zero, suc, ◌+◌, ◌-◌, ◌/◌, ◌≤◌, ◌<◌, ◌≡◌, refl, sym, ap, ◌∙◌, subst, ◌≢◌, ◌⊎◌, inl, inr, false,
  Option, some, List, ◌++◌, arith, ltb, if◌then◌else◌, lt→ltb, Bool-cases, length, get_elem?,
  get_or, get_elem?-eq-get_or,
}
use diversity.Searching.{eq_ℤ, bisect}
use diversity.Searching.Reads.{Reads, Ends, eq_ℤ→eq, above_ne, below_ne, ltb_ℤ→lt, other_lt}

module _ (at : ℕ → Option ℤ) (n : ℕ) (v : ℕ → ℤ) (x : ℤ) (r : Reads at n v) where
  bisect_step :
      (fuel low top mid : ℕ)
      → mid ≡ low + (top - 1 - low) / 2
      → low < top
      → mid < n
      → bisect at (suc fuel) low top x ≡ (
          if eq_ℤ (v mid) x
          then some (pos mid)
          else if ltb_ℤ (v mid) x
          then bisect at fuel (mid + 1) top x
          else bisect at fuel low mid x)
  unfolding bisect
  bisect_step fuel low top mid hm h l = rw (lt→ltb low top h, ← hm, r.0 mid l) refl

  bisect_stop : (fuel low top : ℕ) → top ≤ low → bisect at (suc fuel) low top x ≡ some (negsuc 0)
  unfolding bisect
  bisect_stop fuel low top h = rw (not_lt low top h) refl
    where
      not_lt : (a b : ℕ) → b ≤ a → ltb a b ≡ false
      not_lt a b h = ground arith

  -- Below `low` the elements are less than `x`, from `top` on they are greater.
  pub bisect-Ends :
      (fuel low top : ℕ)
      → low ≤ top
      → top < low + fuel
      → top ≤ n
      → ((i : ℕ) → i < low → i < n → v i <ℤ x)
      → ((i : ℕ) → top ≤ i → i < n → x <ℤ v i)
      → Ends (bisect at fuel low top x) v n x
  unfolding bisect
  bisect-Ends zero low top hl hf ht below above = absurd (omega (arith, hl, hf))
  bisect-Ends (suc fuel) low top hl hf ht below above = elim (lt_or_ge low top) [
    | inl lt ↦
        let mid = low + (top - 1 - low) / 2 in
        let inside : mid < n = omega (arith, lt, ht) in
        let step = bisect_step fuel low top mid refl lt inside in
        elim (Bool-cases (eq_ℤ (v mid) x)) [
          | inl e ↦ inl (mid, step ∙ rw e refl, inside, eq_ℤ→eq (v mid) x e)
          | inr ne ↦ elim (Bool-cases (ltb_ℤ (v mid) x)) [
            | inl t ↦
                subst (λ o. Ends o v n x) (sym (step ∙ rw (ne, t) refl))
                  (bisect-Ends fuel (mid + 1) top (omega (arith, lt)) (omega (arith, hf, lt)) ht
                    (λ i l k.
                      omega (arith, r.1 i mid (omega (arith, l)) inside, ltb_ℤ→lt (v mid) x t))
                    above)
            | inr f ↦
                subst (λ o. Ends o v n x) (sym (step ∙ rw (ne, f) refl))
                  (bisect-Ends fuel low mid (omega arith) (omega (arith, hf, lt))
                    (omega (arith, inside)) below
                    (λ i l k. omega (arith, r.1 mid i l k, other_lt (v mid) x ne f)))
          ]
        ]
    | inr ge ↦ inr (
      bisect_stop fuel low top ge,
      λ i l. elim (lt_or_ge i low) [
        | inl lt ↦ below_ne x (v i) (below i lt l)
        | inr le ↦ above_ne x (v i) (above i (omega (arith, ge, le)) l)
      ],
    )
  ]

-- On a sorted array binary_search returns an index of `x`, or -1 if no element is `x`.
pub binary_search-Ends :
    (part after : List ℤ) (x : ℤ)
    → IsSorted part
    → Ends
        (binary_search (part ++ after) (length part) x)
        (λ i. get_or part i (pos 0))
        (length part)
        x
unfolding binary_search
binary_search-Ends part after x s =
    bisect-Ends (read (part ++ after)) (length part) (λ i. get_or part i (pos 0)) x
      (sorted-Reads part after s) (length part + 1) 0 (length part) (omega arith) (omega arith)
      (omega arith) (λ i l k. absurd (omega (arith, l))) (λ i l k. absurd (omega (arith, l, k)))

-- On a sorted array, read at none but its indices, linear_search and binary_search both return an index of `x`, or
-- both return -1, and then no element is `x`.
pub searches_agree :
    (part after : List ℤ) (x : ℤ)
    → IsSorted part
    → ((i j : ℕ) × (linear_search (part ++ after) (length part) x ≡ some (pos i))
        × (binary_search (part ++ after) (length part) x ≡ some (pos j))
        × (get_elem? part i ≡ some x)
        × (get_elem? part j ≡ some x))
      ⊎ ((linear_search (part ++ after) (length part) x ≡ some (negsuc 0))
          × (binary_search (part ++ after) (length part) x ≡ some (negsuc 0))
          × ((i : ℕ) → i < length part → get_elem? part i ≢ some x))
searches_agree part after x s =
    both (linear_search (part ++ after) (length part) x)
      (binary_search (part ++ after) (length part) x) (linear_search-Ends part after x s)
      (binary_search-Ends part after x s)
  where
    found : (i : ℕ) → i < length part → get_or part i (pos 0) ≡ x → get_elem? part i ≡ some x
    found i l e = get_elem?-eq-get_or part i (pos 0) l ∙ ap some e

    absent :
        ((i : ℕ) → i < length part → get_or part i (pos 0) ≢ x)
        → (i : ℕ) → i < length part
        → get_elem? part i ≢ some x
    absent h i l e = let e' = get_elem?-eq-get_or part i (pos 0) l in h i l (same (sym e' ∙ e))
      where
        same : {u w : ℤ} → some u ≡ some w → u ≡ w
        same e = cc

    both :
        (o p : Option ℤ)
        → Ends o (λ i. get_or part i (pos 0)) (length part) x
        → Ends p (λ i. get_or part i (pos 0)) (length part) x
        → ((i j : ℕ) × (o ≡ some (pos i))
            × (p ≡ some (pos j))
            × (get_elem? part i ≡ some x)
            × (get_elem? part j ≡ some x))
          ⊎ ((o ≡ some (negsuc 0))
              × (p ≡ some (negsuc 0))
              × ((i : ℕ) → i < length part → get_elem? part i ≢ some x))
    both o p (inl (i, e, l, q)) (inl (j, e', l', q')) =
        inl (i, j, e, e', found i l q, found j l' q')
    both o p (inl (i, e, l, q)) (inr (e', n)) = absurd (n i l q)
    both o p (inr (e, n)) (inl (j, e', l', q')) = absurd (n j l' q')
    both o p (inr (e, n)) (inr (e', n')) = inr (e, e', absent n)
