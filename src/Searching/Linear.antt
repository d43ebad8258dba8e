-- ===== src/Searching/Linear.antt =====
-- `linear_search` on a sorted array.
use diversity.Prelude.Int.{ℤ}
use diversity.Prelude.Int.{ltb_ℤ}
use diversity.Prelude.Int.{negsuc}
use diversity.Prelude.Int.{pos}
use diversity.Searching.Reads.{lt_or_ge}
use diversity.Searching.{linear_search}
use diversity.MergeSort.Merge.{IsSorted}
use diversity.Searching.Reads.{eq_ℤ→ne}
use diversity.Searching.Reads.{sorted-Reads}
use diversity.Prelude.{
  ℕ, zero, suc, ◌+◌, ◌<◌, ◌≡◌, refl, sym, ◌∙◌, subst, ◌≢◌, inl, inr, some, List, ◌++◌, arith,
  if◌then◌else◌, Bool-cases, length, get_or,
}
use diversity.Prelude.Arrays.{read}
use diversity.Searching.{eq_ℤ, linear_from}
use diversity.Searching.Reads.{Reads, Ends, eq_ℤ→eq, above_ne, ltb_ℤ→lt}

module _ (a : List ℤ) (n : ℕ) (v : ℕ → ℤ) (x : ℤ) (r : Reads (read a) n v) where
  linear_step :
      (k i : ℕ)
      → i < n
      → linear_from (suc k) a i x ≡ (
          if ltb_ℤ x (v i)
          then some (negsuc 0)
          else if eq_ℤ (v i) x
          then some (pos i)
          else linear_from k a (i + 1) x)
  unfolding linear_from
  linear_step k i h = rw (r.0 i h) refl

  linear_from-Ends :
      (k i : ℕ) → n ≡ i + k → ((j : ℕ) → j < i → v j ≢ x) → Ends (linear_from k a i x) v n x
  unfolding linear_from
  linear_from-Ends zero i h before = inr (refl, λ j l. before j (omega (arith, h, l)))
  linear_from-Ends (suc k) i h before =
      let step = linear_step k i (omega (arith, h)) in
      elim (Bool-cases (ltb_ℤ x (v i))) [
        | inl t ↦ inr (
          step ∙ rw t refl,
          λ j l. elim (lt_or_ge j i) [
            | inl lt ↦ before j lt
            | inr ge ↦ above_ne x (v j) (omega (arith, r.1 i j ge l, ltb_ℤ→lt x (v i) t))
          ],
        )
        | inr f ↦ elim (Bool-cases (eq_ℤ (v i) x)) [
          | inl e ↦ inl (i, step ∙ rw (f, e) refl, omega (arith, h), eq_ℤ→eq (v i) x e)
          | inr ne ↦
              subst (λ o. Ends o v n x) (sym (step ∙ rw (f, ne) refl))
                (linear_from-Ends k (i + 1) (omega (arith, h)) (λ j l. elim (lt_or_ge j i) [
                  | inl lt ↦ before j lt
                  | inr ge ↦
                      subst (λ m. v m ≢ x) {x = i} {y = j} (omega (arith, l, ge))
                        (eq_ℤ→ne (v i) x ne)
                ]))
        ]
      ]

-- On a sorted array linear_search returns an index of `x`, or -1 if no element is `x`.
pub linear_search-Ends :
    (part after : List ℤ) (x : ℤ)
    → IsSorted part
    → Ends
        (linear_search (part ++ after) (length part) x)
        (λ i. get_or part i (pos 0))
        (length part)
        x
unfolding linear_search
linear_search-Ends part after x s =
    linear_from-Ends (part ++ after) (length part) (λ i. get_or part i (pos 0)) x
      (sorted-Reads part after s) (length part) 0 (omega arith) (λ j l. absurd (omega (arith, l)))
