-- ===== src/Sorting/Merging/Fault.antt =====
-- `merge_sort` of a part that does not begin at 0, and of a whole array.
use diversity.Prelude.Int.{ℤ}
use diversity.Prelude.{
  ℕ, zero, suc, ◌+◌, ◌-◌, ◌/◌, ◌≤◌, ◌<◌, ◌≡◌, refl, sym, ap, ◌∙◌, subst, ◌⊎◌, inl, inr, false,
  Option, none, some, List, arith, ◌==◌, ==_self,
}
use diversity.Sorting.Merging.{Outcome, and_then, checked, merged_back, merge_sort}
use diversity.Sorting.Merging.Cells.{merged_back-none}

merge_sort_single :
    (fuel : ℕ) (a : List ℤ) (low high : ℕ)
    → low ≡ high
    → merge_sort (suc fuel) a low high ≡ Outcome.done a
unfolding merge_sort
merge_sort_single fuel a low high e = rw (e, ==_self high) refl

abbrev halves : ℕ → List ℤ → ℕ → ℕ → ℕ → Outcome
halves fuel a low mid high = and_then (merge_sort fuel a low mid) (λ a1.
    and_then (merge_sort fuel a1 (mid + 1) high) (λ a2. checked (merged_back a2 low mid high)))

merge_sort-halves :
    (fuel : ℕ) (a : List ℤ) (low mid high : ℕ)
    → low < high
    → mid ≡ (low + high) / 2
    → merge_sort (suc fuel) a low high ≡ halves fuel a low mid high
unfolding merge_sort
merge_sort-halves fuel a low mid high h e = rw (differ low high h, e) refl
  where
    differ : (p i : ℕ) → p < i → (p == i) ≡ false
    differ p i h = ground arith

eq_or_lt : (a b : ℕ) → a ≤ b → (a ≡ b) ⊎ (a < b)
eq_or_lt a b h = ground (arith, h)

-- The call comes to an end.
Settled : Outcome → Type 0
Settled o = ((a : List ℤ) × (o ≡ Outcome.done a)) ⊎ (o ≡ Outcome.fault)

checked-Settled : (o : Option (List ℤ)) → Settled (checked o)
unfolding Settled
checked-Settled (some a) = inl (a, refl)
checked-Settled none = inr refl

and_then-Settled :
    (o : Outcome) (f : List ℤ → Outcome)
    → Settled o
    → ((a : List ℤ) → Settled (f a))
    → Settled (and_then o f)
unfolding Settled
and_then-Settled (Outcome.done a) f s h = h a
and_then-Settled Outcome.fault f s h = inr refl
and_then-Settled Outcome.unfinished f (inl (a, e)) h = cc
and_then-Settled Outcome.unfinished f (inr e) h = cc

and_then-fault :
    (o : Outcome) (f : List ℤ → Outcome)
    → Settled o
    → ((a : List ℤ) → f a ≡ Outcome.fault)
    → and_then o f ≡ Outcome.fault
unfolding Settled
and_then-fault (Outcome.done a) f s h = h a
and_then-fault Outcome.fault f s h = refl
and_then-fault Outcome.unfinished f (inl (a, e)) h = cc
and_then-fault Outcome.unfinished f (inr e) h = cc

either-Settled :
    (o : Outcome) (a : List ℤ) {P Q : Type 0}
    → (P × (o ≡ Outcome.done a)) ⊎ (Q × (o ≡ Outcome.fault))
    → Settled o
unfolding Settled
either-Settled o a (inl r) = inl (a, r.1)
either-Settled o a (inr r) = inr r.1

-- A part that does not begin at 0.
later :
    (fuel : ℕ) (a : List ℤ) (low high : ℕ)
    → 0 < low
    → low ≤ high
    → high - low < fuel
    → (low ≡ high × (merge_sort fuel a low high ≡ Outcome.done a))
      ⊎ (low < high × (merge_sort fuel a low high ≡ Outcome.fault))
later zero a low high p h f = absurd (omega (arith, f))
later (suc fuel) a low high p h f = elim (eq_or_lt low high h) [
  | inl e ↦ inl (e, merge_sort_single fuel a low high e)
  | inr lt ↦
      let mid = (low + high) / 2 in
      inr (
        lt,
        merge_sort-halves fuel a low mid high lt refl
            ∙ and_then-fault (merge_sort fuel a low mid) _
                (either-Settled (merge_sort fuel a low mid) a
                  (later fuel a low mid p (omega (arith, lt)) (omega (arith, lt, f))))
                (λ a1.
                  and_then-fault (merge_sort fuel a1 (mid + 1) high) _
                    (either-Settled (merge_sort fuel a1 (mid + 1) high) a1 (
                      later fuel a1 (mid + 1) high (omega arith) (omega (arith, lt))
                        (omega (arith, lt, f))))
                    (λ a2. ap checked (
                      merged_back-none a2 low mid high p (omega (arith, lt)) (omega (arith, lt))))),
      )
]

-- A part that begins at 0.
first-Settled :
    (fuel : ℕ) (a : List ℤ) (high : ℕ) → high < fuel → Settled (merge_sort fuel a 0 high)
first-Settled zero a high f = absurd (omega (arith, f))
first-Settled (suc fuel) a high f = elim (eq_or_lt 0 high (omega arith)) [
  | inl e ↦
      either-Settled (merge_sort (suc fuel) a 0 high) a {Q = Unit}
        (inl (e, merge_sort_single fuel a 0 high e))
  | inr lt ↦
      let mid = (0 + high) / 2 in
      subst Settled (sym (merge_sort-halves fuel a 0 mid high lt refl)) (
        and_then-Settled (merge_sort fuel a 0 mid) _
          (first-Settled fuel a mid (omega (arith, lt, f)))
          (λ a1.
            and_then-Settled (merge_sort fuel a1 (mid + 1) high) _
              (either-Settled (merge_sort fuel a1 (mid + 1) high) a1 (
                later fuel a1 (mid + 1) high (omega arith) (omega (arith, lt))
                  (omega (arith, lt, f))))
              (λ a2. checked-Settled (merged_back a2 0 mid high))))
]

later-fault :
    (fuel : ℕ) (a : List ℤ) (low high : ℕ)
    → 0 < low
    → low < high
    → high - low < fuel
    → merge_sort fuel a low high ≡ Outcome.fault
later-fault fuel a low high p h f = elim (later fuel a low high p (omega (arith, h)) f) [
  | inl r ↦ absurd (omega (arith, h, r.0))
  | inr r ↦ r.1
]

-- merge_sort of four elements or more, with as much fuel as there are elements, leaves an array: `b` has as
-- many cells as the part that is sorted, but is written at the part's own indices, which do not fit once the part does not begin at 0.
pub merge_sort-fault :
    (fuel n : ℕ) (a : List ℤ) → 4 ≤ n → n ≤ fuel → merge_sort fuel a 0 (n - 1) ≡ Outcome.fault
merge_sort-fault zero n a h f = absurd (omega (arith, h, f))
merge_sort-fault (suc fuel) n a h f =
    let high = n - 1 in
    let mid = (0 + high) / 2 in
    merge_sort-halves fuel a 0 mid high (omega (arith, h)) refl
    ∙ and_then-fault (merge_sort fuel a 0 mid) _ (first-Settled fuel a mid (omega (arith, h, f)))
        (λ a1.
          ap (λ o. and_then o (λ a2. checked (merged_back a2 0 mid high)))
            (later-fault fuel a1 (mid + 1) high (omega arith) (omega (arith, h))
              (omega (arith, h, f))))
