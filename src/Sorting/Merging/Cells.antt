-- ===== src/Sorting/Merging/Cells.antt =====
-- The writes of `merge` into the cells of `b`.
use diversity.Prelude.Int.{ℤ}
use diversity.Prelude.Int.{ltb_ℤ}
use diversity.Prelude.{
  ℕ, zero, suc, ◌+◌, ◌-◌, ◌≤◌, ◌<◌, ◌≡◌, refl, ap, inl, inr, Bool, true, false, Option, none, some,
  List, arith, if◌then◌else◌, Option-cases, ◌>>=◌, length, replicate, length-set,
}
use diversity.Prelude.Arrays.{read, write}
use diversity.Sorting.Merging.{merge_into, merge, merged_back}

write-none : (b : List (Option ℤ)) (i : ℕ) (v : Option ℤ) → length b ≤ i → write b i v ≡ none
write-none b i v h = ground (arith, h)

write-length :
    (b b' : List (Option ℤ)) (i : ℕ) (v : Option ℤ) → write b i v ≡ some b' → length b' ≡ length b
write-length b b' i v e = ground (arith, e, length-set b i v)

-- A chain of a write and the rest, when the rest faults on what is written.
write-fault :
    (b : List (Option ℤ)) (i : ℕ) (v : Option ℤ) (f : List (Option ℤ) → Option (List (Option ℤ)))
    → (i < length b → (b' : List (Option ℤ)) → length b' ≡ length b → f b' ≡ none)
    → (write b i v >>= f) ≡ none
write-fault b i v f h = elim (Option-cases (write b i v)) [
  | inl e ↦ rw e refl
  | inr (b', e) ↦ rw e (h (within b b' i v e) b' (write-length b b' i v e))
]
  where
    within : (b b' : List (Option ℤ)) (i : ℕ) (v : Option ℤ) → write b i v ≡ some b' → i < length b
    within b b' i v e = ground (arith, e)

>>=-none {ℓ κ} :
    {A : Type ℓ} {B : Type κ} (m : Option A) (f : A → Option B)
    → ((a : A) → f a ≡ none)
    → (m >>= f) ≡ none
>>=-none none f h = refl
>>=-none (some a) f h = h a

branches {ℓ} : {A : Type ℓ} {x y z : A} (t : Bool) → x ≡ z → y ≡ z → (if t then x else y) ≡ z
branches true a b = a
branches false a b = b

-- As many writes as there are elements, the first into `i`, do not fit in fewer cells.
merge_into-none :
    (k1 k2 : ℕ) (a : List ℤ) (b : List (Option ℤ)) (l1 l2 i : ℕ)
    → 0 < k1 + k2
    → length b < i + (k1 + k2)
    → merge_into k1 k2 a b l1 l2 i ≡ none
unfolding merge_into
merge_into-none zero zero a b l1 l2 i p h = absurd (omega (arith, p))
merge_into-none zero (suc k2) a b l1 l2 i p h = >>=-none (read a l2) _ (λ y.
    write-fault b i (some y) _ (λ w b' e.
      merge_into-none zero k2 a b' l1 (l2 + 1) (i + 1) (omega (arith, h, w)) (omega (arith, h, e))))
merge_into-none (suc k1) zero a b l1 l2 i p h = >>=-none (read a l1) _ (λ x.
    write-fault b i (some x) _ (λ w b' e.
      merge_into-none k1 zero a b' (l1 + 1) l2 (i + 1) (omega (arith, h, w)) (omega (arith, h, e))))
merge_into-none (suc k1) (suc k2) a b l1 l2 i p h = >>=-none (read a l1) _ (λ x.
    >>=-none (read a l2) _ (λ y.
      branches (ltb_ℤ x y)
        (write-fault b i (some x) _ (λ w b' e.
          merge_into-none k1 (suc k2) a b' (l1 + 1) l2 (i + 1) (omega (arith, h, w))
            (omega (arith, h, e))))
        (write-fault b i (some y) _ (λ w b' e.
          merge_into-none (suc k1) k2 a b' l1 (l2 + 1) (i + 1) (omega (arith, h, w))
            (omega (arith, h, e))))))

length-replicate {ℓ} : {A : Type ℓ} (n : ℕ) (x : A) → length (replicate n x) ≡ n
length-replicate zero x = refl
length-replicate (suc n) x = ap suc (length-replicate n x)

-- The cells do not hold a part that does not begin at 0.
pub merged_back-none :
    (a : List ℤ) (low mid high : ℕ)
    → 0 < low
    → low ≤ mid
    → mid < high
    → merged_back a low mid high ≡ none
unfolding merged_back merge
merged_back-none a low mid high hl hm hh =
    let cells : List (Option ℤ) = replicate (high - low + 1) none in
    rw
      (merge_into-none (mid + 1 - low) (high - mid) a cells low (mid + 1) low
        (omega (arith, hl, hm, hh))
        (omega (arith, hl, hm, hh, length-replicate {A = Option ℤ} (high - low + 1) none)))
      refl
