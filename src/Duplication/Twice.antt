-- ===== src/Duplication/Twice.antt =====
-- What `find_duplication` says is true.
use diversity.Prelude.Int.{ℤ}
use diversity.Prelude.Int.{pos}
use diversity.Duplication.{negsuc}
use diversity.Duplication.{find_duplication, find_from}
use diversity.Prelude.Arrays.{read}
use diversity.Searching.{eq_ℤ}
use diversity.Searching.Reads.{eq_ℤ→eq}
use diversity.Searching.Reads.{eq_ℤ→ne}
use diversity.Prelude.{
  ℕ, zero, suc, ◌+◌, ◌≤◌, ◌<◌, ◌≡◌, refl, sym, ap, ◌∙◌, subst, ◌≢◌, ◌⊎◌, inl, inr, Bool, true,
  false, Option, some, List, [], ◌∷◌, arith, ◌==◌, if◌then◌else◌, lt→ltb, ==_iff, ==_self,
  Bool-cases, length, get_or, set, length-set, get_elem?-eq-get_or, get_or-set_self, get_or-set_ne,
}
use diversity.Prelude.Arrays.{write}
use diversity.Duplication.{swap}

-- Each element is an index of the array.
abbrev pub AreIndices : ℕ → List ℤ → Type 0
AreIndices n [] = Unit
AreIndices n (pos m ∷ arr) = m < n × AreIndices n arr
AreIndices n (negsuc m ∷ arr) = ⊥

-- Two different indices have the same element.
abbrev pub Twice : List ℤ → Type 0
Twice arr =
    (i j : ℕ) × i ≢ j
    × i < length arr
    × j < length arr
    × (get_or arr i (pos 0) ≡ get_or arr j (pos 0))

AreIndices-get_or :
    (n : ℕ) (arr : List ℤ) (i : ℕ)
    → AreIndices n arr
    → i < length arr
    → (m : ℕ) × (get_or arr i (pos 0) ≡ pos m) × m < n
AreIndices-get_or n [] i a h = absurd (omega (arith, h))
AreIndices-get_or n (pos m ∷ arr) zero a h = (m, refl, a.0)
AreIndices-get_or n (pos m ∷ arr) (suc i) a h = AreIndices-get_or n arr i a.1 (omega (arith, h))
AreIndices-get_or n (negsuc m ∷ arr) i a h = absurd a

AreIndices-set :
    (n : ℕ) (arr : List ℤ) (i m : ℕ) → AreIndices n arr → m < n → AreIndices n (set arr i (pos m))
AreIndices-set n [] i m a h = tt
AreIndices-set n (pos k ∷ arr) zero m a h = (h, a.1)
AreIndices-set n (pos k ∷ arr) (suc i) m a h = (a.0, AreIndices-set n arr i m a.1 h)
AreIndices-set n (negsuc k ∷ arr) i m a h = absurd a

-- The array after the exchange of the elements at `i` and at `m`.
abbrev exchanged : List ℤ → ℕ → ℕ → List ℤ
exchanged arr i m = set (set arr m (pos m)) i (get_or arr m (pos 0))

swap_known :
    (arr : List ℤ) (i m : ℕ)
    → i < length arr
    → m < length arr
    → get_or arr i (pos 0) ≡ pos m
    → swap arr i ≡ some (exchanged arr i m)
unfolding swap
swap_known arr i m hi hm e =
    rw
      (
        get_elem?-eq-get_or arr i (pos 0) hi,
        e,
        get_elem?-eq-get_or arr m (pos 0) hm,
        lt→ltb m (length arr) hm,
      )
      (write_inside (set arr m (pos m)) i (get_or arr m (pos 0))
        (omega (arith, hi, length-set arr m (pos m))))
  where
    write_inside :
        (arr : List ℤ) (i : ℕ) (v : ℤ) → i < length arr → write arr i v ≡ some (set arr i v)
    write_inside arr i v h = rw (lt→ltb i (length arr) h) refl

-- Where an element of the array after the exchange was before.
abbrev origin : ℕ → ℕ → ℕ → ℕ
origin i m j = if j == i then m else if j == m then i else j

cases_eq : (a b : ℕ) → ((a ≡ b) × ((a == b) ≡ true)) ⊎ ((a ≢ b) × ((a == b) ≡ false))
cases_eq a b = elim (Bool-cases (a == b)) [
  | inl t ↦ inl ((==_iff a b).0 t, t)
  | inr f ↦ inr ((λ e. let t = (==_iff a b).1 e in cc), f)
]

module _ (arr : List ℤ) (i m : ℕ) (hi : i < length arr) (hm : m < length arr)
    (e : get_or arr i (pos 0) ≡ pos m) where
  get_or-exchanged :
      (j : ℕ) → get_or (exchanged arr i m) j (pos 0) ≡ get_or arr (origin i m j) (pos 0)
  get_or-exchanged j = elim (cases_eq j i) [
    | inl (eq, t) ↦ rw t (
        ap (λ k. get_or (exchanged arr i m) k (pos 0)) eq
        ∙ get_or-set_self (set arr m (pos m)) i (get_or arr m (pos 0)) (pos 0)
            (omega (arith, hi, length-set arr m (pos m))))
    | inr (ne, f) ↦ elim (cases_eq j m) [
      | inl (eq, t) ↦
          rw (f, t)
            (get_or-set_ne (set arr m (pos m)) i j (get_or arr m (pos 0)) (pos 0) (λ q. ne (sym q))
              ∙ ap (λ k. get_or (set arr m (pos m)) k (pos 0)) eq
              ∙ get_or-set_self arr m (pos m) (pos 0) hm
              ∙ sym e)
      | inr (ne', f') ↦
          rw (f, f')
            (get_or-set_ne (set arr m (pos m)) i j (get_or arr m (pos 0)) (pos 0) (λ q. ne (sym q))
              ∙ get_or-set_ne arr m j (pos m) (pos 0) (λ q. ne' (sym q)))
    ]
  ]

  origin-lt : (j : ℕ) → j < length arr → origin i m j < length arr
  origin-lt j h = ground (arith, h, hi, hm)

  origin_differ : (j k : ℕ) → j ≢ k → origin i m j ≢ origin i m k
  origin_differ j k h = ground (arith, h)

  -- Equal elements after the exchange were equal elements before it.
  Twice-exchanged : Twice (exchanged arr i m) → Twice arr
  Twice-exchanged (j, k, ne, hj, hk, same) =
      let n : length (exchanged arr i m) ≡ length arr =
        length-set (set arr m (pos m)) i (get_or arr m (pos 0)) ∙ length-set arr m (pos m) in
      (
        origin i m j,
        origin i m k,
        origin_differ j k ne,
        origin-lt j (omega (arith, hj, n)),
        origin-lt k (omega (arith, hk, n)),
        sym (get_or-exchanged j) ∙ same ∙ get_or-exchanged k,
      )

find_keep :
    (k i : ℕ) (arr : List ℤ) (m : ℤ)
    → read arr i ≡ some m
    → eq_ℤ m (pos i) ≡ true
    → find_from (suc k) arr i ≡ find_from k arr (i + 1)
unfolding find_from
find_keep k i arr m r t = rw (r, t) refl

find_found :
    (k i : ℕ) (arr : List ℤ) (m : ℕ)
    → read arr i ≡ some (pos m)
    → eq_ℤ (pos m) (pos i) ≡ false
    → read arr m ≡ some (pos m)
    → find_from (suc k) arr i ≡ some true
unfolding find_from
find_found k i arr m r f v = rw (r, f, v, ==_self m) refl

find_swap :
    (k i : ℕ) (arr arr' : List ℤ) (m : ℕ) (v : ℤ)
    → read arr i ≡ some (pos m)
    → eq_ℤ (pos m) (pos i) ≡ false
    → read arr m ≡ some v
    → eq_ℤ v (pos m) ≡ false
    → swap arr i ≡ some arr'
    → find_from (suc k) arr i ≡ find_from k arr' (i + 1)
unfolding find_from
find_swap k i arr arr' m v r f rv g s = rw (r, f, rv, g, s) refl

-- The loop ends, and what it finds is there.
abbrev Tells : List ℤ → Option Bool → Type 0
Tells arr o = (b : Bool) × (o ≡ some b) × (b ≡ true → Twice arr)

find_from-Tells :
    (k i : ℕ) (arr : List ℤ)
    → AreIndices (length arr) arr
    → i + k ≤ length arr
    → Tells arr (find_from k arr i)
unfolding find_from
find_from-Tells zero i arr a h = (false, refl, λ e. cc)
find_from-Tells (suc k) i arr a h =
    let hi : i < length arr = omega (arith, h) in
    let (m, e, hm) = AreIndices-get_or (length arr) arr i a hi in
    let (m', e', hm') = AreIndices-get_or (length arr) arr m a hm in
    let r : read arr i ≡ some (pos m) = get_elem?-eq-get_or arr i (pos 0) hi ∙ ap some e in
    let v = get_elem?-eq-get_or arr m (pos 0) hm in
    elim (Bool-cases (eq_ℤ (pos m) (pos i))) [
      | inl t ↦
          subst (Tells arr) (sym (find_keep k i arr (pos m) r t))
            (find_from-Tells k (i + 1) arr a (omega (arith, h)))
      | inr f ↦ elim (Bool-cases (eq_ℤ (get_or arr m (pos 0)) (pos m))) [
        | inl t ↦
            let there = eq_ℤ→eq (get_or arr m (pos 0)) (pos m) t in
            (
              true,
              find_found k i arr m r f (v ∙ ap some there),
              λ _. (i, m, (λ q. eq_ℤ→ne (pos m) (pos i) f (ap pos (sym q))), hi, hm, e ∙ sym there),
            )
        | inr g ↦
            let n : length (exchanged arr i m) ≡ length arr =
              length-set (set arr m (pos m)) i (get_or arr m (pos 0)) ∙ length-set arr m (pos m) in
            let still : AreIndices (length (exchanged arr i m)) (exchanged arr i m) =
              subst (λ l. AreIndices l (exchanged arr i m)) (sym n)
                (subst (λ w. AreIndices (length arr) (set (set arr m (pos m)) i w)) (sym e')
                  (AreIndices-set (length arr) (set arr m (pos m)) i m'
                    (AreIndices-set (length arr) arr m m a hm) hm')) in
            let (b, q, tells) =
              find_from-Tells k (i + 1) (exchanged arr i m) still (omega (arith, h, n)) in
            (
              b,
              find_swap k i arr (exchanged arr i m) m (get_or arr m (pos 0)) r f v g
                    (swap_known arr i m hi hm e)
                  ∙ q,
              λ t. Twice-exchanged arr i m hi hm e (tells t),
            )
      ]
    ]

-- On an array whose elements are indices of it, findDuplication ends with no access outside the array, and when it returns 1 two
-- different indices of the array that it was given have the same element.
pub find_duplication-Twice :
    (arr : List ℤ)
    → AreIndices (length arr) arr
    → (b : Bool) × (find_duplication arr (length arr) ≡ some b) × (b ≡ true → Twice arr)
unfolding find_duplication
find_duplication-Twice arr a = find_from-Tells (length arr) 0 arr a (omega arith)
