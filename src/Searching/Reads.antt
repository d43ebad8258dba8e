-- ===== src/Searching/Reads.antt =====
-- Reads that give the elements of a sorted sequence, and the outcome of a search there.
use diversity.MergeSort.Merge.{IsBelow, IsSorted}
use diversity.Prelude.Int.{ℤ}
use diversity.Prelude.Int.{pos, ltb_ℤ, ◌≤ℤ◌, ◌<ℤ◌}
use diversity.Prelude.Int.{negsuc, pos_part}
use diversity.Prelude.Int.{neg_part}
use diversity.Prelude.{
  ℕ, zero, suc, ◌+◌, ◌≤◌, ◌<◌, ◌≡◌, refl, ap, ◌∙◌, subst, ◌≢◌, ◌⊎◌, true, false, Option, some, List,
  [], ◌∷◌, ◌++◌, arith, ltb→lt, ==_iff, ==_self, length, get_or,
}
use diversity.Prelude.Arrays.{read}
use diversity.Searching.{eq_ℤ}

-- The first `n` reads give the elements of `v`, in ascending order.
abbrev pub Reads : (ℕ → Option ℤ) → ℕ → (ℕ → ℤ) → Type 0
Reads at n v = ((i : ℕ) → i < n → at i ≡ some (v i)) × ((i j : ℕ) → i ≤ j → j < n → v i ≤ℤ v j)

-- Where a search for `x` among the first `n` ends: at an index of `x`, or with -1 when none is `x`.
abbrev pub Ends : Option ℤ → (ℕ → ℤ) → ℕ → ℤ → Type 0
Ends o v n x =
    ((i : ℕ) × (o ≡ some (pos i)) × i < n × (v i ≡ x))
    ⊎ ((o ≡ some (negsuc 0)) × ((i : ℕ) → i < n → v i ≢ x))

pub eq_ℤ→eq : (x y : ℤ) → eq_ℤ x y ≡ true → x ≡ y
eq_ℤ→eq (pos m) (pos n) h = ap pos ((==_iff m n).0 h)
eq_ℤ→eq (pos m) (negsuc n) h = cc
eq_ℤ→eq (negsuc m) (pos n) h = cc
eq_ℤ→eq (negsuc m) (negsuc n) h = ap negsuc ((==_iff m n).0 h)

pub eq_ℤ_self : (x : ℤ) → eq_ℤ x x ≡ true
eq_ℤ_self (pos n) = ==_self n
eq_ℤ_self (negsuc n) = ==_self n

pub above_ne : (x y : ℤ) → x <ℤ y → y ≢ x
above_ne x y h e = let h' = subst (λ z. x <ℤ z) e h in omega (arith, h')

pub below_ne : (x y : ℤ) → y <ℤ x → y ≢ x
below_ne x y h e = let h' = subst (λ z. z <ℤ x) e h in omega (arith, h')

pub ltb_ℤ→lt : (x y : ℤ) → ltb_ℤ x y ≡ true → x <ℤ y
ltb_ℤ→lt x y h = ltb→lt (pos_part x + neg_part y) (pos_part y + neg_part x) h

-- Of two ints that differ, the one that is not less is greater.
pub other_lt : (x y : ℤ) → eq_ℤ x y ≡ false → ltb_ℤ x y ≡ false → y <ℤ x
other_lt (pos m) (pos n) e h = ground arith
other_lt (pos m) (negsuc n) e h = ground arith
other_lt (negsuc m) (pos n) e h = ground arith
other_lt (negsuc m) (negsuc n) e h = ground arith

IsBelow-get_or : (x d : ℤ) (l : List ℤ) (i : ℕ) → IsBelow x l → i < length l → x ≤ℤ get_or l i d
IsBelow-get_or x d [] i b h = absurd (omega (arith, h))
IsBelow-get_or x d (y ∷ l) zero b h = b.0
IsBelow-get_or x d (y ∷ l) (suc i) b h = IsBelow-get_or x d l i b.1 (omega (arith, h))

get_or-mono :
    (l : List ℤ) (d : ℤ)
    → IsSorted l
    → (i j : ℕ) → i ≤ j
    → j < length l
    → get_or l i d ≤ℤ get_or l j d
get_or-mono [] d s i j h k = absurd (omega (arith, k))
get_or-mono (x ∷ l) d s zero zero h k = omega arith
get_or-mono (x ∷ l) d s zero (suc j) h k = IsBelow-get_or x d l j s.0 (omega (arith, k))
get_or-mono (x ∷ l) d s (suc i) zero h k = absurd (omega (arith, h))
get_or-mono (x ∷ l) d s (suc i) (suc j) h k =
    get_or-mono l d s.1 i j (omega (arith, h)) (omega (arith, k))

read_part :
    (part after : List ℤ) (i : ℕ)
    → i < length part
    → read (part ++ after) i ≡ some (get_or part i (pos 0))
read_part [] after i h = absurd (omega (arith, h))
read_part (x ∷ part) after zero h = refl
read_part (x ∷ part) after (suc i) h = read_part part after i (omega (arith, h))

pub sorted-Reads :
    (part after : List ℤ)
    → IsSorted part
    → Reads (read (part ++ after)) (length part) (λ i. get_or part i (pos 0))
sorted-Reads part after s = (read_part part after, get_or-mono part (pos 0) s)

pub lt_or_ge : (a b : ℕ) → (a < b) ⊎ (b ≤ a)
lt_or_ge a b = ground arith

pub eq_ℤ→ne : (x y : ℤ) → eq_ℤ x y ≡ false → x ≢ y
eq_ℤ→ne x y h e = let t = ap (λ z. eq_ℤ z y) e ∙ eq_ℤ_self y in cc
