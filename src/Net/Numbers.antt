-- ===== src/Net/Numbers.antt =====
-- The numbers in addresses: `atoi`, `%i`, `htons`, and `strrchr`.
use diversity.Prelude.Int.{ℤ, pos, negsuc}
use diversity.Prelude.{
  ℕ, zero, suc, ◌+◌, ◌-◌, ◌*◌, ◌/◌, ◌%◌, ◌^◌, ◌≤◌, ◌<◌, ◌≡◌, refl, ◌∙◌, inl, inr, Bool, true, false,
  ◌&&◌, ◌||◌, Option, none, some, [], ◌∷◌, ◌++◌, arith, ltb, leb, ◌==◌, if◌then◌else◌, ltb→lt,
  lt→ltb, Bool-cases, length, length-append, Bytes, skip_while, span_while, All,
}

abbrev pub is_digit : ℕ → Bool
is_digit c = leb 48 c && leb c 57

-- `isspace` in the C locale
abbrev pub is_space : ℕ → Bool
is_space c = c == 32 || (leb 9 c && leb c 13)

-- The value of a text of digits behind the digits of `n`.
abbrev pub value_from : ℕ → Bytes → ℕ
value_from n [] = n
value_from n (c ∷ cs) = value_from (n * 10 + (c - 48)) cs

abbrev negated : ℕ → ℤ
negated zero = pos 0
negated (suc n) = negsuc n

abbrev signed : Bytes → ℤ
signed [] = pos 0
signed (c ∷ cs) =
    if c == 45
    then negated (value_from 0 (span_while is_digit cs))
    else pos (value_from 0 (span_while is_digit (if c == 43 then cs else c ∷ cs)))

-- `none`: the number does not fit an `int`, and the result is undefined.
abbrev in_int : ℤ → Option ℤ
in_int (pos n) = if ltb n (2 ^ 31) then some (pos n) else none
in_int (negsuc n) = if ltb n (2 ^ 31) then some (negsuc n) else none

unfoldable pub atoi : Bytes → Option ℤ
atoi s = in_int (signed (skip_while is_space s))

-- The part before the last `c`, and the part behind it.
abbrev later : ℕ → Option (Bytes × Bytes) → Option (Bytes × Bytes)
later x none = none
later x (some (before, after)) = some (x ∷ before, after)

abbrev or_here : Bool → Bytes → Option (Bytes × Bytes) → Option (Bytes × Bytes)
or_here here xs (some p) = some p
or_here here xs none = if here then some ([], xs) else none

unfoldable pub strrchr : ℕ → Bytes → Option (Bytes × Bytes)
strrchr c [] = none
strrchr c (x ∷ xs) = or_here (x == c) xs (later x (strrchr c xs))

-- `%i` of a number that is not negative
abbrev decimal_within : ℕ → ℕ → Bytes
decimal_within zero n = []
decimal_within (suc fuel) n =
    let rest = decimal_within fuel (n / 10) in (if ltb n 10 then [] else rest) ++ (48 + n % 10) ∷ []

unfoldable pub decimal : ℕ → Bytes
decimal n = decimal_within (suc n) n

-- On a little-endian machine; `ntohs` is the same function.
unfoldable pub htons : ℕ → ℕ
htons p = p % 256 * 256 + p / 256 % 256

pub htons-htons : (p : ℕ) → p < 65536 → htons (htons p) ≡ p
unfolding htons
htons-htons p h = omega arith

value_from-append :
    (xs ys : Bytes) (n : ℕ) → value_from n (xs ++ ys) ≡ value_from (value_from n xs) ys
value_from-append [] ys n = refl
value_from-append (x ∷ xs) ys n = value_from-append xs ys (n * 10 + (x - 48))

All-append : (xs ys : Bytes) → All is_digit xs → All is_digit ys → All is_digit (xs ++ ys)
All-append [] ys a b = b
All-append (x ∷ xs) ys a b = (a.0, All-append xs ys a.1 b)

decimal_digit : (d : ℕ) → d < 10 → is_digit (48 + d) ≡ true
decimal_digit d h = ground arith

not_ltb : (n : ℕ) → ltb n 10 ≡ false → 10 ≤ n
not_ltb n b = ground arith

decimal_within_lem :
    (fuel n : ℕ)
    → n < fuel
    → (value_from 0 (decimal_within fuel n) ≡ n) × All is_digit (decimal_within fuel n)
decimal_within_lem zero n h = absurd (omega arith)
decimal_within_lem (suc fuel) n h = elim (Bool-cases (ltb n 10)) [
  | inl s ↦ (rw s (omega (arith, ltb→lt n 10 s)), rw s (decimal_digit (n % 10) (omega arith), tt))
  | inr b ↦
      let (v, a) = decimal_within_lem fuel (n / 10) (omega (arith, not_ltb n b)) in
      (
        rw b (
            value_from-append (decimal_within fuel (n / 10)) ((48 + n % 10) ∷ []) 0
            ∙ omega (arith, v)),
        rw b (
            All-append (decimal_within fuel (n / 10)) ((48 + n % 10) ∷ []) a
              (decimal_digit (n % 10) (omega arith), tt)),
      )
]

-- `%i` prints digits, and their value is the number.
pub decimal-value : (n : ℕ) → value_from 0 (decimal n) ≡ n
unfolding decimal
decimal-value n = (decimal_within_lem (suc n) n (omega arith)).0

pub decimal-All : (n : ℕ) → All is_digit (decimal n)
unfolding decimal
decimal-All n = (decimal_within_lem (suc n) n (omega arith)).1

pub span_All : (xs : Bytes) → All is_digit xs → span_while is_digit xs ≡ xs
span_All [] a = refl
span_All (x ∷ xs) a = ground (arith, span_All xs a.1)

pub digit_others :
    (d : ℕ)
    → is_digit d ≡ true
    → (is_space d ≡ false) × ((d == 45) ≡ false) × ((d == 43) ≡ false) × ((d == 58) ≡ false)
digit_others d h = (ground arith, ground arith, ground arith, ground arith)

-- `atoi` of digits is their value, if an `int` holds it.
pub atoi-digits :
    (ds : Bytes)
    → All is_digit ds
    → value_from 0 ds < 2 ^ 31
    → atoi ds ≡ some (pos (value_from 0 ds))
unfolding atoi
atoi-digits [] a h = refl
atoi-digits (d ∷ ds) a h =
    let (s, m, p, c) = digit_others d a.0 in
    rw (s, m, p, span_All (d ∷ ds) a, lt→ltb (value_from 0 (d ∷ ds)) (2 ^ 31) h)

-- No digit is a colon, so the last colon is the one before the digits.
strrchr-none : (ds : Bytes) → All is_digit ds → strrchr 58 ds ≡ none
unfolding strrchr
strrchr-none [] a = refl
strrchr-none (d ∷ ds) a = let (s, m, p, c) = digit_others d a.0 in rw (c, strrchr-none ds a.1)

pub strrchr-port :
    (host ds : Bytes) → All is_digit ds → strrchr 58 (host ++ 58 ∷ ds) ≡ some (host, ds)
unfolding strrchr
strrchr-port [] ds a = rw (strrchr-none ds a) refl
strrchr-port (x ∷ host) ds a = rw (strrchr-port host ds a) refl

abbrev tens : ℕ → ℕ
tens zero = 1
tens (suc k) = 10 * tens k

decimal_within-length : (fuel k n : ℕ) → n < tens (suc k) → length (decimal_within fuel n) ≤ suc k
decimal_within-length zero k n h = omega arith
decimal_within-length (suc fuel) zero n h = rw (lt→ltb n 10 (omega arith)) (omega arith)
decimal_within-length (suc fuel) (suc k) n h = elim (Bool-cases (ltb n 10)) [
  | inl s ↦ rw s (omega arith)
  | inr b ↦ rw b (
      omega (
        arith,
        length-append {0} (decimal_within fuel (n / 10)) ((48 + n % 10) ∷ []),
        decimal_within-length fuel k (n / 10) (omega arith),
      ))
]

-- A port is printed with at most five digits.
pub decimal_short : (port : ℕ) → port < 65536 → length (decimal port) ≤ 5
unfolding decimal
decimal_short port h = decimal_within-length (suc port) 4 port (omega arith)

-- There is at least one digit.
pub decimal_some : (n : ℕ) → 0 < length (decimal n)
unfolding decimal
decimal_some n = omega (
  arith,
  length-append {0} (if ltb n 10 then [] else decimal_within n (n / 10)) ((48 + n % 10) ∷ []),
)
