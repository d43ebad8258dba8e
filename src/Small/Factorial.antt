-- ===== src/Small/Factorial.antt =====
-- cmake-tutorial/src/factorial.c, on an int that is not negative. `none` is an overflow, or fuel that ran out.
use diversity.Prelude.{
  ℕ, zero, suc, ◌*◌, ◌^◌, ◌≤◌, ◌<◌, ◌≡◌, refl, false, Option, none, some, arith, ◌==◌,
  if◌then◌else◌, ◌>>=◌, bounded, bounded_lem,
}

-- Below 1 the argument only falls, until it passes the bound of an int: the call for 0 does not return.
unfoldable pub factorial : ℕ → ℕ → Option ℕ
factorial zero n = none
factorial (suc fuel) zero = none
factorial (suc fuel) (suc n) =
    let rest = factorial fuel n >>= λ f. bounded (suc n * f) in if suc n == 1 then some 1 else rest

-- The product of the numbers up to `n`
abbrev pub product : ℕ → ℕ
product zero = 1
product (suc n) = suc n * product n

one : (fuel : ℕ) → factorial (suc fuel) 1 ≡ some 1
unfolding factorial
one fuel = refl

not_one : (n : ℕ) → suc (suc n) == 1 ≡ false
not_one n = ground arith

no_less : (k x : ℕ) → x ≤ suc k * x
no_less k x = grind arith

more :
    (fuel n f : ℕ)
    → factorial fuel (suc n) ≡ some f
    → suc (suc n) * f < 2 ^ 31
    → factorial (suc fuel) (suc (suc n)) ≡ some (suc (suc n) * f)
unfolding factorial
more fuel n f e h = rw (not_one n, e, bounded_lem (suc (suc n) * f) h) refl

-- From 1 on, while the product fits an int, the function returns it, with as much fuel as the argument.
pub factorial-product :
    (n : ℕ) → product (suc n) < 2 ^ 31 → factorial (suc n) (suc n) ≡ some (product (suc n))
factorial-product zero h = one 0
factorial-product (suc n) h =
    more (suc n) n (product (suc n))
      (factorial-product n (omega (arith, h, no_less (suc n) (product (suc n))))) h
