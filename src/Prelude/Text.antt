-- ===== src/Prelude/Text.antt =====
-- C strings as the lists of their bytes up to the terminator, and the libc calls on them.
use Prim.Native.Nat.{ℕ, ◌≤◌}
use Prim.Native.Char.{code}
use Prim.Native.String.{String}
use mathlib.Core.Path.{◌≡◌, refl, ap, sym, ◌∙◌}
use mathlib.Core.Logic.{◌↔◌}
use mathlib.Core.Bool.{Bool, true, false, ◌&&◌, not}
use mathlib.Core.List.{List, [], ◌∷◌, ◌++◌}
use mathlib.Core.Option.{Option, none, some}
use native.Mathlib.Omega.{arith}
use diversity.Prelude.Tests.{◌==◌, if◌then◌else◌}
use diversity.Prelude.Lists.{length}

abbrev pub Bytes : Type 0
Bytes = List ℕ

-- The bytes of an ASCII text.
abbrev pub codes : String → Bytes
codes String.[] = []
codes (String.◌∷◌ c s) = code c ∷ codes s

-- `strcmp(a, b) == 0`, and equality of counted byte strings
unfoldable pub bytes_eq : Bytes → Bytes → Bool
bytes_eq [] [] = true
bytes_eq [] (b ∷ bs) = false
bytes_eq (a ∷ as') [] = false
bytes_eq (a ∷ as') (b ∷ bs) = a == b && bytes_eq as' bs

-- `strncmp(name, text, strlen(text)) == 0`
unfoldable pub starts_with : Bytes → Bytes → Bool
starts_with name [] = true
starts_with [] (t ∷ ts) = false
starts_with (n ∷ ns) (t ∷ ts) = n == t && starts_with ns ts

pub bytes_eq→eq : (a b : Bytes) → bytes_eq a b ≡ true → a ≡ b
unfolding bytes_eq
bytes_eq→eq [] [] h = refl
bytes_eq→eq [] (b ∷ bs) h = ground arith
bytes_eq→eq (a ∷ as') [] h = ground arith
bytes_eq→eq (a ∷ as') (b ∷ bs) h = ground (arith, bytes_eq→eq as' bs)

pub bytes_eq_self : (a : Bytes) → bytes_eq a a ≡ true
unfolding bytes_eq
bytes_eq_self [] = refl
bytes_eq_self (a ∷ as') = ground (arith, bytes_eq_self as')

pub bytes_eq_iff : (a b : Bytes) → (bytes_eq a b ≡ true) ↔ (a ≡ b)
bytes_eq_iff a b = (bytes_eq→eq a b, λ e. ap (bytes_eq a) (sym e) ∙ bytes_eq_self a)

module _ (p : ℕ → Bool) where
  -- `while (p(*s)) s++`, where `p` fails at the terminator
  abbrev pub skip_while : Bytes → Bytes
  skip_while [] = []
  skip_while (x ∷ xs) = if p x then skip_while xs else x ∷ xs

  -- what such a loop passes over
  abbrev pub span_while : Bytes → Bytes
  span_while [] = []
  span_while (x ∷ xs) = if p x then x ∷ span_while xs else []

  abbrev pub All : Bytes → Type 0
  All [] = Unit
  All (x ∷ xs) = (p x ≡ true) × All xs

  -- `xs` does not begin with a byte of `p`.
  abbrev pub Stops : Bytes → Type 0
  Stops [] = Unit
  Stops (x ∷ xs) = p x ≡ false

  pub span-append-skip : (xs : Bytes) → span_while xs ++ skip_while xs ≡ xs
  span-append-skip [] = refl
  span-append-skip (x ∷ xs) = ground (arith, span-append-skip xs)

  pub skip-Stops : (xs : Bytes) → Stops (skip_while xs)
  skip-Stops [] = tt
  skip-Stops (x ∷ xs) = ground (arith, skip-Stops xs)

  pub span-All : (xs : Bytes) → All (span_while xs)
  span-All [] = tt
  span-All (x ∷ xs) = ground (arith, span-All xs)

  pub skip-append : (xs ys : Bytes) → All xs → Stops ys → skip_while (xs ++ ys) ≡ ys
  skip-append [] [] a s = refl
  skip-append [] (y ∷ ys) a s = ground arith
  skip-append (x ∷ xs) ys a s = ground (arith, skip-append xs ys a.1 s)

  pub span-append : (xs ys : Bytes) → All xs → Stops ys → span_while (xs ++ ys) ≡ xs
  span-append [] [] a s = refl
  span-append [] (y ∷ ys) a s = ground arith
  span-append (x ∷ xs) ys a s = ground (arith, span-append xs ys a.1 s)

  pub length-skip-le : (xs : Bytes) → length (skip_while xs) ≤ length xs
  length-skip-le [] = omega arith
  length-skip-le (x ∷ xs) = ground (arith, length-skip-le xs)

-- The separator behind a token is overwritten by a terminator, and the search goes on behind it.
abbrev pub behind : Bytes → Bytes
behind [] = []
behind (x ∷ xs) = xs

abbrev token_at : (ℕ → Bool) → Bytes → Option (Bytes × Bytes)
token_at sep [] = none
token_at sep (c ∷ cs) =
    some (span_while (λ x. not (sep x)) (c ∷ cs), behind (skip_while (λ x. not (sep x)) (c ∷ cs)))

-- `strtok` with a set of separators: the next token and what is left behind it; `none` is NULL.
unfoldable pub token : (ℕ → Bool) → Bytes → Option (Bytes × Bytes)
token sep text = token_at sep (skip_while sep text)
