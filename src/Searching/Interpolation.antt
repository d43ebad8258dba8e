-- ===== src/Searching/Interpolation.antt =====
-- `interpolation_search` of c++/src/searching.cpp.
use diversity.Prelude.Int.{ℤ}
use diversity.Prelude.Int.{pos_part, sub_ℕ, pos, neg_part, ◌-ℤ◌}
use diversity.Prelude.Int.{negsuc, ◌+ℤ◌}
use diversity.Prelude.Int.{ltb_ℤ}
use diversity.Prelude.{
  ℕ, zero, suc, ◌+◌, ◌*◌, ◌/◌, Bool, not, Option, none, some, List, ltb, ◌==◌, if◌then◌else◌, ◌>>=◌,
}
use diversity.Prelude.Arrays.{read}
use diversity.Searching.{eq_ℤ}

abbrev magnitude : ℤ → ℕ
magnitude a = pos_part a + neg_part a

abbrev with_sign : Bool → ℕ → ℤ
with_sign minus n = if minus then sub_ℕ 0 n else pos n

abbrev is_negative : ℤ → Bool
is_negative a = ltb 0 (neg_part a)

abbrev pub mul_ℤ : ℤ → ℤ → ℤ
mul_ℤ a b =
    with_sign (if is_negative a then not (is_negative b) else is_negative b)
      (magnitude a * magnitude b)

-- `a / b` drops the fraction; a division by 0 is `none`.
abbrev pub div_ℤ : ℤ → ℤ → Option ℤ
div_ℤ a b =
    if magnitude b == 0
    then none
    else some (
        with_sign (if is_negative a then not (is_negative b) else is_negative b)
          (magnitude a / magnitude b))

abbrev pub read_int : List ℤ → ℤ → Option ℤ
read_int a (pos i) = read a i
read_int a (negsuc i) = none

-- The fuel bounds the turns of the loop; `none` is a fault, or fuel that ran out.
unfoldable pub interpolate : ℕ → List ℤ → ℤ → ℤ → ℤ → Option ℤ
interpolate zero a low high x = none
interpolate (suc fuel) a low high x =
    let turn = (do
      h ← read_int a high
      l ← read_int a low
      q ← div_ℤ (high -ℤ low) (h -ℤ l)
      (let mid = low +ℤ mul_ℤ q (x -ℤ l) in
          do
            y ← read_int a mid
            (let right = interpolate fuel a (mid +ℤ pos 1) high x in
                let left = interpolate fuel a low (mid -ℤ pos 1) x in
                if eq_ℤ y x then some mid else if ltb_ℤ y x then right else left))) in
    if ltb_ℤ high low then some (negsuc 0) else turn

unfoldable pub interpolation_search : ℕ → List ℤ → ℕ → ℤ → Option ℤ
interpolation_search fuel a n x = interpolate fuel a (pos 0) (pos n -ℤ pos 1) x
