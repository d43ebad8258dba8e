-- ===== src/Serial/Wire.antt =====
-- The bytes of the structures that the client and the server send, on a little-endian machine with 64 bits, and C
-- strings in a buffer.
use diversity.Prelude.{
  ℕ, zero, suc, ◌+◌, ◌-◌, ◌*◌, ◌/◌, ◌%◌, ◌^◌, ◌<◌, ◌≡◌, refl, sym, ap, ◌∙◌, not, Option, none, some,
  [], ◌∷◌, ◌++◌, arith, ltb, ◌==◌, if◌then◌else◌, ◌>>=◌, take, drop, Bytes, All,
}
use diversity.Prelude.Int.{ℤ, pos, negsuc}
use diversity.Latency.{Timespec, wrapped}

abbrev pub le_bytes : ℕ → ℕ → Bytes
le_bytes zero w = []
le_bytes (suc k) w = w % 256 ∷ le_bytes k (w / 256)

abbrev pub from_le : Bytes → ℕ
from_le [] = 0
from_le (b ∷ bs) = b + 256 * from_le bs

-- A long from its 64 bits
abbrev pub to_long : ℕ → ℤ
to_long w = if ltb w (2 ^ 63) then pos w else negsuc (2 ^ 64 - 1 - w)

-- The values of a long
abbrev pub IsLong : ℤ → Type 0
IsLong (pos n) = n < 2 ^ 63
IsLong (negsuc n) = n < 2 ^ 63

-- `struct timespec`: seconds, then nanoseconds
abbrev pub timespec_bytes : Timespec → Bytes
timespec_bytes ts = le_bytes 8 (wrapped ts.tv_sec) ++ le_bytes 8 (wrapped ts.tv_nsec)

abbrev pub timespec_of : Bytes → Timespec
timespec_of bs = record {
  tv_sec = to_long (from_le (take 8 bs));
  tv_nsec = to_long (from_le (take 8 (drop 8 bs)));
}

-- What `%s` prints; `none` if no terminator stands before the end of the buffer.
abbrev pub c_string : Bytes → Option Bytes
c_string [] = none
c_string (b ∷ bs) = do if b == 0 then some [] else (do s ← c_string bs; some (b ∷ s))

-- Nothing of `w` is left behind its low `k` bytes.
abbrev Fits : ℕ → ℕ → Type 0
Fits zero w = w ≡ 0
Fits (suc k) w = Fits k (w / 256)

from_le_fitting : (k w : ℕ) → Fits k w → from_le (le_bytes k w) ≡ w
from_le_fitting zero w h = sym h
from_le_fitting (suc k) w h = omega (arith, from_le_fitting k (w / 256) h)

four_fit : (w : ℕ) → w < 2 ^ 32 → w / 256 / 256 / 256 / 256 ≡ 0
four_fit w h = omega arith

pub from_le-le_bytes : (w : ℕ) → w < 2 ^ 64 → from_le (le_bytes 8 w) ≡ w
from_le-le_bytes w h = from_le_fitting 8 w (four_fit (w / 256 / 256 / 256 / 256) (omega arith))

pub to_long-wrapped : (z : ℤ) → IsLong z → to_long (wrapped z) ≡ z
to_long-wrapped (pos n) h = ground (arith, ap pos {x = n % 2 ^ 64} {y = n} (omega arith))
to_long-wrapped (negsuc n) h =
    ground (arith, ap negsuc {x = 2 ^ 64 - 1 - (2 ^ 64 - 1 - n % 2 ^ 64)} {y = n} (omega arith))

wrapped-bounded : (z : ℤ) → wrapped z < 2 ^ 64
wrapped-bounded (pos n) = omega arith
wrapped-bounded (negsuc n) = omega arith

pub long_of : (z : ℤ) → IsLong z → to_long (from_le (le_bytes 8 (wrapped z))) ≡ z
long_of z h = ap to_long (from_le-le_bytes (wrapped z) (wrapped-bounded z)) ∙ to_long-wrapped z h

pub c_string-append :
    (s rest : Bytes) → All (λ b. not (b == 0)) s → c_string (s ++ 0 ∷ rest) ≡ some s
c_string-append [] rest h = refl
c_string-append (b ∷ s) rest h = ground (arith, c_string-append s rest)
