-- ===== src/Checksum/Csum.antt =====
-- checksum/main.c, `csum`, on a little-endian machine: the unsigned 16-bit words of a buffer.
pub mod Sum
use diversity.Prelude.{ℕ, ◌+◌, ◌-◌, ◌*◌, ◌/◌, ◌%◌, [], ◌∷◌, Bytes}

-- The loop over the words; a byte that is left is the low byte of a word. `sum` is a long of 64 bits.
unfoldable pub word_sum : Bytes → ℕ → ℕ
word_sum [] sum = sum
word_sum (b ∷ []) sum = sum + b
word_sum (lo ∷ hi ∷ bs) sum = word_sum bs (sum + (lo + 256 * hi))

abbrev pub folded : ℕ → ℕ
folded sum = sum / 65536 + sum % 65536

-- The two folds, and the complement of what fits 16 bits.
abbrev pub complemented : ℕ → ℕ
complemented sum = let sum' = folded sum in 65535 - (sum' + sum' / 65536) % 65536

unfoldable pub csum : Bytes → ℕ
csum bytes = complemented (word_sum bytes 0)
