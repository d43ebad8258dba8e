-- ===== src/Checksum/Csum/Sum.antt =====
-- What the checksum of a buffer verifies.
use diversity.Prelude.{
  ℕ, ◌+◌, ◌*◌, ◌/◌, ◌%◌, ◌≤◌, ◌<◌, ◌≡◌, refl, ap, ◌∙◌, [], ◌∷◌, ◌++◌, arith, length, Bytes,
}
use diversity.Checksum.Csum.{word_sum, complemented, csum}

abbrev pub IsBytes : Bytes → Type 0
IsBytes [] = Unit
IsBytes (b ∷ bs) = (b < 256) × IsBytes bs

word_sum-le : (bs : Bytes) (n : ℕ) → IsBytes bs → word_sum bs n ≤ n + 65535 * length bs
unfolding word_sum
word_sum-le [] n h = omega arith
word_sum-le (b ∷ []) n h = omega (arith, h.0)
word_sum-le (lo ∷ hi ∷ bs) n h =
    omega (arith, h.0, h.1.0, word_sum-le bs (n + (lo + 256 * hi)) h.1.1)

pub word_sum-add : (bs : Bytes) (n m : ℕ) → word_sum bs (n + m) ≡ word_sum bs n + m
unfolding word_sum
word_sum-add [] n m = refl
word_sum-add (b ∷ []) n m = omega arith
word_sum-add (lo ∷ hi ∷ bs) n m =
    ap (word_sum bs) {y = n + (lo + 256 * hi) + m} (omega arith)
    ∙ word_sum-add bs (n + (lo + 256 * hi)) m

-- A word inside the buffer counts as much as it is.
word_sum_field :
    (before after : Bytes) (lo hi n : ℕ)
    → length before % 2 ≡ 0
    → word_sum (before ++ lo ∷ hi ∷ after) n
      ≡ word_sum (before ++ 0 ∷ 0 ∷ after) n + (lo + 256 * hi)
unfolding word_sum
word_sum_field [] after lo hi n h =
    ap (word_sum after) {y = n + 0 + (lo + 256 * hi)} (omega arith)
    ∙ word_sum-add after (n + 0) (lo + 256 * hi)
word_sum_field (b ∷ []) after lo hi n h = absurd (omega arith)
word_sum_field (b ∷ c ∷ before) after lo hi n h =
    word_sum_field before after lo hi (n + (b + 256 * c)) (omega arith)

complemented_lem :
    (s : ℕ)
    → s ≤ 65535 * 65535
    → let c = complemented s in (complemented (s + (c % 256 + 256 * (c / 256))) ≡ 0)
complemented_lem s h = omega arith

-- The checksum of a buffer of at most 65535 bytes, stored, low byte first, in the field at an even place that
-- was 0 when it was computed, it makes the checksum of the whole buffer 0.
pub csum_verifies :
    (before after : Bytes)
    → length before % 2 ≡ 0
    → IsBytes (before ++ 0 ∷ 0 ∷ after)
    → length (before ++ 0 ∷ 0 ∷ after) ≤ 65535
    → let c = csum (before ++ 0 ∷ 0 ∷ after) in (csum (before ++ c % 256 ∷ c / 256 ∷ after) ≡ 0)
unfolding csum
csum_verifies before after e h l =
    let s = word_sum (before ++ 0 ∷ 0 ∷ after) 0 in
    let c = complemented s in
    ap complemented {y = s + (c % 256 + 256 * (c / 256))}
      (word_sum_field before after (c % 256) (c / 256) 0 e ∙ refl)
    ∙ complemented_lem s (omega (arith, word_sum-le (before ++ 0 ∷ 0 ∷ after) 0 h))
