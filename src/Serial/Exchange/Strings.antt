-- ===== src/Serial/Exchange/Strings.antt =====
-- The random strings have no terminator but their last byte.
use diversity.Prelude.{
  ℕ, zero, suc, ◌%◌, ◌<◌, ◌≡◌, refl, Bool, true, ◌&&◌, not, [], ◌∷◌, arith, ◌==◌, length, get_or,
  Bytes, All,
}
use diversity.Serial.Client.{alphanum, letters}

abbrev pub not_end : ℕ → Bool
not_end b = not (b == 0)

get_or-All : (xs : Bytes) (k : ℕ) → All not_end xs → k < length xs → not_end (get_or xs k 0) ≡ true
get_or-All [] k a h = absurd (omega (arith, h))
get_or-All (x ∷ xs) zero a h = a.0
get_or-All (x ∷ xs) (suc k) a h = get_or-All xs k a.1 (omega (arith, h))

-- The same, as a test
abbrev all_letters : Bytes → Bool
all_letters [] = true
all_letters (x ∷ xs) = not_end x && all_letters xs

all_letters-All : (xs : Bytes) → all_letters xs ≡ true → All not_end xs
all_letters-All [] h = tt
all_letters-All (x ∷ xs) h = ground (arith, all_letters-All xs)

alphanum-All : All not_end alphanum
alphanum-All = all_letters-All alphanum refl

pub letters-All : (rand : ℕ → ℕ) (i n : ℕ) → All not_end (letters rand i n)
unfolding letters
letters-All rand i zero = tt
letters-All rand i (suc n) =
    (get_or-All alphanum (rand i % 36) alphanum-All (omega arith), letters-All rand (suc i) n)
