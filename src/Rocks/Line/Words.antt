-- ===== src/Rocks/Line/Words.antt =====
-- What `execute_line` and `com_write` cut out of a line that is laid out as it should be.
use diversity.Prelude.{
  ℕ, ◌≡◌, refl, sym, Bool, true, false, not, some, [], ◌∷◌, ◌++◌, append-nil, Bytes, All, Stops,
  skip-append, span-append, behind, token,
}
use diversity.Rocks.Line.{command_word, argument, blank, pair, write_args}

module _ (white : ℕ → Bool) where
  Stops-not : (w : ℕ) (xs : Bytes) → white w ≡ true → Stops (λ c. not (white c)) (w ∷ xs)
  Stops-not w xs e = rw e

  -- A line of white space, a word, at least one white byte and more white space, and an argument
  -- that does not begin with white space is cut into the word and the argument, whatever the
  -- argument holds.
  pub line_parts :
      (pre cs gap arg : Bytes) (c w : ℕ)
      → All white pre
      → All (λ x. not (white x)) (c ∷ cs)
      → white c ≡ false
      → white w ≡ true
      → All white gap
      → Stops white arg
      → let line = pre ++ (c ∷ cs ++ (w ∷ gap ++ arg)) in
        (command_word white line ≡ c ∷ cs) × (argument white line ≡ arg)
  unfolding command_word argument
  line_parts pre cs gap arg c w a b s e g t =
      let stop = Stops-not w (gap ++ arg) e in
      rw
        (
          skip-append white pre (c ∷ cs ++ (w ∷ gap ++ arg)) a s,
          span-append (λ x. not (white x)) (c ∷ cs) (w ∷ gap ++ arg) b stop,
          skip-append (λ x. not (white x)) (c ∷ cs) (w ∷ gap ++ arg) b stop,
        )
        (refl, skip-append white gap arg g t)

  -- A line that is one word is cut into the word and an empty argument.
  pub line_word :
      (pre cs : Bytes) (c : ℕ)
      → All white pre
      → All (λ x. not (white x)) (c ∷ cs)
      → white c ≡ false
      → (command_word white (pre ++ (c ∷ cs)) ≡ c ∷ cs) × (argument white (pre ++ (c ∷ cs)) ≡ [])
  unfolding command_word argument
  line_word pre cs c a b s =
      rw
        (
          skip-append white pre (c ∷ cs) a s,
          ← append-nil cs,
          span-append (λ x. not (white x)) (c ∷ cs) [] b tt,
          skip-append (λ x. not (white x)) (c ∷ cs) [] b tt,
        )
        (sym (append-nil (c ∷ cs)), refl)

-- A text behind blanks, up to a blank or the end, is the next token.
token_lem :
    (pre ks rest : Bytes) (k : ℕ)
    → All blank pre
    → All (λ x. not (blank x)) (k ∷ ks)
    → blank k ≡ false
    → Stops (λ x. not (blank x)) rest
    → token blank (pre ++ (k ∷ ks ++ rest)) ≡ some (k ∷ ks, behind rest)
unfolding token
token_lem pre ks rest k a b c g = rw (
  skip-append blank pre (k ∷ ks ++ rest) a c,
  span-append (λ x. not (blank x)) (k ∷ ks) rest b g,
  skip-append (λ x. not (blank x)) (k ∷ ks) rest b g,
)

-- `com_write` reads two texts without blanks, set apart by any number of blanks, as the key and the
-- value, and drops what stands behind a blank after the value.
pub write_args_pair :
    (pre ks gap vs rest : Bytes) (k v : ℕ)
    → All blank pre
    → All (λ x. not (blank x)) (k ∷ ks)
    → blank k ≡ false
    → All blank gap
    → All (λ x. not (blank x)) (v ∷ vs)
    → blank v ≡ false
    → Stops (λ x. not (blank x)) rest
    → write_args (pre ++ (k ∷ ks ++ (b' ' ∷ gap ++ (v ∷ vs ++ rest)))) ≡ pair (k ∷ ks) (v ∷ vs)
unfolding write_args
write_args_pair pre ks gap vs rest k v a b c d e f g = rw (
  token_lem pre ks (b' ' ∷ gap ++ (v ∷ vs ++ rest)) k a b c refl,
  token_lem gap vs rest v d e f g,
)
