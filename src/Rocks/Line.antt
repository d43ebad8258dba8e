-- ===== src/Rocks/Line.antt =====
-- rocksdb_playground/src/main.c, the cutting of lines: `stripwhite`, the two words of `execute_line`
-- and the tokens of `com_write`. A line is the list of its bytes before the terminator, and an index
-- that only moves forward is the suffix that is left. `white` is readline's macro `whitespace`,
-- which fails at the terminator.
pub mod Strip
pub mod Words
use diversity.Prelude.{
  ℕ, zero, suc, Bool, not, Option, none, some, [], ◌∷◌, ◌==◌, if◌then◌else◌, length, get_or, take,
  Bytes, skip_while, span_while, behind, token,
}

module _ (white : ℕ → Bool) where
  -- `while (t > s && whitespace(*t)) t--;` from `t` on, then `*++t = 0`
  unfoldable pub cut_back : Bytes → ℕ → Bytes
  cut_back s zero = take 1 s
  cut_back s (suc t) = if white (get_or s (suc t) 0) then cut_back s t else take (suc (suc t)) s

  abbrev pub strip_end : Bytes → Bytes
  strip_end [] = []
  strip_end (x ∷ xs) = cut_back (x ∷ xs) (length xs)

  unfoldable pub stripwhite : Bytes → Bytes
  stripwhite text = strip_end (skip_while white text)

  -- The first word of a line and the argument, as `execute_line` cuts them.
  unfoldable pub command_word : Bytes → Bytes
  command_word line = span_while (λ c. not (white c)) (skip_while white line)

  unfoldable pub argument : Bytes → Bytes
  argument line =
      skip_while white (behind (skip_while (λ c. not (white c)) (skip_while white line)))

-- `strtok(arg, " ")`, then `strtok(NULL, " ")`: the key and the value of a write.
abbrev pub blank : ℕ → Bool
blank c = c == b' '

pub data WriteArgs : Type 0 where
  no_key no_value : WriteArgs
  pair : Bytes → Bytes → WriteArgs

abbrev pub value_of : Bytes → Option (Bytes × Bytes) → WriteArgs
value_of key none = no_value
value_of key (some (value, rest)) = pair key value

abbrev pub key_of : Option (Bytes × Bytes) → WriteArgs
key_of none = no_key
key_of (some (key, rest)) = value_of key (token blank rest)

unfoldable pub write_args : Bytes → WriteArgs
write_args arg = key_of (token blank arg)
