-- ===== src/Sniffer/Rows.antt =====
-- libpcap/sniffex.c: `print_payload` and `print_hex_ascii_line`. A pointer is the list of the bytes from it to the
-- end of what was captured; `none` is a read behind them.
pub mod Cover
use diversity.Prelude.{
  ℕ, zero, suc, ◌+◌, ◌-◌, ◌*◌, ◌/◌, ◌%◌, ◌&&◌, Option, none, some, List, [], ◌∷◌, ◌++◌, map, ltb,
  leb, ◌==◌, if◌then◌else◌, ◌>>=◌, length, take, drop, replicate, Bytes,
}
use diversity.Net.Numbers.{decimal}

-- The arguments of one `print_hex_ascii_line`: `offset`, and the `len` bytes at `payload`.
pub record Row : Type 0 where
  pub offset : ℕ
  pub bytes : Bytes

abbrev pub row_at : Bytes → ℕ → ℕ → Option Row
row_at ch len offset =
    if leb len (length ch) then some (record { offset = offset; bytes = take len ch }) else none

abbrev pub one_row : Bytes → ℕ → ℕ → Option (List Row)
one_row ch len offset = do row ← row_at ch len offset; some (row ∷ [])

abbrev pub followed : Option Row → Option (List Row) → Option (List Row)
followed row rows = do r ← row; rs ← rows; some (r ∷ rs)

-- The loop over the rows; the fuel is an upper bound of `len_rem`.
unfoldable pub payload_rows : ℕ → Bytes → ℕ → ℕ → Option (List Row)
payload_rows zero ch len_rem offset = none
payload_rows (suc fuel) ch len_rem offset =
    let line_len = 16 % len_rem in
    let rem = len_rem - line_len in
    let next = drop line_len ch in
    let more = payload_rows fuel next rem (offset + 16) in
    followed (row_at ch line_len offset)
      (if leb rem 16 then one_row next rem (offset + 16) else more)

unfoldable pub print_payload : Bytes → ℕ → Option (List Row)
print_payload payload len =
    if len == 0
    then some []
    else if leb len 16
    then one_row payload len 0
    else payload_rows len payload len 0

abbrev hex_digit : ℕ → ℕ
hex_digit d = if ltb d 10 then 48 + d else 87 + d

abbrev spaces : ℕ → Bytes
spaces n = replicate n 32

-- The loop over the bytes from the `i`th on, with a space behind the eighth.
unfoldable pub hex_from : ℕ → Bytes → Bytes
hex_from i [] = []
hex_from i (b ∷ bs) =
    hex_digit (b / 16)
    ∷ hex_digit (b % 16)
    ∷ 32
    ∷ ((if i == 7 then 32 ∷ [] else []) ++ hex_from (suc i) bs)

-- The hex column with the spaces that fill it.
unfoldable pub hex_column : Bytes → Bytes
hex_column bs =
    hex_from 0 bs ++ ((if ltb (length bs) 8 then 32 ∷ [] else []) ++ spaces (3 * (16 - length bs)))

-- `isprint` in the C locale
abbrev printed : ℕ → ℕ
printed c = if leb 32 c && leb c 126 then c else 46

abbrev padded : Bytes → Bytes
padded ds = replicate (5 - length ds) 48 ++ ds

unfoldable pub print_hex_ascii_line : Row → Bytes
print_hex_ascii_line r =
    padded (decimal r.offset)
    ++ spaces 3
    ++ hex_column r.bytes
    ++ spaces 3
    ++ map printed r.bytes
    ++ 10 ∷ []
