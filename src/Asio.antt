-- ===== src/Asio.antt =====
-- client_server/asio: the UDP server and client on asio. What asio stores of a datagram is its first bytes, as many
-- as the buffer has; a string stream reads an unsigned number as the C library does.
pub mod Server
pub mod Client
pub mod Exchange
mod Tests
use diversity.Prelude.{
  ℕ, ◌-◌, ◌%◌, ◌^◌, Bool, true, false, Option, none, some, [], ◌∷◌, ◌++◌, ltb, ◌==◌, if◌then◌else◌,
  ◌>>=◌, length, take, drop, Bytes, skip_while, span_while,
}
use diversity.Net.Numbers.{is_digit, is_space, value_from}

-- The completion of `async_receive_from`: data, also a datagram cut to the buffer, or another error.
pub data Reception : Type 0 where
  received : Bytes → Reception
  failed : Reception

-- The bytes behind those that are stored stay.
abbrev pub stored : ℕ → Bytes → Bytes → Bytes
stored size d buffer = take size d ++ drop (length (take size d)) buffer

-- The text of a buffer; `none` is a read behind it.
unfoldable pub up_to_zero : Bytes → Option Bytes
up_to_zero [] = none
up_to_zero (b ∷ bs) =
    let rest = up_to_zero bs in if b == 0 then some [] else (do r ← rest; some (b ∷ r))

-- The digits at the front as a 64-bit number; a minus takes it from 2 ^ 64.
abbrev pub number_of : Bool → Bytes → Option ℕ
number_of minus [] = none
number_of minus (d ∷ ds) =
    let n = value_from 0 (d ∷ ds) in
    if ltb n (2 ^ 64) then some (if minus then (2 ^ 64 - n) % 2 ^ 64 else n) else none

abbrev pub signed_number : Bytes → Option ℕ
signed_number [] = none
signed_number (c ∷ cs) =
    if c == 45
    then number_of true (span_while is_digit cs)
    else number_of false (span_while is_digit (if c == 43 then cs else c ∷ cs))

-- `iss >> start_ns`
unfoldable pub read_uint64 : Bytes → Option ℕ
read_uint64 text = signed_number (skip_while is_space text)
