-- ===== src/Serial/Client.antt =====
-- struct_serialization/src/client.c: `random_string`, `send_request` and `readcb`. What is not initialised, and what
-- `rand` and the clock give, are parameters.
use diversity.Prelude.{
  ℕ, zero, suc, ◌-◌, ◌%◌, Bool, not, Option, none, some, [], ◌∷◌, ◌++◌, if◌then◌else◌, ◌>>=◌,
  length, get_or, take, drop, replicate, Bytes, codes,
}
use diversity.Prelude.Frames.{Four, bytes4, field, le32, le32_at}
use diversity.Latency.{Timespec, timespec_diff}
use diversity.Message.{message_length, create_client_request}
use diversity.Serial.Wire.{timespec_bytes, timespec_of, c_string}

abbrev pub data_size : ℕ
data_size = 16

abbrev pub alphanum : Bytes
alphanum = codes "0123456789abcdefghijklmnopqrstuvwxyz"

-- The letters from the call `i` of `rand` on
unfoldable pub letters : (ℕ → ℕ) → ℕ → ℕ → Bytes
letters rand i zero = []
letters rand i (suc n) = get_or alphanum (rand i % 36) 0 ∷ letters rand (suc i) n

-- `none` is a write before the string.
unfoldable pub random_string : (ℕ → ℕ) → ℕ → Option Bytes
random_string rand zero = none
random_string rand (suc n) = some (letters rand 0 n ++ 0 ∷ [])

-- What a request is made from: the random numbers, the bytes that the allocation holds from `content` on, those
-- between `length` and `ts`, and the time.
pub record Inputs : Type 0 where
  pub rand : ℕ → ℕ
  pub garbage : Bytes
  pub padding : Four
  pub ts : Timespec

-- The bytes that are written to the connection.
unfoldable pub send_request : Inputs → Option Bytes
send_request i = do
  data_to_send ← random_string i.rand data_size
  request ← create_client_request i.garbage data_to_send
  some (
      take request.length_field (
        le32 request.length_field
        ++ (bytes4 i.padding ++ (timespec_bytes i.ts ++ request.content))))

-- The two lines that are printed.
pub record Printed : Type 0 where
  pub content : Bytes
  pub size : ℕ
  pub elapsed : Timespec

-- The lines for a response, received at `end`, in its buffer of 128 bytes; `none` is a read behind the buffer, or a long that overflows.
unfoldable pub print_response : Bytes → Timespec → Option Printed
print_response buffer end = do
  content ← c_string (drop 24 buffer)
  diff ← timespec_diff end (timespec_of (field buffer 8 16))
  some record {
    content = content;
    size = message_length record { length_field = le32_at buffer 0; content = drop 24 buffer };
    elapsed = diff.0;
  }

-- What a read does: nothing where the buffer gives no bytes; else the lines, the next request, and what is left of the
-- input.
pub data Reading : Type 0 where
  ignored : Reading
  answered : Printed → Bytes → Bytes → Reading

-- `removed` says that `evbuffer_remove` succeeded.
unfoldable pub readcb : Bool → Bytes → Timespec → Inputs → Option Reading
readcb removed input end next =
    let received = take 128 input in
    let read = do
      printed ← print_response (received ++ replicate (128 - length received) 0) end
      request ← send_request next
      some (answered printed request (drop 128 input))
    in if not removed then some ignored else read
