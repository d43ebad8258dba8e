-- ===== src/Message.antt =====
-- struct_serialization/src/message.c and struct_serialization/include/message.h: messages of a variable length. With a timespec of 16 bytes the
-- structure has 32 bytes, and the content begins at 24.
pub mod Length
mod Tests
use diversity.Prelude.{
  ℕ, ◌+◌, ◌-◌, ◌%◌, ◌^◌, Option, none, some, ◌++◌, leb, if◌then◌else◌, length, drop, Bytes,
}

-- `struct client_request`: `length`, and the bytes of the allocation from `content` on.
pub record ClientRequest : Type 0 where
  pub length_field : ℕ
  pub content : Bytes

unfoldable pub message_length : ClientRequest → ℕ
message_length request = (request.length_field + 2 ^ 32 - 31) % 2 ^ 32

abbrev pub message_size : ℕ → ℕ
message_size data_size = (32 + data_size + 2 ^ 32 - 1) % 2 ^ 32

-- `garbage` is what the allocation holds from `content` on; `none` is a write behind it.
unfoldable pub create_client_request : Bytes → Bytes → Option ClientRequest
create_client_request garbage data' =
    if leb (24 + length data') (message_size (length data'))
    then some (record {
      length_field = message_size (length data');
      content = data' ++ drop (length data') garbage;
    })
    else none
