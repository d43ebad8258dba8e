-- ===== src/Message/Length.antt =====
-- The length of a message is that of its data.
use diversity.Prelude.{
  ℕ, ◌+◌, ◌-◌, ◌%◌, ◌^◌, ◌<◌, ◌≡◌, true, some, ◌++◌, arith, leb, length, take, drop, take-append,
  Bytes,
}
use diversity.Message.{ClientRequest, message_length, message_size, create_client_request}

fits : (n : ℕ) → n + 31 < 2 ^ 32 → leb (24 + n) (message_size n) ≡ true
fits n h = ground arith

size_lem : (n : ℕ) → n + 31 < 2 ^ 32 → (message_size n + 2 ^ 32 - 31) % 2 ^ 32 ≡ n
size_lem n h = omega arith

-- For data whose size and 31 bytes more fit an unsigned int, a created message stays inside its
-- allocation, has the length of the data, and that many bytes of its content are the data.
pub create_client_request-message_length :
    (garbage data' : Bytes)
    → length data' + 31 < 2 ^ 32
    → (r : ClientRequest) × (create_client_request garbage data' ≡ some r)
      × (message_length r ≡ length data')
      × (take (message_length r) r.content ≡ data')
unfolding create_client_request message_length
create_client_request-message_length garbage data' h =
    let n = length data' in
    let r : ClientRequest = record {
      length_field = message_size n;
      content = data' ++ drop n garbage;
    } in
    (r, rw (fits n h), size_lem n h, rw (size_lem n h) (take-append data' (drop n garbage)))
