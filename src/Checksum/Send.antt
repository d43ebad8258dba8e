-- ===== src/Checksum/Send.antt =====
-- checksum/main.c: `init_rawsock` and `paxos_send` on the datagram, on a little-endian machine. The headers
-- are the first 28 bytes. `none` is a write or a read outside the datagram.
pub mod First
use diversity.Prelude.{
  ℕ, suc, ◌+◌, ◌*◌, ◌/◌, ◌%◌, Bool, ◌&&◌, Option, none, some, [], ◌∷◌, leb, if◌then◌else◌, length,
  get_or, set, take, replicate, Bytes,
}
use diversity.Checksum.Csum.{csum}

-- An unsigned short, and a 32-bit address, as they stand in memory
unfoldable pub write16 : Bytes → ℕ → ℕ → Bytes
write16 d i v = set (set d i (v % 256)) (i + 1) (v / 256 % 256)

unfoldable pub read16 : Bytes → ℕ → ℕ
read16 d i = get_or d i 0 + 256 * get_or d (i + 1) 0

abbrev pub write32 : Bytes → ℕ → ℕ → Bytes
write32 d i v = write16 (write16 d i (v % 65536)) (i + 2) (v / 65536)

-- `memcpy` and `memset` into the datagram
unfoldable pub write_bytes : Bytes → ℕ → Bytes → Bytes
write_bytes d i [] = d
write_bytes d i (b ∷ bs) = write_bytes (set d i b) (suc i) bs

abbrev pub swap16 : ℕ → ℕ
swap16 v = v % 256 * 256 + v / 256 % 256

abbrev pub swap32 : ℕ → ℕ
swap32 v = swap16 (v % 65536) * 65536 + swap16 (v / 65536)

-- `struct sockaddr_in`: what is stored in `sin_port` and in `sin_addr.s_addr`
pub record SockaddrIn : Type 0 where
  pub sin_port : ℕ
  pub s_addr : ℕ

-- PAXOS_LEN is 102; `ihl` and `version` share the first byte.
unfoldable pub init_rawsock : Bytes → SockaddrIn → SockaddrIn → Bytes
init_rawsock datagram mine dest =
    let d = write_bytes datagram 0 (replicate 102 0) in
    let d = set d 0 (get_or d 0 0 / 16 * 16 + 5) in
    let d = set d 0 (get_or d 0 0 % 16 + 4 * 16) in
    let d = set d 1 0 in
    let d = write16 d 4 (swap32 54321 % 65536) in
    let d = write16 d 6 0 in
    let d = set d 8 255 in
    let d = set d 9 17 in
    let d = write16 d 10 0 in
    let d = write32 d 12 mine.s_addr in
    let d = write32 d 16 dest.s_addr in
    let d = write16 d 20 mine.sin_port in let d = write16 d 22 dest.sin_port in write16 d 26 0

-- The fields that the call sets in the headers, in its order: `check`, `tot_len`, `len` and `check`
-- of UDP.
unfoldable pub set_headers : Bytes → ℕ → ℕ → Bytes
set_headers d check msglen =
    let d1 = write16 d 10 check in
    let d2 = write16 d1 2 (28 + msglen) in
    let d3 = write16 d2 24 (swap16 (8 + msglen)) in write16 d3 26 0

-- The datagram after the call, and the bytes that `sendto` is given.
abbrev pub sent : Bytes → Bytes × Bytes
sent d = (d, take (read16 d 2) d)

abbrev pub inside : Bytes → ℕ → Bool
inside d n = leb n (length d)

unfoldable pub paxos_send : Bytes → Bytes → Option (Bytes × Bytes)
paxos_send datagram msg =
    let d = write_bytes datagram 28 msg in
    let tot_len = read16 d 2 in
    let d' = set_headers d (csum (take tot_len d)) (length msg) in
    if inside datagram (28 + length msg) && inside d tot_len && inside d' (read16 d' 2)
    then some (sent d')
    else none
