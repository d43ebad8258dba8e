-- ===== src/Checksum/Send/First.antt =====
-- What the first packet carries.
use diversity.Prelude.{
  ℕ, suc, ◌+◌, ◌/◌, ◌%◌, ◌≤◌, ◌<◌, ◌≡◌, refl, ◌∙◌, ◌≢◌, true, some, [], ◌∷◌, arith, length, get_or,
  set, take, length-set, get_or-set_self, get_or-set_ne, Bytes,
}
use diversity.Checksum.Csum.{word_sum, csum}
use diversity.Checksum.Send.{write16, read16, write_bytes, swap16, set_headers, inside, paxos_send}

length-write_bytes : (d : Bytes) (i : ℕ) (bs : Bytes) → length (write_bytes d i bs) ≡ length d
unfolding write_bytes
length-write_bytes d i [] = refl
length-write_bytes d i (b ∷ bs) = length-write_bytes (set d i b) (suc i) bs ∙ length-set d i b

get_or-write_bytes :
    (d : Bytes) (i j : ℕ) (bs : Bytes) → j < i → get_or (write_bytes d i bs) j 0 ≡ get_or d j 0
unfolding write_bytes
get_or-write_bytes d i j [] h = refl
get_or-write_bytes d i j (b ∷ bs) h =
    get_or-write_bytes (set d i b) (suc i) j bs (omega arith)
    ∙ get_or-set_ne d i j b 0 (λ e. omega arith)

read16-write_bytes :
    (d : Bytes) (i j : ℕ) (bs : Bytes) → suc j < i → read16 (write_bytes d i bs) j ≡ read16 d j
unfolding read16
read16-write_bytes d i j bs h = omega (
  arith,
  get_or-write_bytes d i j bs (omega arith),
  get_or-write_bytes d i (j + 1) bs (omega arith),
)

length-write16 : (d : Bytes) (i v : ℕ) → length (write16 d i v) ≡ length d
unfolding write16
length-write16 d i v =
    length-set (set d i (v % 256)) (i + 1) (v / 256 % 256) ∙ length-set d i (v % 256)

get_or-write16 :
    (d : Bytes) (i j v : ℕ) → i ≢ j → i + 1 ≢ j → get_or (write16 d i v) j 0 ≡ get_or d j 0
unfolding write16
get_or-write16 d i j v h k =
    get_or-set_ne (set d i (v % 256)) (i + 1) j (v / 256 % 256) 0 k
    ∙ get_or-set_ne d i j (v % 256) 0 h

read16-write16_other :
    (d : Bytes) (i j v : ℕ) → i ≢ j → i + 1 ≢ j → i ≢ j + 1 → read16 (write16 d i v) j ≡ read16 d j
unfolding read16
read16-write16_other d i j v a b c =
    omega (arith, get_or-write16 d i j v a b, get_or-write16 d i (j + 1) v c (λ e. a (omega arith)))

read16-write16 : (d : Bytes) (i v : ℕ) → i + 1 < length d → v < 65536 → read16 (write16 d i v) i ≡ v
unfolding read16 write16
read16-write16 d i v h k = omega (
  arith,
  get_or-set_ne (set d i (v % 256)) (i + 1) i (v / 256 % 256) 0 (λ e. omega arith),
  get_or-set_self d i (v % 256) 0 (omega arith),
  get_or-set_self (set d i (v % 256)) (i + 1) (v / 256 % 256) 0
      (omega (arith, length-set d i (v % 256))),
)

length-set_headers : (d : Bytes) (c n : ℕ) → length (set_headers d c n) ≡ length d
unfolding set_headers
length-set_headers d c n =
    let d1 = write16 d 10 c in
    let d2 = write16 d1 2 (28 + n) in
    let d3 = write16 d2 24 (swap16 (8 + n)) in
    length-write16 d3 26 0
    ∙ length-write16 d2 24 (swap16 (8 + n))
    ∙ length-write16 d1 2 (28 + n)
    ∙ length-write16 d 10 c

set_headers-tot_len :
    (d : Bytes) (c n : ℕ) → 28 ≤ length d → 28 + n < 65536 → read16 (set_headers d c n) 2 ≡ 28 + n
unfolding set_headers
set_headers-tot_len d c n l s =
    let d1 = write16 d 10 c in
    let d2 = write16 d1 2 (28 + n) in
    let d3 = write16 d2 24 (swap16 (8 + n)) in
    read16-write16_other d3 26 2 0 (λ e. omega arith) (λ e. omega arith) (λ e. omega arith)
    ∙ read16-write16_other d2 24 2 (swap16 (8 + n)) (λ e. omega arith) (λ e. omega arith)
        (λ e. omega arith)
    ∙ read16-write16 d1 2 (28 + n) (omega (arith, length-write16 d 10 c)) s

set_headers-check :
    (d : Bytes) (c n : ℕ) → 28 ≤ length d → c < 65536 → read16 (set_headers d c n) 10 ≡ c
unfolding set_headers
set_headers-check d c n l s =
    let d1 = write16 d 10 c in
    let d2 = write16 d1 2 (28 + n) in
    let d3 = write16 d2 24 (swap16 (8 + n)) in
    read16-write16_other d3 26 10 0 (λ e. omega arith) (λ e. omega arith) (λ e. omega arith)
    ∙ read16-write16_other d2 24 10 (swap16 (8 + n)) (λ e. omega arith) (λ e. omega arith)
        (λ e. omega arith)
    ∙ read16-write16_other d1 2 10 (28 + n) (λ e. omega arith) (λ e. omega arith) (λ e. omega arith)
    ∙ read16-write16 d 10 c (omega arith) s

inside_lem : (d : Bytes) (n : ℕ) → n ≤ length d → inside d n ≡ true
inside_lem d n h = ground arith

csum_nothing : (d : Bytes) → csum (take 0 d) ≡ 65535
unfolding csum word_sum
csum_nothing d = refl

-- On a datagram whose length field is still 0, as init_rawsock leaves it, a message that fits is sent
-- with its length in the header, but the check field is the checksum of no bytes, 65535, whatever the
-- header and the message hold.
pub paxos_send-first :
    (datagram msg : Bytes)
    → read16 datagram 2 ≡ 0
    → 28 + length msg ≤ length datagram
    → length datagram < 65536
    → (d : Bytes) × (paxos_send datagram msg ≡ some (d, take (28 + length msg) d))
      × (read16 d 2 ≡ 28 + length msg)
      × (read16 d 10 ≡ 65535)
unfolding paxos_send
paxos_send-first datagram msg z fits small =
    let d = write_bytes datagram 28 msg in
    let n = length msg in
    let long = length-write_bytes datagram 28 msg in
    let tot = set_headers-tot_len d 65535 n (omega (arith, long)) (omega arith) in
    (
      set_headers d 65535 n,
      rw (
        read16-write_bytes datagram 28 2 msg (omega arith) ∙ z,
        csum_nothing d,
        tot,
        inside_lem datagram (28 + n) fits,
        inside_lem d 0 (omega arith),
        inside_lem (set_headers d 65535 n) (28 + n)
            (omega (arith, length-set_headers d 65535 n, long)),
      ),
      tot,
      set_headers-check d 65535 n (omega (arith, long)) (omega arith),
    )
