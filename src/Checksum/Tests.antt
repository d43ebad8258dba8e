-- ===== src/Checksum/Tests.antt =====
-- The theorems at concrete buffers.
use diversity.Prelude.{ℕ, ◌/◌, ◌%◌, ◌≡◌, refl, [], ◌∷◌, ◌++◌, arith, length, replicate, Bytes}
use diversity.Checksum.Csum.{csum}
use diversity.Checksum.Csum.Sum.{csum_verifies}
use diversity.Checksum.Send.{write16, read16, write_bytes, SockaddrIn, init_rawsock}

abbrev header : Bytes
header = 69 ∷ 0 ∷ 40 ∷ 0 ∷ []

abbrev addresses : Bytes
addresses = 192 ∷ 168 ∷ 4 ∷ 97 ∷ []

csum_verifies_example :
    let c = csum (header ++ 0 ∷ 0 ∷ addresses) in
    (csum (header ++ c % 256 ∷ c / 256 ∷ addresses) ≡ 0)
csum_verifies_example =
    csum_verifies header addresses refl
      (
        omega arith,
        (
          omega arith,
          (
            omega arith,
            (
              omega arith,
              (
                omega arith,
                (omega arith, (omega arith, (omega arith, (omega arith, (omega arith, tt))))),
              ),
            ),
          ),
        ),
      )
      (omega arith)

abbrev peer : ℕ → SockaddrIn
peer port = record { sin_port = port; s_addr = 1627695296 }

abbrev fresh : Bytes
fresh = init_rawsock (replicate 200 7) (peer 14640) (peer 34952)

fresh_tot_len : read16 fresh 2 ≡ 0
unfolding init_rawsock read16 write16 write_bytes
fresh_tot_len = refl

length-fresh : length fresh ≡ 200
unfolding init_rawsock write16 write_bytes
length-fresh = refl
