-- ===== src/Generator/Batch/Again.antt =====
-- What is handed to the driver, and what is counted.
use diversity.Prelude.{
  ℕ, zero, suc, ◌+◌, ◌%◌, ◌^◌, ◌<◌, ◌≡◌, refl, sym, ap, ap₂, ◌∙◌, subst, ◌≢◌, ◌⊎◌, inl, inr, true,
  false, List, [], ◌∷◌, ◌++◌, map, append_assoc, arith, ◌==◌, Bool-cases, length, replicate,
  length-append, replicate_add, Bytes,
}
use diversity.Prelude.Frames.{Two, Six}
use diversity.Generator.Packet.Frame.{Layout, buffer, crafted, add_paxos_message-crafted}
use diversity.Generator.Packet.{TxFlag, Mbuf, add_paxos_message}
use diversity.Generator.Batch.{first_message, burst_size, Sent, send_batch, generate_packets}

abbrev pub sum : List ℕ → ℕ
sum [] = 0
sum (n ∷ ns) = n + sum ns

sum-append : (ms ns : List ℕ) → sum (ms ++ ns) ≡ sum ms + sum ns
sum-append [] ns = omega arith
sum-append (m ∷ ms) ns = omega (arith, sum-append ms ns)

-- The driver was called once for each of `taken`, each time with the same buffers, and they are counted.
abbrev pub Resent : List ℕ → List Mbuf → ℕ → Sent → List ℕ → Type 0
Resent results mbufs counter sent taken =
    (results ≡ taken ++ sent.results)
    × (sent.submitted ≡ replicate (length taken) mbufs)
    × (sent.counter ≡ (counter + sum taken) % 2 ^ 32)

-- What the driver gives in one round of the loop: full batches, then one of another size, unless its results end before.
abbrev pub OneRound : ℕ → List ℕ → List ℕ → Type 0
OneRound count taken left =
    ((k n : ℕ) × (taken ≡ replicate k count ++ n ∷ []) × n ≢ count)
    ⊎ ((k : ℕ) × (taken ≡ replicate k count) × (left ≡ []))

-- And in that many rounds.
abbrev pub Rounds : ℕ → ℕ → List ℕ → List ℕ → Type 0
Rounds count zero taken left = taken ≡ []
Rounds count (suc rounds) taken left =
    (first later : List ℕ) × (taken ≡ first ++ later)
    × OneRound count first (later ++ left)
    × Rounds count rounds later left

one_more :
    (count nb_tx : ℕ) (taken left : List ℕ)
    → nb_tx == count ≡ true
    → OneRound count taken left
    → OneRound count (nb_tx ∷ taken) left
one_more count nb_tx taken left e (inl (k, n, t, d)) =
    inl (suc k, n, ap₂ (◌∷◌) {x = nb_tx} {y = count} (ground (arith, e)) t, d)
one_more count nb_tx taken left e (inr (k, t, l)) =
    inr (suc k, ap₂ (◌∷◌) {x = nb_tx} {y = count} (ground (arith, e)) t, l)

other_size : (nb_tx count : ℕ) → nb_tx == count ≡ false → nb_tx ≢ count
other_size nb_tx count h e = absurd (ground (arith, h, e))

pub wrap_add : (c n s : ℕ) → ((c + n) % 2 ^ 32 + s) % 2 ^ 32 ≡ (c + (n + s)) % 2 ^ 32
wrap_add c n s = omega arith

full :
    (nb_tx count counter : ℕ) (results : List ℕ) (mbufs : List Mbuf)
    → nb_tx == count ≡ true
    → let again = send_batch results mbufs count ((counter + nb_tx) % 2 ^ 32) in
      (send_batch (nb_tx ∷ results) mbufs count counter
        ≡ record again { submitted = mbufs ∷ again.submitted })
unfolding send_batch
full nb_tx count counter results mbufs e = rw e refl

short :
    (nb_tx count counter : ℕ) (results : List ℕ) (mbufs : List Mbuf)
    → nb_tx == count ≡ false
    → send_batch (nb_tx ∷ results) mbufs count counter
      ≡ record { counter = (counter + nb_tx) % 2 ^ 32; submitted = mbufs ∷ []; results = results }
unfolding send_batch
short nb_tx count counter results mbufs e = rw e refl

send_batch-Resent :
    (results : List ℕ) (mbufs : List Mbuf) (count counter : ℕ)
    → counter < 2 ^ 32
    → let sent = send_batch results mbufs count counter in
      (taken : List ℕ) × OneRound count taken sent.results × Resent results mbufs counter sent taken
unfolding send_batch
send_batch-Resent [] mbufs count counter h = ([], inr (zero, refl, refl), (refl, refl, omega arith))
send_batch-Resent (nb_tx ∷ results) mbufs count counter h = elim (Bool-cases (nb_tx == count)) [
  | inl e ↦
      let again = send_batch results mbufs count ((counter + nb_tx) % 2 ^ 32) in
      let (taken, o, r) =
        send_batch-Resent results mbufs count ((counter + nb_tx) % 2 ^ 32) (omega arith) in
      rw (full nb_tx count counter results mbufs e) (
        nb_tx ∷ taken,
        one_more count nb_tx taken again.results e o,
        (ap (◌∷◌ nb_tx) r.0, ap (◌∷◌ mbufs) r.1, r.2 ∙ wrap_add counter nb_tx (sum taken)),
      )
  | inr e ↦
      rw (short nb_tx count counter results mbufs e)
        (nb_tx ∷ [], inl (zero, nb_tx, refl, other_size nb_tx count e), (refl, refl, omega arith))
]

Resent-trans :
    (results taken taken' : List ℕ) (mbufs : List Mbuf) (counter : ℕ) (s t : Sent)
    → Resent results mbufs counter s taken
    → Resent s.results mbufs s.counter t taken'
    → Resent results mbufs counter
        record t { submitted = s.submitted ++ t.submitted }
        (taken ++ taken')
Resent-trans results taken taken' mbufs counter s t a b = (
  a.0 ∙ ap (◌++◌ taken) b.0 ∙ sym (append_assoc taken taken' t.results),
  ap₂ (◌++◌) a.1 b.1
      ∙ replicate_add (length taken) (length taken') mbufs
      ∙ ap (λ n. replicate n mbufs) (sym (length-append taken taken')),
  b.2
      ∙ ap (λ c. (c + sum taken') % 2 ^ 32) a.2
      ∙ wrap_add counter (sum taken) (sum taken')
      ∙ ap (λ n. (counter + n) % 2 ^ 32) (sym (sum-append taken taken')),
)

module _ (macaddr : ℕ → Six) (ipv4_phdr_cksum : Bytes → List TxFlag → ℕ)
    (ipv6_phdr_cksum : Bytes → List TxFlag → ℕ) where
  -- The buffers with the message in each
  abbrev pub filled : Two → List Layout → List Mbuf
  filled padding [] = []
  filled padding (l ∷ ls) =
      buffer (crafted macaddr ipv4_phdr_cksum ipv6_phdr_cksum (first_message padding) l)
      ∷ filled padding ls

  abbrev pub buffers : List Layout → List Mbuf
  buffers [] = []
  buffers (l ∷ ls) = buffer l ∷ buffers ls

  refilled :
      (padding : Two) (ls : List Layout)
      → map
          (add_paxos_message macaddr ipv4_phdr_cksum ipv6_phdr_cksum (first_message padding))
          (buffers ls)
        ≡ filled padding ls
  refilled padding [] = refl
  refilled padding (l ∷ ls) =
      ap₂ (◌∷◌)
        (add_paxos_message-crafted macaddr ipv4_phdr_cksum ipv6_phdr_cksum (first_message padding)
          l)
        (refilled padding ls)

  filled_again :
      (padding : Two) (ls : List Layout)
      → map
          (add_paxos_message macaddr ipv4_phdr_cksum ipv6_phdr_cksum (first_message padding))
          (filled padding ls)
        ≡ filled padding ls
  filled_again padding [] = refl
  filled_again padding (l ∷ ls) =
      ap₂ (◌∷◌)
        (add_paxos_message-crafted macaddr ipv4_phdr_cksum ipv6_phdr_cksum (first_message padding)
          (crafted macaddr ipv4_phdr_cksum ipv6_phdr_cksum (first_message padding) l))
        (filled_again padding ls)

  -- One round, and those after it
  repeated :
      (rounds : ℕ) (padding : Two) (results : List ℕ) (bufs : List Mbuf) (ls : List Layout)
      (counter : ℕ)
      → counter < 2 ^ 32
      → map (add_paxos_message macaddr ipv4_phdr_cksum ipv6_phdr_cksum (first_message padding)) bufs
        ≡ filled padding ls
      → let sent =
          generate_packets macaddr ipv4_phdr_cksum ipv6_phdr_cksum rounds padding results bufs
            counter in
        (taken : List ℕ) × Rounds 32 rounds taken sent.results
        × Resent results (filled padding ls) counter sent taken
  unfolding generate_packets
  repeated zero padding results bufs ls counter h e = ([], refl, (refl, refl, omega arith))
  repeated (suc rounds) padding results bufs ls counter h e =
      let mbufs = filled padding ls in
      let (first, o, r) = send_batch-Resent results mbufs burst_size counter h in
      let sent = send_batch results mbufs burst_size counter in
      let (later, os, rs) =
        repeated rounds padding sent.results mbufs ls sent.counter (omega (arith, r.2))
          (filled_again padding ls) in
      rw e (
        first ++ later,
        (first, later, refl, subst (OneRound 32 first) rs.0 o, os),
        Resent-trans results first later mbufs counter sent
            (generate_packets macaddr ipv4_phdr_cksum ipv6_phdr_cksum rounds padding sent.results
              mbufs sent.counter)
            r rs,
      )

  -- Whatever the buffers with room for a packet hold, over any number of rounds: there is one call of the driver
  -- for each result that it gave, and each round goes on while the driver takes the whole batch of 32 and ends with the
  -- first other result, unless the results end before. Each call hands over the same buffers with the same message, and the
  -- results are added up in the counter, modulo 2 ^ 32.
  pub generate_packets-Resent :
      (rounds : ℕ) (padding : Two) (results : List ℕ) (ls : List Layout) (counter : ℕ)
      → counter < 2 ^ 32
      → let sent =
          generate_packets macaddr ipv4_phdr_cksum ipv6_phdr_cksum rounds padding results
            (buffers ls)
            counter in
        (taken : List ℕ) × Rounds 32 rounds taken sent.results
        × Resent results (filled padding ls) counter sent taken
  generate_packets-Resent rounds padding results ls counter h =
      repeated rounds padding results (buffers ls) ls counter h (refilled padding ls)
