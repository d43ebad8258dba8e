-- ===== src/Generator/Batch.antt =====
-- dpdk/gen_packet/main.c: `send_batch` and the loop of `generate_packets`. The results of the driver for the calls of
-- `rte_eth_tx_burst` are a list; where it ends, the driver has not returned.
pub mod Again
use diversity.Prelude.{
  ℕ, zero, suc, ◌+◌, ◌%◌, ◌^◌, List, [], ◌∷◌, ◌++◌, map, ◌==◌, if◌then◌else◌, Bytes,
}
use diversity.Prelude.Frames.{Two, Six}
use diversity.Generator.Packet.{PaxosMessage, TxFlag, Mbuf, add_paxos_message}

abbrev pub burst_size : ℕ
burst_size = 32

-- The counter, of 32 bits, the buffers of each call, and the results that are left.
pub record Sent : Type 0 where
  pub counter : ℕ
  pub submitted : List (List Mbuf)
  pub results : List ℕ

unfoldable pub send_batch : List ℕ → List Mbuf → ℕ → ℕ → Sent
send_batch [] mbufs count counter = record { counter = counter; submitted = []; results = [] }
send_batch (nb_tx ∷ results) mbufs count counter =
    let counter = (counter + nb_tx) % 2 ^ 32 in
    let again = send_batch results mbufs count counter in
    if nb_tx == count
    then record again { submitted = mbufs ∷ again.submitted }
    else record { counter = counter; submitted = mbufs ∷ []; results = results }

-- `pm`, whose padding is not initialised
abbrev pub first_message : Two → PaxosMessage
first_message padding = record { msgtype = 1; padding = padding; inst = 1 }

module _ (macaddr : ℕ → Six) (ipv4_phdr_cksum : Bytes → List TxFlag → ℕ)
    (ipv6_phdr_cksum : Bytes → List TxFlag → ℕ) where
  -- That many rounds of the loop, which has no end.
  unfoldable pub generate_packets : ℕ → Two → List ℕ → List Mbuf → ℕ → Sent
  generate_packets zero padding results bufs counter = record {
    counter = counter;
    submitted = [];
    results = results;
  }
  generate_packets (suc rounds) padding results bufs counter =
      let pm = first_message padding in
      let bufs = map (add_paxos_message macaddr ipv4_phdr_cksum ipv6_phdr_cksum pm) bufs in
      let sent = send_batch results bufs burst_size counter in
      let later = generate_packets rounds padding sent.results bufs sent.counter in
      record later { submitted = sent.submitted ++ later.submitted }
