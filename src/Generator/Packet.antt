-- ===== src/Generator/Packet.antt =====
-- dpdk/gen_packet/main.c: `craft_new_packet` and `add_paxos_message`. The checksum of the pseudo header is a parameter,
-- and so is the address of the port. The data of a buffer has room for the packet.
pub mod Frame
use diversity.Prelude.{ℕ, ◌+◌, ◌%◌, ◌^◌, List, [], ◌∷◌, ◌++◌, ◌==◌, if◌then◌else◌, Bytes}
use diversity.Prelude.Frames.{Two, Six, bytes2, bytes6, field, patch, le16, be16, le32, be32, ipv4}

-- `struct paxos_message`, with the two bytes that the compiler puts between its fields.
pub record PaxosMessage : Type 0 where
  pub msgtype : ℕ
  pub padding : Two
  pub inst : ℕ

abbrev pub paxos_size : ℕ
paxos_size = 8

abbrev pub paxos_bytes : PaxosMessage → Bytes
paxos_bytes pm = le16 pm.msgtype ++ (bytes2 pm.padding ++ le32 pm.inst)

-- The flags of a buffer that are set
pub data TxFlag : Type 0 where
  pkt_tx_ipv4 : TxFlag
  pkt_tx_ip_cksum : TxFlag
  pkt_tx_udp_cksum : TxFlag

-- The fields of `struct rte_mbuf` that the program sets.
pub record Mbuf : Type 0 where
  pub data_len : ℕ
  pub pkt_len : ℕ
  pub l2_len : ℕ
  pub l3_len : ℕ
  pub l4_len : ℕ
  pub ol_flags : List TxFlag
  pub frame : Bytes

abbrev pub ethertype_ipv4 : ℕ
ethertype_ipv4 = 2048

module _ (macaddr : ℕ → Six) (ipv4_phdr_cksum : Bytes → List TxFlag → ℕ)
    (ipv6_phdr_cksum : Bytes → List TxFlag → ℕ) where
  unfoldable pub get_psd_sum : Bytes → ℕ → List TxFlag → ℕ
  get_psd_sum l3_hdr ethertype ol_flags =
      if ethertype == ethertype_ipv4
      then ipv4_phdr_cksum l3_hdr ol_flags
      else ipv6_phdr_cksum l3_hdr ol_flags

  -- The Ethernet and the IP header: the address of the port, the type, the addresses, the version, no checksum, the
  -- length of a message, and the protocol.
  unfoldable pub craft_ip : ℕ → ℕ → ℕ → Bytes → Bytes
  craft_ip src_ip dst_ip output_port d =
      let d = patch d 6 (bytes6 (macaddr output_port)) in
      let d = patch d 12 (be16 ethertype_ipv4) in
      let d = patch d 26 (be32 src_ip) in
      let d = patch d 30 (be32 dst_ip) in
      let d = patch d 14 (69 ∷ []) in
      let d = patch d 24 (0 ∷ 0 ∷ []) in
      let d = patch d 16 (be16 (20 + 8 + paxos_size)) in patch d 23 (17 ∷ [])

  -- The UDP header: the checksum is written as it is, the other fields in network order.
  unfoldable pub craft_udp : ℕ → ℕ → ℕ → List TxFlag → Bytes → Bytes
  craft_udp sport dport data_size ol_flags d =
      let d = patch d 34 (be16 sport) in
      let d = patch d 36 (be16 dport) in
      let d = patch d 40 (le16 (get_psd_sum (field d 14 20) ethertype_ipv4 ol_flags)) in
      patch d 38 (be16 data_size)

  unfoldable pub craft_new_packet : Mbuf → ℕ → ℕ → ℕ → ℕ → ℕ → ℕ → Mbuf × List TxFlag
  craft_new_packet created_pkt src_ip dst_ip sport dport data_size output_port =
      let pkt_size = 14 + 20 + 8 + data_size in
      let ol_flags = pkt_tx_ipv4 ∷ pkt_tx_ip_cksum ∷ pkt_tx_udp_cksum ∷ [] in
      let headers = craft_ip src_ip dst_ip output_port created_pkt.frame in
      (
        record created_pkt {
          data_len = pkt_size % 2 ^ 16;
          pkt_len = pkt_size % 2 ^ 32;
          frame = craft_udp sport dport data_size ol_flags headers;
        },
        ol_flags,
      )

  unfoldable pub add_paxos_message : PaxosMessage → Mbuf → Mbuf
  add_paxos_message pm created_pkt =
      let layers = record created_pkt { l2_len = 14; l3_len = 20; l4_len = 8 + paxos_size } in
      let made =
        craft_new_packet layers (ipv4 192 168 4 95) (ipv4 239 3 29 73) 34567 45678 paxos_size 0 in
      record made.0 { ol_flags = made.1; frame = patch made.0.frame 42 (paxos_bytes pm) }
