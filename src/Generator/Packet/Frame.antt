-- ===== src/Generator/Packet/Frame.antt =====
-- The packet that the generator sends.
use diversity.Prelude.{ℕ, ◌/◌, ◌%◌, ◌≡◌, refl, List, [], ◌∷◌, ◌++◌, Bytes}
use diversity.Prelude.Frames.{Two, Four, Six, bytes2, bytes4, bytes6}
use diversity.Generator.Packet.{
  PaxosMessage, TxFlag, pkt_tx_ipv4, pkt_tx_ip_cksum, pkt_tx_udp_cksum, Mbuf, get_psd_sum, craft_ip,
  craft_udp, craft_new_packet, add_paxos_message,
}

-- A buffer with room for the packet: the lengths and flags, and the fields of an Ethernet frame with IPv4 and UDP, of
-- which `message` and `more` hold the message, and `rest` what follows.
pub record Layout : Type 0 where
  pub data_len : ℕ
  pub pkt_len : ℕ
  pub l2_len : ℕ
  pub l3_len : ℕ
  pub l4_len : ℕ
  pub ol_flags : List TxFlag
  pub d_addr : Six
  pub s_addr : Six
  pub ether_type : Two
  pub version_ihl : ℕ
  pub type_of_service : ℕ
  pub total_length : Two
  pub packet_id : Two
  pub fragment_offset : Two
  pub time_to_live : ℕ
  pub next_proto_id : ℕ
  pub hdr_checksum : Two
  pub src_addr : Four
  pub dst_addr : Four
  pub src_port : Two
  pub dst_port : Two
  pub dgram_len : Two
  pub dgram_cksum : Two
  pub message : Four
  pub more : Four
  pub rest : Bytes

abbrev pub ip_bytes : Layout → Bytes → Bytes
ip_bytes l rest =
    l.version_ihl ∷ l.type_of_service ∷ bytes2 l.total_length
    ++ (bytes2 l.packet_id
        ++ (bytes2 l.fragment_offset
            ++ (l.time_to_live ∷ l.next_proto_id ∷ bytes2 l.hdr_checksum
                ++ (bytes4 l.src_addr ++ (bytes4 l.dst_addr ++ rest)))))

abbrev pub udp_bytes : Layout → Bytes
udp_bytes l =
    bytes2 l.src_port
    ++ (bytes2 l.dst_port
        ++ (bytes2 l.dgram_len
            ++ (bytes2 l.dgram_cksum ++ (bytes4 l.message ++ (bytes4 l.more ++ l.rest)))))

abbrev pub buffer : Layout → Mbuf
buffer l = record {
  data_len = l.data_len;
  pkt_len = l.pkt_len;
  l2_len = l.l2_len;
  l3_len = l.l3_len;
  l4_len = l.l4_len;
  ol_flags = l.ol_flags;
  frame = bytes6 l.d_addr ++ (bytes6 l.s_addr ++ (bytes2 l.ether_type ++ ip_bytes l (udp_bytes l)));
}

module _ (macaddr : ℕ → Six) (ipv4_phdr_cksum : Bytes → List TxFlag → ℕ)
    (ipv6_phdr_cksum : Bytes → List TxFlag → ℕ) where
  abbrev pub all_flags : List TxFlag
  all_flags = pkt_tx_ipv4 ∷ pkt_tx_ip_cksum ∷ pkt_tx_udp_cksum ∷ []

  -- The buffer with all that the program writes but the checksum of UDP: what is not named here stays as it was.
  abbrev pub unsummed : PaxosMessage → Layout → Layout
  unsummed pm l = record l {
    data_len = 50;
    pkt_len = 50;
    l2_len = 14;
    l3_len = 20;
    l4_len = 16;
    ol_flags = all_flags;
    s_addr = macaddr 0;
    ether_type = (8, 0);
    version_ihl = 69;
    total_length = (0, 36);
    next_proto_id = 17;
    hdr_checksum = (0, 0);
    src_addr = (192, 168, 4, 95);
    dst_addr = (239, 3, 29, 73);
    src_port = (135, 7);
    dst_port = (178, 110);
    dgram_len = (0, 8);
    message = (pm.msgtype % 256, pm.msgtype / 256 % 256, pm.padding.0, pm.padding.1);
    more = (pm.inst % 256, pm.inst / 256 % 256, pm.inst / 65536 % 256, pm.inst / 16777216 % 256);
  }

  -- The checksum of the library over the finished IP header
  abbrev pub pseudo_sum : PaxosMessage → Layout → ℕ
  pseudo_sum pm l = ipv4_phdr_cksum (ip_bytes (unsummed pm l) []) all_flags

  abbrev pub crafted : PaxosMessage → Layout → Layout
  crafted pm l = record (unsummed pm l) {
    dgram_cksum = (pseudo_sum pm l % 256, pseudo_sum pm l / 256 % 256);
  }

  pub add_paxos_message-crafted :
      (pm : PaxosMessage) (l : Layout)
      → add_paxos_message macaddr ipv4_phdr_cksum ipv6_phdr_cksum pm (buffer l)
        ≡ buffer (crafted pm l)
  unfolding add_paxos_message craft_new_packet craft_ip craft_udp get_psd_sum
  add_paxos_message-crafted pm l = refl

  pub crafted-crafted : (pm : PaxosMessage) (l : Layout) → crafted pm (crafted pm l) ≡ crafted pm l
  crafted-crafted pm l = refl
