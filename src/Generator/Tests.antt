-- ===== src/Generator/Tests.antt =====
-- The theorems at concrete buffers, readings and devices.
use diversity.Prelude.{ℕ, suc, ◌≡◌, refl, true, false, some, List, [], ◌∷◌, arith, length, Bytes}
use diversity.Prelude.Int.{pos, negsuc}
use diversity.Prelude.Frames.{Six}
use diversity.Dpdk.{EthDev, configured, rx_queue, tx_queue, attempt}
use diversity.Generator.Packet.{
  PaxosMessage, TxFlag, get_psd_sum, craft_ip, craft_udp, craft_new_packet, add_paxos_message,
}
use diversity.Generator.Packet.Frame.{Layout, buffer, crafted, add_paxos_message-crafted}
use diversity.Generator.Batch.{send_batch, first_message, generate_packets}
use diversity.Generator.Batch.Again.{Rounds, Resent, filled, buffers, generate_packets-Resent}
use diversity.Generator.Timer.{lcore_mainloop}
use diversity.Generator.Timer.Served.{Spaced, Served, lcore_mainloop-Served}
use diversity.Generator.Start.{cannot_init, setup_queues, port_init, main}

abbrev macs : ℕ → Six
macs port = (2, 0, 0, 0, 0, port)

abbrev cksum : Bytes → List TxFlag → ℕ
cksum header flags = length header

-- A buffer whose bytes are 0, but for the time to live
abbrev fresh : Layout
fresh = record {
  data_len = 0;
  pkt_len = 0;
  l2_len = 0;
  l3_len = 0;
  l4_len = 0;
  ol_flags = [];
  d_addr = (0, 0, 0, 0, 0, 0);
  s_addr = (0, 0, 0, 0, 0, 0);
  ether_type = (0, 0);
  version_ihl = 0;
  type_of_service = 0;
  total_length = (0, 0);
  packet_id = (0, 0);
  fragment_offset = (0, 0);
  time_to_live = 64;
  next_proto_id = 0;
  hdr_checksum = (0, 0);
  src_addr = (0, 0, 0, 0);
  dst_addr = (0, 0, 0, 0);
  src_port = (0, 0);
  dst_port = (0, 0);
  dgram_len = (0, 0);
  dgram_cksum = (0, 0);
  message = (0, 0, 0, 0);
  more = (0, 0, 0, 0);
  rest = 7 ∷ [];
}

abbrev pm : PaxosMessage
pm = first_message (0, 0)

add_paxos_message-crafted_example :
    add_paxos_message macs cksum cksum pm (buffer fresh)
    ≡ buffer (crafted macs cksum cksum pm fresh)
add_paxos_message-crafted_example = add_paxos_message-crafted macs cksum cksum pm fresh

-- The driver takes all 32 twice, then 5, then 3 in the second round.
abbrev four_results : List ℕ
four_results = 32 ∷ 32 ∷ 5 ∷ 3 ∷ []

two_rounds :
    (generate_packets macs cksum cksum 2
      (0, 0)
      four_results
      (buffers macs cksum cksum (fresh ∷ []))
      0).counter
    ≡ 72
unfolding generate_packets send_batch add_paxos_message craft_new_packet craft_ip craft_udp
    get_psd_sum
two_rounds = refl

generate_packets-Resent_example :
    let sent =
      generate_packets macs cksum cksum 2
        (0, 0)
        four_results
        (buffers macs cksum cksum (fresh ∷ []))
        0 in
    (taken : List ℕ) × Rounds 32 2 taken sent.results
    × Resent four_results (filled macs cksum cksum (0, 0) (fresh ∷ [])) 0 sent taken
generate_packets-Resent_example =
    generate_packets-Resent macs cksum cksum 2 (0, 0) four_results (fresh ∷ []) 0 (omega arith)

abbrev three_readings : List ℕ
three_readings = 5 ∷ 20000001 ∷ 20000007 ∷ []

lcore_mainloop-Served_example :
    Spaced 0 (lcore_mainloop 0 three_readings)
    × Served (0 ∷ lcore_mainloop 0 three_readings) three_readings
lcore_mainloop-Served_example =
    lcore_mainloop-Served three_readings
      (omega arith, omega arith, (omega arith, omega arith, (omega arith, omega arith, tt)))

abbrev broken : EthDev
broken = record {
  is_valid_port = λ port. true;
  has_fast_free = λ port. true;
  configure = λ port. pos 0;
  adjust_nb_rx_tx_desc = λ port r t. (pos 0, r, t);
  rx_queue_setup = λ port. pos 0;
  tx_queue_setup = λ port. negsuc 21;
  start = λ port. pos 0;
}

refused_queue : main broken 1 (pos 0) true 0 suc ≡ (
  cannot_init 0,
  (configured 0 false, some (pos 0))
      ∷ (rx_queue 0 128, some (pos 0))
      ∷ (tx_queue 0 512 false, some (negsuc 21))
      ∷ [],
)
unfolding main port_init setup_queues attempt
refused_queue = refl
