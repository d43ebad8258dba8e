-- ===== src/Forward/Tests.antt =====
-- The theorems at concrete frames and devices.
use diversity.Prelude.{
  ℕ, ◌%◌, ◌<◌, ◌≡◌, refl, true, not, some, List, [], ◌∷◌, arith, ◌==◌, replicate, Bytes,
}
use diversity.Prelude.Int.{pos}
use diversity.Prelude.Frames.{Two, Four, Six}
use diversity.Dpdk.{EthDev, attempt}
use diversity.Checksum.Csum.{word_sum}
use diversity.Forward.Packet.{packet_handler}
use diversity.Forward.Packet.Arp.{arp_frame, my_ip_stored, packet_handler-arp}
use diversity.Forward.Burst.{Burst, Round, lcore_main}
use diversity.Forward.Burst.Owned.{Owned, lcore_main-Owned}
use diversity.Forward.Start.{
  cannot_init, forwarding, start_port, setup_queues, init_valid, port_init, init_ports, main,
}
use diversity.Forward.Start.Ready.{AllWork, all_ready, main-forwarding}

abbrev zeros : Six
zeros = (0, 0, 0, 0, 0, 0)

abbrev broadcast : Six
broadcast = (255, 255, 255, 255, 255, 255)

abbrev card : Six
card = (2, 0, 0, 0, 0, 9)

abbrev asker : Six
asker = (2, 0, 0, 0, 0, 1)

abbrev asker_ip : Four
asker_ip = (192, 168, 10, 1)

-- Ethernet and IPv4
abbrev arp_kind : Six
arp_kind = (0, 1, 8, 0, 6, 4)

abbrev padding : Bytes
padding = 0 ∷ 0 ∷ []

packet_handler-arp_example :
    packet_handler card
      (arp_frame broadcast asker arp_kind (0, 1) asker asker_ip zeros my_ip_stored padding)
    ≡ arp_frame asker card arp_kind (0, 2) card my_ip_stored asker asker_ip padding
packet_handler-arp_example =
    packet_handler-arp card broadcast asker arp_kind asker zeros asker_ip padding

-- The identifier 1, the number 1 and no data, with the checksum 0xfdf7
abbrev ids : Bytes
ids = 0 ∷ 1 ∷ 0 ∷ 1 ∷ []

abbrev ip_front : Six × Two × ℕ
ip_front = ((69, 0, 0, 28, 0, 1), (0, 0), 64)

abbrev ip_back : Six × Four
ip_back = ((0, 0, 192, 168, 10, 1), (192, 168, 10, 97))

ids_valid : word_sum (8 ∷ 0 ∷ 247 ∷ 253 ∷ ids) 0 % 65535 ≡ 0
unfolding word_sum
ids_valid = refl

abbrev macs : ℕ → Six
macs port = (2, 0, 0, 0, 0, port)

-- Two frames from the port 1 of which the driver takes one, and none from the port 2; the other slots hold what they held.
abbrev two_bursts : List Burst
two_bursts =
    record { port = 1; bufs = padding ∷ ids ∷ replicate 30 (255 ∷ []); nb_rx = 2; nb_tx = 1 }
    ∷ record { port = 2; bufs = replicate 32 (255 ∷ []); nb_rx = 0; nb_tx = 0 }
    ∷ []

lcore_main-Owned_example :
    (rounds : List Round) × (lcore_main macs two_bursts ≡ some rounds)
    × Owned macs two_bursts rounds
lcore_main-Owned_example =
    lcore_main-Owned macs two_bursts
      ((refl, omega arith, omega arith), ((refl, omega arith, omega arith), tt))

-- A device that does all it is asked, on any port but 7
abbrev willing : EthDev
willing = record {
  is_valid_port = λ port. not (port == 7);
  has_fast_free = λ port. true;
  configure = λ port. pos 0;
  adjust_nb_rx_tx_desc = λ port r t. (pos 0, r, 512);
  rx_queue_setup = λ port. pos 0;
  tx_queue_setup = λ port. pos 0;
  start = λ port. pos 0;
}

two_ports_run : (main willing (pos 1) (0 ∷ 1 ∷ []) true).0 ≡ forwarding
unfolding main init_ports port_init init_valid setup_queues start_port attempt
two_ports_run = refl

bad_port : (main willing (pos 1) (0 ∷ 7 ∷ []) true).0 ≡ cannot_init 7
unfolding main init_ports port_init init_valid setup_queues start_port attempt
bad_port = refl

main-forwarding_example :
    (true ≡ true)
    × (0 < 2)
    × AllWork willing (0 ∷ 1 ∷ [])
    × ((main willing (pos 1) (0 ∷ 1 ∷ []) true).1 ≡ all_ready willing (0 ∷ 1 ∷ []))
main-forwarding_example = main-forwarding willing (pos 1) (0 ∷ 1 ∷ []) true two_ports_run
