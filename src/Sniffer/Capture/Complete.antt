-- ===== src/Sniffer/Capture/Complete.antt =====
-- A capture that reports every packet.
use diversity.Sniffer.Packet.{got_packet}
use diversity.Prelude.{ℕ, ◌+◌, ◌≤◌, ◌≡◌, refl, true, some, List, [], ◌∷◌, length, Bytes, codes}
use diversity.Sniffer.Packet.{Printed, packet_number}
use diversity.Sniffer.Packet.Captured.{ip_len_of, got_packet-captured}
use diversity.Sniffer.Capture.{Pcap, complete, callbacks, net_or_zero, main}

-- Of each packet at least 87 bytes, and what its IP header says, were captured.
abbrev pub AllCaptured : List Bytes → Type 0
AllCaptured [] = Unit
AllCaptured (p ∷ ps) = (87 ≤ length p) × (14 + ip_len_of p ≤ length p) × AllCaptured ps

-- One report for each packet: what `got_packet` prints for it, with its number from `count` on in front.
abbrev pub Numbered : ℕ → List Bytes → List (List Printed) → Type 0
Numbered count [] ls = ls ≡ []
Numbered count (p ∷ ps) [] = ⊥
Numbered count (p ∷ ps) (l ∷ ls) =
    (got_packet count p ≡ some (l, count + 1))
    × ((printed : List Printed) × (l ≡ packet_number count ∷ printed))
    × Numbered (count + 1) ps ls

callbacks_lem :
    (count : ℕ) (ps : List Bytes)
    → AllCaptured ps
    → (ls : List (List Printed)) × (callbacks count ps ≡ some ls) × Numbered count ps ls
unfolding callbacks
callbacks_lem count [] h = ([], refl, refl)
callbacks_lem count (p ∷ ps) h =
    let (printed, one) = got_packet-captured count p h.0 h.1 in
    let (ls, rest, n) = callbacks_lem (count + 1) ps h.2 in
    ((packet_number count ∷ printed) ∷ ls, rw (one, rest), (one, (printed, refl), n))

-- With a device given that opens as Ethernet, a filter that compiles for its network, or for 0 where
-- that is not known, and is installed, and with at least 87 bytes of every delivered packet captured, and all that its IP
-- header says: the program accesses nothing behind a packet and completes with one report for each packet, what got_packet
-- prints for it, numbered from 1 on.
pub main-Numbered :
    (pcap : Pcap) (dev : Bytes) (handle : pcap.Handle) (fp : pcap.Program)
    → pcap.open_live dev 1518 ≡ some handle
    → pcap.datalink handle ≡ 1
    → pcap.compile handle (codes "ip") (net_or_zero (pcap.lookupnet dev)) ≡ some fp
    → pcap.setfilter handle fp ≡ true
    → AllCaptured (pcap.loop handle 10)
    → (ls : List (List Printed)) × (main pcap (dev ∷ []) ≡ complete ls)
      × Numbered 1 (pcap.loop handle 10) ls
unfolding main
main-Numbered pcap dev handle fp o d c s h =
    let (ls, e, n) = callbacks_lem 1 (pcap.loop handle 10) h in (ls, rw (o, d, c, s, e), n)
