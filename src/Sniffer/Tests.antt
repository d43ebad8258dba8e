-- ===== src/Sniffer/Tests.antt =====
-- The theorems at a TCP packet with 17 bytes of payload, and at a packet that was cut.
use diversity.Prelude.{
  ℕ, ◌≡◌, refl, true, none, some, List, [], ◌∷◌, ◌++◌, arith, replicate, Bytes, codes,
}
use diversity.Sniffer.Rows.{Row, print_payload}
use diversity.Sniffer.Rows.Cover.{Rows, print_payload-Rows}
use diversity.Sniffer.Packet.{Printed}
use diversity.Sniffer.Capture.{Pcap, complete, main}
use diversity.Sniffer.Capture.Complete.{Numbered, main-Numbered}

abbrev ip_header : ℕ → Bytes
ip_header ip_len =
    69 ∷ 0 ∷ 0 ∷ ip_len ∷ 0 ∷ 0 ∷ 0 ∷ 0 ∷ 64 ∷ 6 ∷ 0 ∷ 0 ∷ 10 ∷ 0 ∷ 0 ∷ 1 ∷ 10 ∷ 0 ∷ 0 ∷ 2 ∷ []

abbrev tcp_header : Bytes
tcp_header = 0 ∷ 80 ∷ 31 ∷ 144 ∷ replicate 8 0 ++ 80 ∷ replicate 7 0

abbrev frame : Bytes
frame = replicate 14 0 ++ ip_header 57 ++ tcp_header ++ replicate 33 65

print_payload-Rows_example :
    (rs : List Row) × (print_payload (replicate 20 65) 17 ≡ some rs) × Rows 0 (replicate 17 65) rs
print_payload-Rows_example = print_payload-Rows (replicate 20 65) 17 (omega arith)

-- A library that delivers the packet twice.
abbrev toy_pcap : Pcap
toy_pcap = record {
  Handle = Unit {0};
  Program = Unit {0};
  lookupdev = none;
  lookupnet = λ dev. none;
  open_live = λ dev n. some tt;
  datalink = λ h. 1;
  compile = λ h e n. some tt;
  setfilter = λ h p. true;
  loop = λ h n. frame ∷ frame ∷ [];
}

main-Numbered_example :
    (ls : List (List Printed)) × (main toy_pcap (codes "eth0" ∷ []) ≡ complete ls)
    × Numbered 1 (frame ∷ frame ∷ []) ls
main-Numbered_example =
    main-Numbered toy_pcap (codes "eth0") tt tt refl refl refl refl
      (omega arith, omega arith, (omega arith, omega arith, tt))
