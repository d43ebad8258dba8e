-- ===== src/Sniffer/Capture.antt =====
-- libpcap/sniffex.c, `main`: the set-up of a capture, over the calls of libpcap as parameters, and the packets that
-- `pcap_loop` gives to `got_packet`. The messages stand for what is printed before the program ends.
pub mod Complete
use diversity.Prelude.{
  ℕ, Bool, Option, none, some, List, [], ◌∷◌, ◌==◌, if◌then◌else◌, ◌>>=◌, Bytes, codes,
}
use diversity.Sniffer.Packet.{ip, Printed, got_packet}

-- `none` and `false` are the error results. The packets of `loop` are their captured bytes.
pub record Pcap : Type 1 where
  pub Handle : Type 0
  pub Program : Type 0
  pub lookupdev : Option Bytes
  pub lookupnet : Bytes → Option ℕ
  pub open_live : Bytes → ℕ → Option Handle
  pub datalink : Handle → ℕ
  pub compile : Handle → Bytes → ℕ → Option Program
  pub setfilter : Handle → Program → Bool
  pub loop : Handle → ℕ → List Bytes

pub data Failure : Type 0 where
  bad_options no_default_device cannot_open not_ethernet cannot_parse cannot_install : Failure

-- How the program ends: an error exit, a read outside of a packet, or what each packet printed.
pub data Ended : Type 0 where
  failed : Failure → Ended
  fault : Ended
  complete : List (List Printed) → Ended

-- The callback on each packet, with the static `count`.
unfoldable pub callbacks : ℕ → List Bytes → Option (List (List Printed))
callbacks count [] = some []
callbacks count (packet ∷ packets) = do
  (printed, count') ← got_packet count packet
  rest ← callbacks count' packets
  some (printed ∷ rest)

abbrev ended : Option (List (List Printed)) → Ended
ended none = fault
ended (some l) = complete l

-- The mask and the network are 0 where they are not known.
abbrev pub net_or_zero : Option ℕ → ℕ
net_or_zero none = 0
net_or_zero (some n) = n

module _ (pcap : Pcap) where
  abbrev filtered : pcap.Handle → Option pcap.Program → Ended
  filtered handle none = failed cannot_parse
  filtered handle (some fp) =
      if pcap.setfilter handle fp
      then ended (callbacks 1 (pcap.loop handle 10))
      else failed cannot_install

  -- DLT_EN10MB is 1.
  abbrev opened : ℕ → Option pcap.Handle → Ended
  opened net none = failed cannot_open
  opened net (some handle) =
      if pcap.datalink handle == 1
      then filtered handle (pcap.compile handle (codes "ip") net)
      else failed not_ethernet

  -- SNAP_LEN is 1518.
  abbrev on_device : Option Bytes → Ended
  on_device none = failed no_default_device
  on_device (some dev) = opened (net_or_zero (pcap.lookupnet dev)) (pcap.open_live dev 1518)

  -- On `argv[1]` and those behind it.
  unfoldable pub main : List Bytes → Ended
  main [] = on_device pcap.lookupdev
  main (dev ∷ []) = on_device (some dev)
  main (dev ∷ other ∷ more) = failed bad_options
