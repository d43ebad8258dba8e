-- ===== src/Forward/Packet/Arp.antt =====
-- The answer to an ARP request.
use diversity.Prelude.{◌+◌, ◌*◌, ◌≡◌, refl, ◌≢◌, ◌⊎◌, inl, inr, ◌∷◌, ◌++◌, arith, Bytes}
use diversity.Prelude.Frames.{Two, Four, Six, bytes2, bytes4, bytes6, be16_at, le32_at}
use diversity.Forward.Packet.{my_ip, arp_reply, on_arp, packet_handler}

-- An Ethernet frame that carries ARP: the addresses, the first six bytes of the ARP header, the operation, and
-- who asks for whom.
abbrev pub arp_frame : Six → Six → Six → Two → Six → Four → Six → Four → Bytes → Bytes
arp_frame dst src kind op sha sip tha tip rest =
    bytes6 dst
    ++ (bytes6 src
        ++ (8 ∷ 6 ∷ bytes6 kind
            ++ (bytes2 op ++ (bytes6 sha ++ (bytes4 sip ++ (bytes6 tha ++ (bytes4 tip ++ rest)))))))

-- `my_ip` as it stands in memory: in the order of the machine, not of the network.
abbrev pub my_ip_stored : Four
my_ip_stored = (97, 10, 168, 192)

-- A request for the address that `my_ip` is in memory is answered to the one who asked: from the port's
-- address, which is given as the one that was asked for. Nothing else of the frame changes.
pub packet_handler-arp :
    (mac dst src kind sha tha : Six) (sip : Four) (rest : Bytes)
    → packet_handler mac (arp_frame dst src kind (0, 1) sha sip tha my_ip_stored rest)
      ≡ arp_frame src mac kind (0, 2) mac my_ip_stored sha sip rest
unfolding packet_handler on_arp arp_reply
packet_handler-arp mac dst src kind sha tha sip rest = refl

other_op : (mac : Six) (d : Bytes) → be16_at d 20 ≢ 1 → on_arp mac d ≡ d
unfolding on_arp
other_op mac d h = ground arith

other_target : (mac : Six) (d : Bytes) → le32_at d 38 ≢ my_ip → on_arp mac d ≡ d
unfolding on_arp
other_target mac d h = ground arith

-- An ARP frame with another operation than a request, or for another address than `my_ip` is in memory, is
-- left as it is.
pub packet_handler-arp_other :
    (mac dst src kind sha tha : Six) (op : Two) (sip tip : Four) (rest : Bytes)
    → (256 * op.0 + op.1 ≢ 1) ⊎ (tip.0 + 256 * tip.1 + 65536 * tip.2 + 16777216 * tip.3 ≢ my_ip)
    → packet_handler mac (arp_frame dst src kind op sha sip tha tip rest)
      ≡ arp_frame dst src kind op sha sip tha tip rest
unfolding packet_handler
packet_handler-arp_other mac dst src kind sha tha op sip tip rest (inl h) =
    other_op mac (arp_frame dst src kind op sha sip tha tip rest) h
packet_handler-arp_other mac dst src kind sha tha op sip tip rest (inr h) =
    other_target mac (arp_frame dst src kind op sha sip tha tip rest) h
