-- ===== src/Forward/Packet.antt =====
-- client_server/dpdk/src/basicfwd.c, `packet_handler`, on the bytes of a buffer, which has room for all the headers:
-- Ethernet at 0, ARP or IPv4 at 14, ICMP at 34.
pub mod Arp
pub mod Icmp
use diversity.Prelude.{ℕ, ◌+◌, ◌-◌, ◌*◌, ◌%◌, ◌^◌, ◌==◌, if◌then◌else◌, get_or, set, Bytes}
use diversity.Prelude.Frames.{
  Six, bytes6, field, patch, le16_at, be16_at, le32_at, le16, be16, le32, ipv4,
}

-- `my_ip`, in the order of the machine
abbrev pub my_ip : ℕ
my_ip = ipv4 192 168 10 97

module _ (mac : Six) where
  -- The writes of an ARP reply, in their order; `mac` is the port's address.
  unfoldable pub arp_reply : Bytes → Bytes
  arp_reply d =
      let d = patch d 20 (be16 2) in
      let d = patch d 0 (field d 6 6) in
      let d = patch d 6 (bytes6 mac) in
      let d = patch d 32 (field d 22 6) in
      let d = patch d 38 (field d 28 4) in
      let d = patch d 22 (bytes6 mac) in patch d 28 (le32 my_ip)

  unfoldable pub on_arp : Bytes → Bytes
  on_arp d =
      let reply = arp_reply d in
      if le32_at d 38 == my_ip then (if be16_at d 20 == 1 then reply else d) else d

  -- The sum is an int, cut to 16 bits: 8 << 8, and the complement of 0.
  unfoldable pub icmp_reply : Bytes → Bytes
  icmp_reply d =
      let d = set d 34 0 in patch d 36 (le16 ((le16_at d 36 + 8 * 256 + 2 ^ 32 - 1) % 65536))

  unfoldable pub on_ipv4 : Bytes → Bytes
  on_ipv4 d =
      let reply = icmp_reply d in
      if get_or d 23 0 == 1 then (if get_or d 34 0 == 8 then reply else d) else d

  unfoldable pub packet_handler : Bytes → Bytes
  packet_handler d =
      if be16_at d 12 == 2054 then on_arp d else if be16_at d 12 == 2048 then on_ipv4 d else d
