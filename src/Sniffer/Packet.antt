-- ===== src/Sniffer/Packet.antt =====
-- libpcap/sniffex.c, `got_packet`, on the captured bytes of an Ethernet frame. `none` is a read behind them:
-- the handler never looks at `header->caplen`.
pub mod Captured
pub mod Cut
use diversity.Prelude.{
  ℕ, ◌+◌, ◌-◌, ◌*◌, ◌/◌, ◌%◌, Option, none, some, List, [], ◌∷◌, ltb, leb, ◌==◌, if◌then◌else◌,
  ◌>>=◌, length, get_elem?, take, drop, Bytes,
}
use diversity.Sniffer.Rows.{Row, print_payload}

pub data Protocol : Type 0 where
  tcp udp icmp ip unknown : Protocol

abbrev pub protocol_of : ℕ → Protocol
protocol_of p =
    if p == 6
    then tcp
    else if p == 17
    then udp
    else if p == 1
    then icmp
    else if p == 0
    then ip
    else unknown

-- What is printed, in this order: an address is four bytes from an offset on.
pub data Printed : Type 0 where
  packet_number invalid_ip invalid_tcp src_port dst_port payload_size : ℕ → Printed
  from_address to_address : Bytes → Printed
  protocol : Protocol → Printed
  payload : List Row → Printed

abbrev pub network16 : ℕ → ℕ → ℕ
network16 hi lo = 256 * hi + lo

-- An unsigned short in network order
abbrev pub ntohs_at : Bytes → ℕ → Option ℕ
ntohs_at packet i = do
  hi ← get_elem? packet i
  lo ← get_elem? packet (i + 1)
  some (network16 hi lo)

abbrev pub address_at : Bytes → ℕ → Option Bytes
address_at packet i = if leb (i + 4) (length packet) then some (take 4 (drop i packet)) else none

-- The payload from `ip_len` and the sizes of the headers; nothing is printed if it is not positive.
abbrev sized_payload : Bytes → ℕ → Option (List Printed)
sized_payload bytes size = do
  rows ← print_payload bytes size
  some (payload_size size ∷ payload rows ∷ [])

unfoldable pub print_tcp_payload : Bytes → ℕ → ℕ → Option (List Printed)
print_tcp_payload packet ip_len headers =
    if ltb headers ip_len
    then sized_payload (drop (14 + headers) packet) (ip_len - headers)
    else some []

abbrev ports_and_payload : Bytes → ℕ → ℕ → ℕ → Option (List Printed)
ports_and_payload packet size_ip size_tcp ip_len = do
  sport ← ntohs_at packet (14 + size_ip)
  dport ← ntohs_at packet (14 + size_ip + 2)
  rest ← print_tcp_payload packet ip_len (size_ip + size_tcp)
  some (src_port sport ∷ dst_port dport ∷ rest)

unfoldable pub print_tcp : Bytes → ℕ → ℕ → ℕ → Option (List Printed)
print_tcp packet size_ip size_tcp ip_len =
    if ltb size_tcp 20
    then some (invalid_tcp size_tcp ∷ [])
    else ports_and_payload packet size_ip size_tcp ip_len

-- The TCP header, whose length is in the byte at 12.
unfoldable pub tcp_part : Bytes → ℕ → Option (List Printed)
tcp_part packet size_ip = do
  offx2 ← get_elem? packet (14 + size_ip + 12)
  ip_len ← ntohs_at packet 16
  print_tcp packet size_ip (offx2 / 16 * 4) ip_len

abbrev pub by_protocol : Protocol → Bytes → ℕ → Option (List Printed)
by_protocol tcp packet size_ip = tcp_part packet size_ip
by_protocol udp packet size_ip = some []
by_protocol icmp packet size_ip = some []
by_protocol ip packet size_ip = some []
by_protocol unknown packet size_ip = some []

abbrev addresses_and_protocol : Bytes → ℕ → Option (List Printed)
addresses_and_protocol packet size_ip = do
  src ← address_at packet 26
  dst ← address_at packet 30
  p ← get_elem? packet 23
  rest ← by_protocol (protocol_of p) packet size_ip
  some (from_address src ∷ to_address dst ∷ protocol (protocol_of p) ∷ rest)

unfoldable pub ip_part : Bytes → ℕ → Option (List Printed)
ip_part packet size_ip =
    if ltb size_ip 20 then some (invalid_ip size_ip ∷ []) else addresses_and_protocol packet size_ip

-- With the static `count`, which the call leaves one larger.
unfoldable pub got_packet : ℕ → Bytes → Option (List Printed × ℕ)
got_packet count packet = do
  vhl ← get_elem? packet 14
  printed ← ip_part packet (vhl % 16 * 4)
  some (packet_number count ∷ printed, count + 1)
