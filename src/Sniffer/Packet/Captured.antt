-- ===== src/Sniffer/Packet/Captured.antt =====
-- Which packets are taken apart within what was captured of them.
use diversity.Prelude.{
  ℕ, ◌+◌, ◌-◌, ◌*◌, ◌/◌, ◌%◌, ◌≤◌, ◌<◌, ◌≡◌, refl, inl, inr, some, List, [], ◌∷◌, arith, ltb,
  ltb→lt, Bool-cases, length, get_elem?, get_or, take, drop, get_elem?-eq-get_or, length-drop,
  Bytes,
}
use diversity.Sniffer.Rows.Cover.{print_payload-Rows}
use diversity.Sniffer.Packet.{
  Protocol, tcp, udp, icmp, ip, unknown, protocol_of, Printed, packet_number, invalid_ip,
  invalid_tcp, src_port, dst_port, payload_size, from_address, to_address, protocol, payload,
  network16, address_at, print_tcp_payload, print_tcp, tcp_part, by_protocol, ip_part, got_packet,
}

-- The byte is there.
abbrev byte : Bytes → ℕ → ℕ
byte packet i = get_or packet i 0

at : (packet : Bytes) (i : ℕ) → i < length packet → get_elem? packet i ≡ some (byte packet i)
at packet i h = get_elem?-eq-get_or packet i 0 h

abbrev pub ip_len_of : Bytes → ℕ
ip_len_of packet = network16 (get_or packet 16 0) (get_or packet 17 0)

payload_returns :
    (packet : Bytes) (ip_len headers : ℕ)
    → 14 + ip_len ≤ length packet
    → (r : List Printed) × (print_tcp_payload packet ip_len headers ≡ some r)
unfolding print_tcp_payload
payload_returns packet ip_len headers l = elim (Bool-cases (ltb headers ip_len)) [
  | inl t ↦
      let (rows, e, c) =
        print_payload-Rows (drop (14 + headers) packet) (ip_len - headers)
          (omega (arith, length-drop (14 + headers) packet, ltb→lt headers ip_len t)) in
      (payload_size (ip_len - headers) ∷ payload rows ∷ [], rw (t, e))
  | inr f ↦ ([], rw f)
]

tcp_returns :
    (packet : Bytes) (size_ip : ℕ)
    → size_ip ≤ 60
    → 87 ≤ length packet
    → 14 + ip_len_of packet ≤ length packet
    → (r : List Printed) × (tcp_part packet size_ip ≡ some r)
unfolding tcp_part print_tcp
tcp_returns packet size_ip s l c =
    let size_tcp = byte packet (14 + size_ip + 12) / 16 * 4 in
    let (r, e) = payload_returns packet (ip_len_of packet) (size_ip + size_tcp) c in
    elim (Bool-cases (ltb size_tcp 20)) [
      | inl t ↦ (
        invalid_tcp size_tcp ∷ [],
        rw (
          at packet (14 + size_ip + 12) (omega arith),
          at packet 16 (omega arith),
          at packet 17 (omega arith),
          t,
        ),
      )
      | inr f ↦ (
        src_port (network16 (byte packet (14 + size_ip)) (byte packet (14 + size_ip + 1)))
            ∷ dst_port
                (network16 (byte packet (14 + size_ip + 2)) (byte packet (14 + size_ip + 2 + 1)))
            ∷ r,
        rw (
          at packet (14 + size_ip + 12) (omega arith),
          at packet 16 (omega arith),
          at packet 17 (omega arith),
          f,
          at packet (14 + size_ip) (omega arith),
          at packet (14 + size_ip + 1) (omega arith),
          at packet (14 + size_ip + 2) (omega arith),
          at packet (14 + size_ip + 2 + 1) (omega arith),
          e,
        ),
      )
    ]

by_protocol_returns :
    (p : Protocol) (packet : Bytes) (size_ip : ℕ)
    → size_ip ≤ 60
    → 87 ≤ length packet
    → 14 + ip_len_of packet ≤ length packet
    → (r : List Printed) × (by_protocol p packet size_ip ≡ some r)
by_protocol_returns tcp packet size_ip s l c = tcp_returns packet size_ip s l c
by_protocol_returns udp packet size_ip s l c = ([], refl)
by_protocol_returns icmp packet size_ip s l c = ([], refl)
by_protocol_returns ip packet size_ip s l c = ([], refl)
by_protocol_returns unknown packet size_ip s l c = ([], refl)

address_at_inside :
    (packet : Bytes) (i : ℕ)
    → i + 4 ≤ length packet
    → address_at packet i ≡ some (take 4 (drop i packet))
address_at_inside packet i h = ground arith

-- A packet of which at least 87 bytes, and at least what its IP header says, were captured is taken
-- apart without a read behind them, whatever its bytes are.
pub got_packet-captured :
    (count : ℕ) (packet : Bytes)
    → 87 ≤ length packet
    → 14 + ip_len_of packet ≤ length packet
    → (printed : List Printed) × (got_packet count packet
        ≡ some (packet_number count ∷ printed, count + 1))
unfolding got_packet ip_part
got_packet-captured count packet l c =
    let size_ip = byte packet 14 % 16 * 4 in
    let p = protocol_of (byte packet 23) in
    let (r, e) = by_protocol_returns p packet size_ip (omega arith) l c in
    elim (Bool-cases (ltb size_ip 20)) [
      | inl t ↦ (invalid_ip size_ip ∷ [], rw (at packet 14 (omega arith), t))
      | inr f ↦ (
        from_address (take 4 (drop 26 packet))
            ∷ to_address (take 4 (drop 30 packet))
            ∷ protocol p
            ∷ r,
        rw (
          at packet 14 (omega arith),
          f,
          address_at_inside packet 26 (omega arith),
          address_at_inside packet 30 (omega arith),
          at packet 23 (omega arith),
          e,
        ),
      )
    ]
