-- ===== src/Sniffer/Packet/Cut.antt =====
-- Packets of which less was captured than their IP header says.
use diversity.Prelude.{
  ℕ, zero, suc, ◌+◌, ◌-◌, ◌<◌, ◌≡◌, refl, inl, inr, Option, none, some, arith, leb, lt→ltb,
  Bool-cases, length, drop, length-drop, Bytes,
}
use diversity.Sniffer.Rows.{Row, row_at, one_row, followed, payload_rows, print_payload}
use diversity.Sniffer.Rows.Cover.{leb_gt, remainder_lem, suc_test}
use diversity.Sniffer.Packet.{print_tcp_payload}

followed-none : (r : Option Row) → followed r none ≡ none
followed-none none = refl
followed-none (some r) = refl

one_row_outside : (ch : Bytes) (len offset : ℕ) → length ch < len → one_row ch len offset ≡ none
one_row_outside ch len offset h = ground arith

shorter : (ch : Bytes) (len : ℕ) → 16 < len → length ch < len → length (drop 16 ch) < len - 16
shorter ch len s h = omega (arith, length-drop 16 ch)

payload_rows_outside :
    (fuel : ℕ) (ch : Bytes) (len offset : ℕ)
    → 16 < len
    → length ch < len
    → payload_rows fuel ch len offset ≡ none
unfolding payload_rows
payload_rows_outside zero ch len offset s h = refl
payload_rows_outside (suc fuel) ch len offset s h = elim (Bool-cases (leb (len - 16) 16)) [
  | inl t ↦
      rw
        (
          remainder_lem len s,
          t,
          one_row_outside (drop 16 ch) (len - 16) (offset + 16) (shorter ch len s h),
        )
        (followed-none (row_at ch 16 offset))
  | inr n ↦
      rw
        (
          remainder_lem len s,
          n,
          payload_rows_outside fuel (drop 16 ch) (len - 16) (offset + 16) (leb_gt (len - 16) 16 n)
              (shorter ch len s h),
        )
        (followed-none (row_at ch 16 offset))
]

print_payload_outside : (ch : Bytes) (len : ℕ) → length ch < len → print_payload ch len ≡ none
unfolding print_payload
print_payload_outside ch zero h = absurd (omega arith)
print_payload_outside ch (suc n) h = elim (Bool-cases (leb (suc n) 16)) [
  | inl t ↦ rw (suc_test n, t) (one_row_outside ch (suc n) 0 h)
  | inr f ↦ rw (suc_test n, f) (payload_rows_outside (suc n) ch (suc n) 0 (leb_gt (suc n) 16 f) h)
]

-- Where the IP header claims more than was captured, and more than the two headers, printing the
-- payload of a TCP packet reads behind the captured bytes.
pub print_tcp_payload-cut :
    (packet : Bytes) (ip_len headers : ℕ)
    → headers < ip_len
    → length packet < 14 + ip_len
    → print_tcp_payload packet ip_len headers ≡ none
unfolding print_tcp_payload
print_tcp_payload-cut packet ip_len headers p l = rw (
  lt→ltb headers ip_len p,
  print_payload_outside (drop (14 + headers) packet) (ip_len - headers)
      (omega (arith, length-drop (14 + headers) packet)),
)
