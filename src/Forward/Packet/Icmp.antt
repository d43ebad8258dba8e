-- ===== src/Forward/Packet/Icmp.antt =====
-- The answer to an ICMP echo request.
use diversity.Checksum.Csum.Sum.{word_sum-add}
use diversity.Prelude.{
  ℕ, ◌+◌, ◌-◌, ◌*◌, ◌/◌, ◌%◌, ◌^◌, ◌<◌, ◌≡◌, sym, ap, ◌∙◌, ◌≢◌, ◌∷◌, ◌++◌, arith, drop, Bytes,
}
use diversity.Prelude.Frames.{Two, Four, Six, bytes2, bytes4, bytes6, le16}
use diversity.Checksum.Csum.{word_sum}
use diversity.Forward.Packet.{icmp_reply, on_ipv4, packet_handler}

-- An Ethernet frame with an IPv4 header of 20 bytes: what stands before the protocol and behind it, and the message.
abbrev pub ipv4_frame : Six → Six → (Six × Two × ℕ) → ℕ → (Six × Four) → Bytes → Bytes
ipv4_frame dst src front protocol back message =
    bytes6 dst
    ++ (bytes6 src
        ++ (8 ∷ 0 ∷ bytes6 front.0
            ++ (bytes2 front.1
                ++ (front.2 ∷ protocol ∷ bytes6 back.0 ++ (bytes4 back.1 ++ message)))))

-- What the program writes over the checksum `lo`, `hi`.
abbrev pub new_checksum : ℕ → ℕ → ℕ
new_checksum lo hi = (lo + 256 * hi + 2047) % 65536

same_checksum : (lo hi : ℕ) → (lo + 256 * hi + 8 * 256 + 2 ^ 32 - 1) % 65536 ≡ new_checksum lo hi
same_checksum lo hi = omega arith

-- An echo request comes back as a reply with the same code, identifier, number and data, and 2047 added to
-- the checksum as it is stored; its addresses are not exchanged.
pub packet_handler-icmp :
    (mac dst src : Six) (front : Six × Two × ℕ) (back : Six × Four) (code lo hi : ℕ) (rest : Bytes)
    → packet_handler mac (ipv4_frame dst src front 1 back (8 ∷ code ∷ lo ∷ hi ∷ rest))
      ≡ ipv4_frame dst src front 1 back (0 ∷ code ∷ le16 (new_checksum lo hi) ++ rest)
unfolding packet_handler on_ipv4 icmp_reply
packet_handler-icmp mac dst src front back code lo hi rest =
    ap (λ c. ipv4_frame dst src front 1 back (0 ∷ code ∷ le16 c ++ rest)) (same_checksum lo hi)

from_zero : (bs : Bytes) (m : ℕ) → word_sum bs m ≡ word_sum bs 0 + m
from_zero bs m = ap (word_sum bs) {y = 0 + m} (omega arith) ∙ word_sum-add bs 0 m

wrong_sum :
    (code lo hi : ℕ) (rest : Bytes)
    → lo < 256
    → hi < 256
    → word_sum (8 ∷ code ∷ lo ∷ hi ∷ rest) 0 % 65535 ≡ 0
    → word_sum (0 ∷ code ∷ le16 (new_checksum lo hi) ++ rest) 0 % 65535 ≢ 0
unfolding word_sum
wrong_sum code lo hi rest l h v e =
    let c = new_checksum lo hi in
    omega (
      arith,
      v,
      e,
      from_zero rest (0 + (8 + 256 * code) + (lo + 256 * hi)),
      from_zero rest (0 + (0 + 256 * code) + (c % 256 + 256 * (c / 256 % 256))),
    )

-- An echo request whose words add up to a multiple of 65535, as a valid checksum makes them, is answered with a
-- message whose words do not: the checksum of every reply is wrong.
pub packet_handler-word_sum :
    (mac dst src : Six) (front : Six × Two × ℕ) (back : Six × Four) (code lo hi : ℕ) (rest : Bytes)
    → lo < 256
    → hi < 256
    → word_sum (8 ∷ code ∷ lo ∷ hi ∷ rest) 0 % 65535 ≡ 0
    → word_sum
          (drop 34
            (packet_handler mac (ipv4_frame dst src front 1 back (8 ∷ code ∷ lo ∷ hi ∷ rest))))
          0
        % 65535
      ≢ 0
packet_handler-word_sum mac dst src front back code lo hi rest l h v e =
    let answer = packet_handler-icmp mac dst src front back code lo hi rest in
    wrong_sum code lo hi rest l h v (ap (λ d. word_sum (drop 34 d) 0 % 65535) (sym answer) ∙ e)
