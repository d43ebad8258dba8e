-- ===== src/Prelude/Frames.antt =====
-- Packets as lists of bytes, on a little-endian machine: fields, writes, and short runs of bytes as tuples, so that a
-- packet of tuples computes to its bytes.
use Prim.Native.Nat.{ℕ, suc, ◌+◌, ◌*◌, ◌/◌, ◌%◌}
use mathlib.Core.List.{[], ◌∷◌}
use diversity.Prelude.Lists.{get_or, set, take, drop}
use diversity.Prelude.Text.{Bytes}

abbrev pub Two : Type 0
Two = ℕ × ℕ

abbrev pub Four : Type 0
Four = ℕ × ℕ × ℕ × ℕ

abbrev pub Six : Type 0
Six = ℕ × ℕ × ℕ × ℕ × ℕ × ℕ

abbrev pub bytes2 : Two → Bytes
bytes2 t = t.0 ∷ t.1 ∷ []

abbrev pub bytes4 : Four → Bytes
bytes4 t = t.0 ∷ t.1 ∷ t.2 ∷ t.3 ∷ []

abbrev pub bytes6 : Six → Bytes
bytes6 t = t.0 ∷ t.1 ∷ t.2 ∷ t.3 ∷ t.4 ∷ t.5 ∷ []

-- `n` bytes from an offset on, and a copy of bytes to an offset
abbrev pub field : Bytes → ℕ → ℕ → Bytes
field d i n = take n (drop i d)

abbrev pub patch : Bytes → ℕ → Bytes → Bytes
patch d i [] = d
patch d i (b ∷ bs) = patch (set d i b) (suc i) bs

-- An unsigned short as stored, and in network order
abbrev pub le16_at : Bytes → ℕ → ℕ
le16_at d i = get_or d i 0 + 256 * get_or d (suc i) 0

abbrev pub be16_at : Bytes → ℕ → ℕ
be16_at d i = 256 * get_or d i 0 + get_or d (suc i) 0

abbrev pub le32_at : Bytes → ℕ → ℕ
le32_at d i =
    get_or d i 0
    + 256 * get_or d (suc i) 0
    + 65536 * get_or d (suc (suc i)) 0
    + 16777216 * get_or d (suc (suc (suc i))) 0

abbrev pub le16 : ℕ → Bytes
le16 v = v % 256 ∷ v / 256 % 256 ∷ []

abbrev pub be16 : ℕ → Bytes
be16 v = v / 256 % 256 ∷ v % 256 ∷ []

abbrev pub le32 : ℕ → Bytes
le32 v = v % 256 ∷ v / 256 % 256 ∷ v / 65536 % 256 ∷ v / 16777216 % 256 ∷ []

abbrev pub be32 : ℕ → Bytes
be32 v = v / 16777216 % 256 ∷ v / 65536 % 256 ∷ v / 256 % 256 ∷ v % 256 ∷ []

-- The macro IPv4(a, b, c, d) of DPDK
abbrev pub ipv4 : ℕ → ℕ → ℕ → ℕ → ℕ
ipv4 a b c d = a * 16777216 + b * 65536 + c * 256 + d
