-- ===== src/RingBuffer/Inv.antt =====
-- The representation invariant of `struct ringbuf_t` with enough slots, and its preservation.
use diversity.Prelude.{ℕ, suc, ◌+◌, ◌-◌, ◌%◌, ◌≤◌, ◌<◌, ◌≡◌, ap, arith, length, set, length-set}
use native.Mathlib.Nat.{mod-add-mod}
use diversity.RingBuffer.{RingBuf}

pub record IsValid (b : RingBuf) : Type 0 where
  pub room : b.size ≤ length b.ring
  pub positive : 0 < b.size
  pub start_in : b.start < b.size
  pub active_in : b.active ≤ b.size
  pub end_at : b.end ≡ (b.start + b.active) % b.size

pub end-lt : {b : RingBuf} → IsValid b → b.end < length b.ring
end-lt v = omega arith

-- One step on from a slot that was reached round the ring.
pub mod-add-mod_step : (s i n : ℕ) → ((s + 1) % n + i) % n ≡ (s + suc i) % n
mod-add-mod_step s i n = rw mod-add-mod (ap (λ k. k % n) (omega arith))

pub mod-add-mod_end : (s a n : ℕ) → ((s + a) % n + 1) % n ≡ (s + (a + 1)) % n
mod-add-mod_end s a n = rw mod-add-mod (ap (λ k. k % n) (omega arith))

-- The state after a push that finds room.
abbrev pub pushed : ℕ → RingBuf → RingBuf
pushed p b = record b {
  ring = set b.ring b.end p;
  end = (b.end + 1) % b.size;
  active = b.active + 1;
}

pub pushed-IsValid : (p : ℕ) {b : RingBuf} → IsValid b → b.active < b.size → IsValid (pushed p b)
pushed-IsValid p {b} v h =
    ground (arith, mod-add-mod_end b.start b.active b.size, length-set b.ring b.end p)

-- The state after a retrieval from a ring that is not empty.
abbrev pub popped : RingBuf → RingBuf
popped b = record b { start = (b.start + 1) % b.size; active = b.active - 1 }

popped-end : (s a n : ℕ) → 0 < a → (s + a) % n ≡ ((s + 1) % n + (a - 1)) % n
popped-end s a n h = rw (mod-add-mod_step s (a - 1) n) (ap (λ k. k % n) (omega arith))

pub popped-IsValid : {b : RingBuf} → IsValid b → 0 < b.active → IsValid (popped b)
popped-IsValid {b} v h = ground (arith, popped-end b.start b.active b.size)
