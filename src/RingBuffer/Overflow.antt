-- ===== src/RingBuffer/Overflow.antt =====
-- What `NewRingBuffer` allocates: one slot, whatever the size.
use diversity.Prelude.{ℕ, ◌%◌, ◌≤◌, ◌≡◌, none, some, [], ◌∷◌, arith}
use diversity.RingBuffer.{RingBuf, success, new_ring_buffer, push_to_queue}
use diversity.RingBuffer.Inv.{IsValid}
use native.Mathlib.Nat.{mod-eq_of_lt}

-- A new ring that is asked for two pointers or more takes the first push, and the second one
-- writes outside the slot that was allocated.
pub new_ring_buffer-overflow :
    (old size p q : ℕ)
    → 2 ≤ size
    → (b : RingBuf) × (push_to_queue p (new_ring_buffer old size) ≡ some (success, b))
      × (push_to_queue q b ≡ none)
unfolding new_ring_buffer push_to_queue
new_ring_buffer-overflow old size p q h = (
  record { ring = p ∷ []; size = size; start = 0; end = 1 % size; active = 1 },
  ground arith,
  ground (arith, mod-eq_of_lt {n = 1} {m = size} h),
)

-- A new ring for one pointer is valid.
pub new_ring_buffer-IsValid : (old : ℕ) → IsValid (new_ring_buffer old 1)
unfolding new_ring_buffer
new_ring_buffer-IsValid old = omega arith
