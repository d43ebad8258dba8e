-- ===== src/RingBuffer.antt =====
-- ring_buffer/ring_buffer.c and ring_buffer.h: a ring of pointers with a fixed capacity.
-- A pointer is the number that stands for it, and `none` of a `Checked` call is an access outside
-- the allocated slots. `size` is taken to be non-negative, as in all calls of the program.
pub mod Inv
pub mod Queue
pub mod Overflow
mod Tests
use diversity.Prelude.{
  ℕ, zero, suc, ◌+◌, ◌-◌, ◌%◌, Option, none, some, List, [], ◌∷◌, ◌++◌, ltb, ◌==◌, if◌then◌else◌,
  ◌>>=◌, length, get_elem?, set,
}

-- `struct ringbuf_t`
pub record RingBuf : Type 0 where
  pub ring : List ℕ
  pub size : ℕ
  pub start : ℕ
  pub end : ℕ
  pub active : ℕ

pub data Status : Type 0 where
  success error_buffer_full : Status

-- `malloc(sizeof(void*))` gives room for one pointer, with whatever it held before.
pub new_ring_buffer : ℕ → ℕ → RingBuf
new_ring_buffer old size = record { ring = old ∷ []; size = size; start = 0; end = 0; active = 0 }

-- `ring[i] = p`
abbrev pub store : List ℕ → ℕ → ℕ → Option (List ℕ)
store slots i p = if ltb i (length slots) then some (set slots i p) else none

pub push_to_queue : ℕ → RingBuf → Option (Status × RingBuf)
push_to_queue p b =
    if ltb b.active b.size
    then (do
      slots ← store b.ring b.end p
      some (success, record b { ring = slots; end = (b.end + 1) % b.size; active = b.active + 1 }))
    else some (error_buffer_full, b)

-- The inner `none` is the NULL of an empty ring.
pub retrieve_from_queue : RingBuf → Option (Option ℕ × RingBuf)
retrieve_from_queue b = if b.active == 0 then some (none, b) else (do
  p ← get_elem? b.ring b.start
  some (some p, record b { start = (b.start + 1) % b.size; active = b.active - 1 }))

-- The rounds `0 .. n - 1` of the loop of `PrintBuffer`: the pointers that it follows.
print_rounds : RingBuf → ℕ → Option (List ℕ)
print_rounds b zero = some []
print_rounds b (suc n) = do
  printed ← print_rounds b n
  p ← get_elem? b.ring ((b.start + n) % b.size)
  some (printed ++ p ∷ [])

pub print_buffer : RingBuf → Option (List ℕ)
unfolding print_rounds
print_buffer b = print_rounds b b.active

-- What a client calls, in order; `PrintBuffer` and what is retrieved is what it sees.
pub data Op : Type 0 where
  push : ℕ → Op
  retrieve print : Op

pub data Seen : Type 0 where
  status : Status → Seen
  retrieved : Option ℕ → Seen
  printed : List ℕ → Seen

pub step : Op → RingBuf → Option (Seen × RingBuf)
step (push p) b = do (s, b') ← push_to_queue p b; some (status s, b')
step retrieve b = do (r, b') ← retrieve_from_queue b; some (retrieved r, b')
step print b = do l ← print_buffer b; some (printed l, b)

pub run : List Op → RingBuf → Option (List Seen × RingBuf)
run [] b = some ([], b)
run (o ∷ ops) b = do (s, b') ← step o b; (seen, b'') ← run ops b'; some (s ∷ seen, b'')
