-- ===== src/Million/Receiver.antt =====
-- how-to-receive-a-million-packets/udpreceiver1.c: `state_init` and `thread_loop`, on what `recvmmsg` stores in the
-- vectors. `none` is an `int` past its bound, or a message behind the vectors.
pub mod Cleared
use diversity.Prelude.{
  ℕ, zero, suc, ◌+◌, ◌-◌, ◌*◌, ◌%◌, ◌^◌, Bool, true, false, Option, none, some, List, [], ◌∷◌,
  ◌>>=◌, bounded, length,
}

abbrev pub mtu_size : ℕ
mtu_size = 2048 - 64 * 2

abbrev pub max_msg : ℕ
max_msg = 512

-- A `struct mmsghdr` with its `struct iovec`, whose index is `msg_iov` and whose buffer is an offset into `buffers`.
pub record Slot : Type 0 where
  pub iov_base : ℕ
  pub iov_len : ℕ
  pub msg_iov : ℕ
  pub msg_iovlen : ℕ
  pub msg_flags : ℕ
  pub msg_len : ℕ

-- The slots from the index `i` on
unfoldable pub init_slots : ℕ → ℕ → List Slot
init_slots i zero = []
init_slots i (suc n) =
    record {
      iov_base = i * mtu_size;
      iov_len = mtu_size;
      msg_iov = i;
      msg_iovlen = 1;
      msg_flags = 0;
      msg_len = 0;
    }
    ∷ init_slots (suc i) n

abbrev pub state_init : List Slot
state_init = init_slots 0 max_msg

-- `struct state`, without the descriptor
pub record State : Type 0 where
  pub pps : ℕ
  pub bps : ℕ
  pub messages : List Slot

-- A message that arrived: its length and the flags of its header.
abbrev pub Arrival : Type 0
Arrival = ℕ × ℕ

-- What `recvmmsg` stores: the messages in the first slots.
unfoldable pub stored : List Arrival → List Slot → List Slot
stored [] slots = slots
stored (m ∷ ms) [] = []
stored (m ∷ ms) (s ∷ slots) = record s { msg_len = m.0; msg_flags = m.1 } ∷ stored ms slots

-- The loop over the first `r` messages
unfoldable pub count_bytes : ℕ → List Slot → ℕ → Option (List Slot × ℕ)
count_bytes zero slots bytes = some (slots, bytes)
count_bytes (suc r) [] bytes = none
count_bytes (suc r) (s ∷ slots) bytes = do
  sum ← bounded (bytes + s.msg_len)
  (cleared, total) ← count_bytes r slots sum
  some (record s { msg_flags = 0; msg_len = 0 } ∷ cleared, total)

-- The additions are atomic, of 64 bits.
unfoldable pub on_batch : List Arrival → State → Option State
on_batch ms s = do
  (slots, bytes) ← count_bytes (length ms) (stored ms s.messages) 0
  some record {
    pps = (s.pps + length ms) % 2 ^ 64;
    bps = (s.bps + bytes) % 2 ^ 64;
    messages = slots;
  }

-- What `recvmmsg` returns: at least one message, or an error that is retried or is fatal.
pub data Recv : Type 0 where
  messages : Arrival → List Arrival → Recv
  again fatal : Recv

-- With whether the thread still runs.
unfoldable pub thread_loop : List Recv → State → Option (State × Bool)
thread_loop [] s = some (s, true)
thread_loop (messages m ms ∷ rs) s = do s' ← on_batch (m ∷ ms) s; thread_loop rs s'
thread_loop (again ∷ rs) s = thread_loop rs s
thread_loop (fatal ∷ rs) s = some (s, false)
