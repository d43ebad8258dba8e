-- ===== src/LevelDb/Receiver.antt =====
-- fast_leveldb/src/udpreceiver.c: the receiving threads, their counters and the reports of `main`.
pub mod Counters
use diversity.Prelude.{ℕ, ◌+◌, ◌-◌, ◌%◌, ◌^◌, Option, some, List, [], ◌∷◌, ◌>>=◌, length, Bytes}
use diversity.LevelDb.Api.{LevelDb}
use diversity.LevelDb.Deliver.{deliver}

-- A received message: `msg_len`, and its buffer.
pub record Received : Type 0 where
  pub msg_len : ℕ
  pub buffer : Bytes

module _ (lib : LevelDb) where
  open lib use {World}

  -- `struct state`, without the descriptors and the vectors that `state_init` sets up once.
  pub record State : Type 0 where
    pub pps : ℕ
    pub bps : ℕ
    pub world : World

  -- The loop over the messages of one `recvmmsg`: the database and `bytes`. The reply is dropped.
  unfoldable pub handle_all : List Received → World → ℕ → Option (World × ℕ)
  handle_all [] w bytes = some (w, bytes)
  handle_all (r ∷ rs) w bytes = do
    (reply, w') ← deliver lib r.buffer w
    handle_all rs w' (bytes + r.msg_len)

  -- The atomic additions are modulo 2 ^ 64.
  unfoldable pub on_batch : List Received → State → Option State
  on_batch rs s = do
    (w, bytes) ← handle_all rs s.world 0
    some (record { pps = (s.pps + length rs) % 2 ^ 64; bps = (s.bps + bytes) % 2 ^ 64; world = w })

-- What `recvmmsg` returns to a thread: messages, or an error that is retried or is fatal.
pub data Recv : Type 0 where
  messages : List Received → Recv
  again fatal : Recv

module _ (lib : LevelDb) where
  pub data Thread : Type 0 where
    waiting exited : State lib → Thread

  -- `thread_loop` on what the calls return, as long as they return; `none` is a read outside a buffer.
  unfoldable pub thread_loop : List Recv → State lib → Option (Thread)
  thread_loop [] s = some (waiting s)
  thread_loop (again ∷ rs) s = thread_loop rs s
  thread_loop (fatal ∷ rs) s = some (exited s)
  thread_loop (messages l ∷ rs) s = do s' ← on_batch lib l s; thread_loop rs s'

-- The sum over the threads, in 64 bits.
unfoldable pub total : List ℕ → ℕ
total [] = 0
total (x ∷ xs) = (x + total xs) % 2 ^ 64

-- One report of `main`: the difference to the last one, and what is kept for the next.
unfoldable pub report : List ℕ → ℕ → ℕ × ℕ
report counters last = let now = total counters in ((now + 2 ^ 64 - last) % 2 ^ 64, now)
