-- ===== src/LevelDb/Tests.antt =====
-- A database in memory that reports no error, and the theorems at concrete requests.
use diversity.Prelude.{
  ℕ, zero, suc, ◌+◌, ◌-◌, ◌%◌, ◌^◌, ◌≡◌, refl, Option, none, some, List, [], ◌∷◌, arith,
  if◌then◌else◌, replicate, Bytes, codes, bytes_eq,
}
use diversity.LevelDb.Api.{LevelDb, Laws, NoErrors}
use diversity.LevelDb.Deliver.{Reply, deliver}
use diversity.LevelDb.Deliver.Bounds.{IsBytes, deliver_returns}
use diversity.LevelDb.Deliver.Frames.{
  Command, put, get, delete, deliver_all, buffers, answers, deliver_all-answers,
}
use diversity.LevelDb.Receiver.{Received, Recv, Thread, thread_loop, total}
use diversity.LevelDb.Receiver.Counters.{FromBuffers, sum_len, state_of, thread_loop-received}

abbrev in_memory : LevelDb
in_memory = record {
  World = Bytes → Option Bytes;
  Error = Unit {0};
  put = λ k v m. (none, λ j. if bytes_eq k j then some v else m j);
  get = λ k m. (m k, none);
  delete = λ k m. (none, λ j. if bytes_eq k j then none else m j);
}

abbrev in_memory_laws : Laws in_memory
in_memory_laws = record {
  view = λ m. m;
  get-view = λ k w e. refl;
  view-put = λ k v w j e. refl;
  view-delete = λ k w j e. refl;
}

abbrev in_memory_calm : NoErrors in_memory
in_memory_calm = record {
  put_works = λ k v w. refl;
  get_works = λ k w. refl;
  delete_works = λ k w. refl;
}

abbrev empty : Bytes → Option Bytes
empty j = none

abbrev zeros : ℕ → Bytes
zeros n = replicate n 0

zeros-IsBytes : (n : ℕ) → IsBytes (zeros n)
zeros-IsBytes zero = tt
zeros-IsBytes (suc n) = (omega arith, zeros-IsBytes n)

-- A get whose key would have 255 bytes.
deliver_returns_example :
    (r : Reply × (Bytes → Option Bytes)) × (deliver in_memory (2 ∷ 255 ∷ replicate 511 0) empty
      ≡ some r)
deliver_returns_example =
    deliver_returns in_memory (2 ∷ 255 ∷ replicate 511 0) empty
      (omega arith, (omega arith, zeros-IsBytes 511)) (omega arith)

abbrev three : List (Command × ℕ × Bytes)
three =
    (put (codes "k") (codes "v"), 0, [])
    ∷ (get (codes "k"), 9, codes "old")
    ∷ (delete (codes "k"), 0, [])
    ∷ []

deliver_all-answers_example :
    (w' : Bytes → Option Bytes) × (deliver_all in_memory in_memory_laws in_memory_calm
        (buffers in_memory in_memory_laws in_memory_calm three)
        empty
      ≡ some (answers in_memory in_memory_laws in_memory_calm three empty, w'))
deliver_all-answers_example =
    deliver_all-answers in_memory in_memory_laws in_memory_calm three empty

seven : total (3 ∷ 4 ∷ []) ≡ (2 ^ 64 - 2 + 9) % 2 ^ 64
unfolding total
seven = refl

abbrev one : Received
one = record { msg_len = 32; buffer = zeros 1920 }

some_FromBuffers : (n : ℕ) → FromBuffers (replicate n one)
some_FromBuffers zero = tt
some_FromBuffers (suc n) = (omega arith, refl, zeros-IsBytes 1920, some_FromBuffers n)

abbrev arrivals : List Recv
arrivals = Recv.messages (one ∷ []) ∷ Recv.again ∷ Recv.messages (one ∷ one ∷ []) ∷ []

thread_loop-received_example :
    (t : Thread in_memory) × (thread_loop in_memory arrivals
        (record { pps = 5; bps = 7; world = empty })
      ≡ some t)
    × ((state_of in_memory t).pps ≡ 8)
    × ((state_of in_memory t).bps ≡ 103)
unfolding sum_len
thread_loop-received_example =
    thread_loop-received in_memory arrivals (record { pps = 5; bps = 7; world = empty })
      (some_FromBuffers 1, omega arith, (some_FromBuffers 2, omega arith, tt)) (omega arith)
      (omega arith)
