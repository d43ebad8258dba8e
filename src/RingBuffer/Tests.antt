-- ===== src/RingBuffer/Tests.antt =====
-- The calls of ring_buffer/main.c on small rings, and the theorems at concrete rings.
use diversity.Prelude.{ℕ, ◌≡◌, refl, Option, none, some, List, [], ◌∷◌, arith}
use diversity.RingBuffer.{
  RingBuf, Status, success, error_buffer_full, push_to_queue, retrieve_from_queue, print_buffer, Op,
  push, retrieve, print, status, retrieved, printed, step, run,
}
use diversity.RingBuffer.Inv.{IsValid}
use diversity.RingBuffer.Queue.{
  contents, queue_push, queue_retrieve, queue_run, push_to_queue_refines,
  retrieve_from_queue_refines, run_refines,
}

-- A ring with room for three, that holds 30 and then 10 round the end.
abbrev three : RingBuf
three = record { ring = 10 ∷ 20 ∷ 30 ∷ []; size = 3; start = 2; end = 1; active = 2 }

abbrev calls : List Op
calls = push 40 ∷ push 50 ∷ print ∷ retrieve ∷ retrieve ∷ retrieve ∷ retrieve ∷ []

three-IsValid : IsValid three
three-IsValid = omega arith

run-three :
    (b : RingBuf) × (run calls three
      ≡ some (
        status success
            ∷ status error_buffer_full
            ∷ printed (30 ∷ 10 ∷ 40 ∷ [])
            ∷ retrieved (some 30)
            ∷ retrieved (some 10)
            ∷ retrieved (some 40)
            ∷ retrieved none
            ∷ [],
        b,
      ))
unfolding run step push_to_queue retrieve_from_queue print_buffer
run-three = (record { ring = 10 ∷ 40 ∷ 30 ∷ []; size = 3; start = 2; end = 2; active = 0 }, refl)

run_refines_example :
    (b : RingBuf) × (run calls three ≡ some (queue_run 3 calls (30 ∷ 10 ∷ []), b)) × IsValid b
run_refines_example = run_refines calls three-IsValid

push_to_queue_refines_example :
    (s : Status) × (b : RingBuf) × (push_to_queue 40 three ≡ some (s, b))
    × ((s, contents b) ≡ queue_push 3 40 (30 ∷ 10 ∷ []))
    × IsValid b
    × (b.size ≡ 3)
push_to_queue_refines_example = push_to_queue_refines 40 three-IsValid

retrieve_from_queue_refines_example :
    (r : Option ℕ) × (b : RingBuf) × (retrieve_from_queue three ≡ some (r, b))
    × ((r, contents b) ≡ queue_retrieve (30 ∷ 10 ∷ []))
    × IsValid b
    × (b.size ≡ 3)
retrieve_from_queue_refines_example = retrieve_from_queue_refines three-IsValid
