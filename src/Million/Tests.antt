-- ===== src/Million/Tests.antt =====
-- Three datagrams, sent in two calls and received in two.
use diversity.Prelude.{◌*◌, ◌%◌, ◌^◌, ◌≡◌, refl, true, some, List, [], ◌∷◌, arith, Bytes}
use diversity.Million.Receiver.{thread_loop}
use diversity.Million.Receiver.Cleared.{fresh}
use diversity.Million.Sender
use diversity.Million.Sender.{Result, sent, refused}
use diversity.Million.Stream.{Batch, all_datagrams, calls, thread_loop-thread_loop}

abbrev two_bytes : Bytes
two_bytes = 0 ∷ 0 ∷ []

abbrev few_packets : Sender.State
few_packets = record { packets_in_buf = 4; payload = two_bytes }

abbrev three_sent : List Result
three_sent = sent 2 ∷ refused ∷ sent 1 ∷ []

abbrev two_batches : List Batch
two_batches = (two_bytes, []) ∷ (two_bytes, two_bytes ∷ []) ∷ []

three_arrive : all_datagrams two_batches ≡ (Sender.thread_loop few_packets three_sent).0
unfolding Sender.thread_loop Sender.send_loop Sender.messages
three_arrive = refl

thread_loop-thread_loop_example :
    thread_loop (calls two_batches) (fresh 0 0) ≡ some (fresh (3 % 2 ^ 64) (3 * 2 % 2 ^ 64), true)
thread_loop-thread_loop_example =
    thread_loop-thread_loop few_packets three_sent two_batches (omega arith, (omega arith, tt))
      (omega arith) (omega arith, (omega arith, tt)) three_arrive
