-- ===== src/LevelDb/Receiver/Counters.antt =====
-- The counters of a thread, and what `main` reports of them.
use diversity.Prelude.{
  ℕ, ◌+◌, ◌*◌, ◌%◌, ◌^◌, ◌≤◌, ◌<◌, ◌≡◌, refl, ap, ap₂, ◌∙◌, some, List, [], ◌∷◌, arith, length,
}
use diversity.LevelDb.Api.{LevelDb}
use diversity.LevelDb.Deliver.Bounds.{IsBytes, deliver_returns}
use diversity.LevelDb.Receiver.{
  Received, State, handle_all, on_batch, Recv, messages, again, fatal, Thread, waiting, exited,
  thread_loop, total, report,
}

-- What `MAX_MSG` and `MTU_SIZE` allow: at most 512 messages of at most 1920 bytes each, in buffers
-- of 1920 bytes.
abbrev pub FromBuffers : List Received → Type 0
FromBuffers [] = Unit
FromBuffers (r ∷ rs) =
    (r.msg_len ≤ 1920) × (length r.buffer ≡ 1920) × IsBytes r.buffer × FromBuffers rs

unfoldable pub sum_len : List Received → ℕ
sum_len [] = 0
sum_len (r ∷ rs) = r.msg_len + sum_len rs

sum_len-le : (rs : List Received) → FromBuffers rs → sum_len rs ≤ length rs * 1920
unfolding sum_len
sum_len-le [] h = omega arith
sum_len-le (r ∷ rs) h = omega (arith, sum_len-le rs h.3)

-- The `int` that sums up the bytes of a batch does not overflow.
pub sum_len-lt : (rs : List Received) → FromBuffers rs → length rs ≤ 512 → sum_len rs < 2 ^ 31
sum_len-lt rs h l = omega (arith, sum_len-le rs h)

add-zero : (n : ℕ) → 0 + n ≡ n
add-zero n = omega arith

module _ (lib : LevelDb) where
  handle_all_lem :
      (rs : List Received) (w : lib.World) (n : ℕ)
      → FromBuffers rs
      → (w' : lib.World) × (handle_all lib rs w n ≡ some (w', n + sum_len rs))
  unfolding handle_all sum_len
  handle_all_lem [] w n h = (w, ap (λ k. some (w, k)) {y = n + 0} (omega arith))
  handle_all_lem (r ∷ rs) w n h =
      let ((reply, w'), one) = deliver_returns lib r.buffer w h.2 (omega arith) in
      let (w'', rest) = handle_all_lem rs w' (n + r.msg_len) h.3 in
      (
        w'',
        rw one (rest ∙ ap (λ k. some (w'', k)) {y = n + (r.msg_len + sum_len rs)} (omega arith)),
      )

  abbrev AllFromBuffers : List Recv → Type 0
  AllFromBuffers [] = Unit
  AllFromBuffers (messages l ∷ rs) = FromBuffers l × (length l ≤ 512) × AllFromBuffers rs
  AllFromBuffers (again ∷ rs) = AllFromBuffers rs
  AllFromBuffers (fatal ∷ rs) = Unit

  abbrev counted : State lib → List Received → lib.World → State lib
  counted s rs w = record {
    pps = (s.pps + length rs) % 2 ^ 64;
    bps = (s.bps + sum_len rs) % 2 ^ 64;
    world = w;
  }

  on_batch_lem :
      (rs : List Received) (s : State lib)
      → FromBuffers rs
      → (w : lib.World) × (on_batch lib rs s ≡ some (counted s rs w))
  unfolding on_batch
  on_batch_lem rs s h =
      let (w, e) = handle_all_lem rs s.world 0 h in (w, rw (e, add-zero (sum_len rs)))

-- The messages, and the bytes, of the batches before a fatal error.
abbrev pub received : List Recv → ℕ
received [] = 0
received (messages l ∷ rs) = length l + received rs
received (again ∷ rs) = received rs
received (fatal ∷ rs) = 0

abbrev pub received_bytes : List Recv → ℕ
received_bytes [] = 0
received_bytes (messages l ∷ rs) = sum_len l + received_bytes rs
received_bytes (again ∷ rs) = received_bytes rs
received_bytes (fatal ∷ rs) = 0

module _ (lib : LevelDb) where
  abbrev pub state_of : Thread lib → State lib
  state_of (waiting s) = s
  state_of (exited s) = s

  -- A thread whose counters start at 0 counts the messages and the bytes of all it receives before
  -- a fatal error, modulo 2 ^ 64, as long as batches and messages fit the buffers; it never reads
  -- outside a buffer, whatever the messages hold.
  pub thread_loop-received :
      (rs : List Recv) (s : State lib)
      → AllFromBuffers lib rs
      → s.pps < 2 ^ 64
      → s.bps < 2 ^ 64
      → (t : Thread lib) × (thread_loop lib rs s ≡ some t)
        × ((state_of t).pps ≡ (s.pps + received rs) % 2 ^ 64)
        × ((state_of t).bps ≡ (s.bps + received_bytes rs) % 2 ^ 64)
  unfolding thread_loop
  thread_loop-received [] s h p b = (waiting s, refl, omega arith, omega arith)
  thread_loop-received (again ∷ rs) s h p b = thread_loop-received rs s h p b
  thread_loop-received (fatal ∷ rs) s h p b = (exited s, refl, omega arith, omega arith)
  thread_loop-received (messages l ∷ rs) s h p b =
      let (w, e) = on_batch_lem lib l s h.0 in
      let (t, r, rp, rb) =
        thread_loop-received rs (counted lib s l w) h.2 (omega arith) (omega arith) in
      (t, rw e r, rp ∙ omega arith, rb ∙ omega arith)

-- A report is the difference to the last one: what has been added since, if that is below 2 ^ 64,
-- also across a wrap of the counters.
pub report-added :
    (counters : List ℕ) (last added : ℕ)
    → added < 2 ^ 64
    → last < 2 ^ 64
    → total counters ≡ (last + added) % 2 ^ 64
    → report counters last ≡ (added, (last + added) % 2 ^ 64)
unfolding report
report-added counters last added h l e = rw e (ap₂ (λ a b. (a, b)) {y = added} (omega arith) refl)
