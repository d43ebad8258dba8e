-- ===== src/Million/Sender/Payloads.antt =====
-- What a sending thread sends.
use diversity.Prelude.{
  ℕ, zero, suc, ◌+◌, ◌≤◌, ◌≡◌, refl, ap, ap₂, ◌∙◌, Bool, true, List, [], ◌∷◌, ◌++◌, arith, take,
  replicate, replicate_add, Bytes,
}
use diversity.Million.Sender.{
  State, messages, Result, sent, again, refused, fatal, send_loop, thread_loop,
}

-- No error is fatal, and no call sends more than there are messages.
abbrev pub AllSent : ℕ → List Result → Type 0
AllSent n [] = Unit
AllSent n (sent r ∷ rs) = (r ≤ n) × AllSent n rs
AllSent n (again ∷ rs) = AllSent n rs
AllSent n (refused ∷ rs) = AllSent n rs
AllSent n (fatal ∷ rs) = ⊥

abbrev pub count : List Result → ℕ
count [] = 0
count (sent r ∷ rs) = r + count rs
count (again ∷ rs) = count rs
count (refused ∷ rs) = count rs
count (fatal ∷ rs) = count rs

take-messages : (r n : ℕ) (p : Bytes) → r ≤ n → take r (messages n p) ≡ replicate r p
unfolding messages
take-messages zero n p h = refl
take-messages (suc r) zero p h = absurd (omega (arith, h))
take-messages (suc r) (suc n) p h = ap (◌∷◌ p) (take-messages r n p (omega (arith, h)))

-- A thread whose sends are not fatal, whatever the number of messages of each and whatever is retried or refused,
-- goes on and has sent its payload, whole, as often as the calls say, and nothing else.
pub thread_loop-replicate :
    (state : State) (rs : List Result)
    → AllSent state.packets_in_buf rs
    → thread_loop state rs ≡ (replicate (count rs) state.payload, true)
unfolding thread_loop send_loop
thread_loop-replicate state [] h = refl
thread_loop-replicate state (sent r ∷ rs) h =
    let p = state.payload in
    ap₂ (λ (a : List Bytes) (o : List Bytes × Bool). (a ++ o.0, o.1))
      (take-messages r state.packets_in_buf p h.0) (thread_loop-replicate state rs h.1)
    ∙ ap (λ ps. (ps, true)) (replicate_add r (count rs) p)
thread_loop-replicate state (again ∷ rs) h = thread_loop-replicate state rs h
thread_loop-replicate state (refused ∷ rs) h = thread_loop-replicate state rs h
thread_loop-replicate state (fatal ∷ rs) h = absurd h
