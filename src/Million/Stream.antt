-- ===== src/Million/Stream.antt =====
-- A sending and a receiving thread, over a network that loses nothing and gives the receiver what was sent in any batches.
use diversity.Prelude.{
  ℕ, zero, suc, ◌+◌, ◌*◌, ◌%◌, ◌^◌, ◌≤◌, ◌≡◌, refl, sym, ap, ap₂, ◌∙◌, subst, true, some, List, [],
  ◌∷◌, ◌++◌, map, arith, length, replicate, Bytes,
}
use native.Mathlib.Nat.{suc-mul}
use diversity.Million.Receiver.{Arrival, Recv, mtu_size, max_msg, thread_loop}
use diversity.Million.Receiver.Cleared.{
  sum_lengths, AllFit, arrived, AllGood, fresh, thread_loop-fresh,
}
use diversity.Million.Sender
use diversity.Million.Sender.{Result}
use diversity.Million.Sender.Payloads.{AllSent, count, thread_loop-replicate}

-- A batch has a first datagram.
abbrev pub Batch : Type 0
Batch = Bytes × List Bytes

abbrev pub datagrams : Batch → List Bytes
datagrams b = b.0 ∷ b.1

abbrev pub all_datagrams : List Batch → List Bytes
all_datagrams [] = []
all_datagrams (b ∷ bs) = datagrams b ++ all_datagrams bs

-- What `recvmmsg` stores for a datagram
abbrev pub arrival : Bytes → Arrival
arrival d = (length d, 0)

abbrev pub calls : List Batch → List Recv
calls [] = []
calls (b ∷ bs) = Recv.messages (arrival b.0) (map arrival b.1) ∷ calls bs

abbrev pub AllSmall : List Batch → Type 0
AllSmall [] = Unit
AllSmall (b ∷ bs) = (length (datagrams b) ≤ max_msg) × AllSmall bs

length-map : (ds : List Bytes) → length (map arrival ds) ≡ length ds
length-map [] = refl
length-map (d ∷ ds) = ap suc (length-map ds)

map-append : (ds es : List Bytes) → map arrival (ds ++ es) ≡ map arrival ds ++ map arrival es
map-append [] es = refl
map-append (d ∷ ds) es = ap (◌∷◌ (arrival d)) (map-append ds es)

AllFit-append : (ms ns : List Arrival) → AllFit (ms ++ ns) → AllFit ms × AllFit ns
AllFit-append [] ns f = (tt, f)
AllFit-append (m ∷ ms) ns f = let r = AllFit-append ms ns f.1 in ((f.0, r.0), r.1)

calls-AllGood :
    (bs : List Batch) → AllSmall bs → AllFit (map arrival (all_datagrams bs)) → AllGood (calls bs)
calls-AllGood [] s f = tt
calls-AllGood (b ∷ bs) s f =
    let fits =
      AllFit-append (map arrival (datagrams b)) (map arrival (all_datagrams bs))
        (subst AllFit (map-append (datagrams b) (all_datagrams bs)) f) in
    (omega (arith, s.0, length-map b.1), fits.0, calls-AllGood bs s.1 fits.1)

arrived-calls : (bs : List Batch) → arrived (calls bs) ≡ map arrival (all_datagrams bs)
arrived-calls [] = refl
arrived-calls (b ∷ bs) =
    ap (◌++◌ (map arrival (datagrams b))) (arrived-calls bs)
    ∙ sym (map-append (datagrams b) (all_datagrams bs))

AllFit-replicate : (n : ℕ) (p : Bytes) → length p ≤ mtu_size → AllFit (map arrival (replicate n p))
AllFit-replicate zero p h = tt
AllFit-replicate (suc n) p h = (h, AllFit-replicate n p h)

length-replicate : (n : ℕ) (p : Bytes) → length (map arrival (replicate n p)) ≡ n
length-replicate zero p = refl
length-replicate (suc n) p = ap suc (length-replicate n p)

sum-replicate : (n : ℕ) (p : Bytes) → sum_lengths (map arrival (replicate n p)) ≡ n * length p
sum-replicate zero p = omega arith
sum-replicate (suc n) p = omega (arith, sum-replicate n p, suc-mul n (length p))

received :
    (n : ℕ) (p : Bytes) (bs : List Batch)
    → length p ≤ mtu_size
    → AllSmall bs
    → all_datagrams bs ≡ replicate n p
    → thread_loop (calls bs) (fresh 0 0) ≡ some (fresh (n % 2 ^ 64) (n * length p % 2 ^ 64), true)
received n p bs h s e =
    let sent = ap (map arrival) e in
    let good = calls-AllGood bs s (subst AllFit (sym sent) (AllFit-replicate n p h)) in
    let all = arrived-calls bs ∙ sent in
    thread_loop-fresh (calls bs) 0 0 good (omega arith) (omega arith)
    ∙ ap₂ (λ a b. some (fresh (a % 2 ^ 64) (b % 2 ^ 64), true))
        {x = 0 + length (arrived (calls bs))} {y = n} {u = 0 + sum_lengths (arrived (calls bs))}
        {v = n * length p} (omega (arith, ap length all, length-replicate n p))
        (omega (arith, ap sum_lengths all, sum-replicate n p))

-- What a sending thread sends, with a payload that fits a buffer and no fatal error, is received in any batches of at most
-- 512: the receiving thread goes on, has counted each datagram that the calls of the sender say and the size of
-- the payload for each, modulo 2 ^ 64, and has its vectors as state_init made them.
pub thread_loop-thread_loop :
    (state : Sender.State) (rs : List Result) (bs : List Batch)
    → AllSent state.packets_in_buf rs
    → length state.payload ≤ mtu_size
    → AllSmall bs
    → all_datagrams bs ≡ (Sender.thread_loop state rs).0
    → thread_loop (calls bs) (fresh 0 0)
      ≡ some (fresh (count rs % 2 ^ 64) (count rs * length state.payload % 2 ^ 64), true)
thread_loop-thread_loop state rs bs a h s e =
    received (count rs) state.payload bs h s (e ∙ ap (λ o. o.0) (thread_loop-replicate state rs a))
