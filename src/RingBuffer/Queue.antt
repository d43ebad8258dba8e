-- ===== src/RingBuffer/Queue.antt =====
-- With enough slots the ring is a queue of at most `size` pointers, and no call leaves the slots.
use diversity.Prelude.{
  ℕ, zero, suc, ◌+◌, ◌-◌, ◌%◌, ◌≤◌, ◌<◌, ◌≡◌, refl, sym, ap, ap₂, ◌∙◌, ◌≢◌, inl, inr, true, Option,
  none, some, List, [], ◌∷◌, ◌++◌, arith, ltb, ◌==◌, if◌then◌else◌, ltb→lt, ==_iff, Bool-cases,
  length, get_or, length-append, get_elem?-eq-get_or, get_or-set_self, get_or-set_ne,
}
use native.Mathlib.Nat.{add-zero, mod-eq_of_lt, mod-eq-sub-mod}
use native.Mathlib.Decide.{dec_lt}
use diversity.RingBuffer.{
  RingBuf, Status, success, error_buffer_full, push_to_queue, retrieve_from_queue, print_rounds,
  print_buffer, Op, push, retrieve, print, Seen, status, retrieved, printed, step, run,
}
use diversity.RingBuffer.Inv.{
  IsValid, end-lt, mod-add-mod_step, pushed, pushed-IsValid, popped, popped-IsValid,
}

-- `f 0, f 1, ..., f (n - 1)`
abbrev pub tabulate : (ℕ → ℕ) → ℕ → List ℕ
tabulate f zero = []
tabulate f (suc n) = tabulate f n ++ f n ∷ []

tabulate-length : (f : ℕ → ℕ) (n : ℕ) → length (tabulate f n) ≡ n
tabulate-length f zero = refl
tabulate-length f (suc n) =
    omega (arith, length-append {0} (tabulate f n) (f n ∷ []), tabulate-length f n)

tabulate-eq : (f g : ℕ → ℕ) (n : ℕ) → ((i : ℕ) → i < n → f i ≡ g i) → tabulate f n ≡ tabulate g n
tabulate-eq f g zero h = refl
tabulate-eq f g (suc n) h =
    ap₂ (λ l x. l ++ x ∷ []) (tabulate-eq f g n (λ i p. h i (omega arith))) (h n (omega arith))

tabulate-shift : (f : ℕ → ℕ) (n : ℕ) → tabulate f (suc n) ≡ f 0 ∷ tabulate (λ i. f (suc i)) n
tabulate-shift f zero = refl
tabulate-shift f (suc n) = ap (λ l. l ++ f (suc n) ∷ []) (tabulate-shift f n)

-- The pointer that is `i` places behind the oldest.
abbrev pub slot : RingBuf → ℕ → ℕ
slot b i = get_or b.ring ((b.start + i) % b.size) 0

-- What the ring holds, oldest first.
abbrev pub contents : RingBuf → List ℕ
contents b = tabulate (slot b) b.active

pub length-contents : (b : RingBuf) → length (contents b) ≡ b.active
length-contents b = tabulate-length (slot b) b.active

-- Slots that are fewer than `n` apart are different.
mod-ne : (s i a n : ℕ) → s < n → i < a → a < n → (s + a) % n ≢ (s + i) % n
mod-ne s i a n hs hi ha = elim (dec_lt (s + a) n) [
  | yes p ↦ omega (arith, mod-eq_of_lt p, mod-eq_of_lt {n = s + i} {m = n} (omega arith))
  | no p ↦ elim (dec_lt (s + i) n) [
    | yes q ↦ omega (
      arith,
      mod-eq_of_lt q,
      mod-eq-sub-mod {n = s + a} {m = n} (omega arith),
      mod-eq_of_lt {n = s + a - n} {m = n} (omega arith),
    )
    | no q ↦ omega (
      arith,
      mod-eq-sub-mod {n = s + a} {m = n} (omega arith),
      mod-eq_of_lt {n = s + a - n} {m = n} (omega arith),
      mod-eq-sub-mod {n = s + i} {m = n} (omega arith),
      mod-eq_of_lt {n = s + i - n} {m = n} (omega arith),
    )
  ]
]

contents-pushed :
    (p : ℕ) {b : RingBuf}
    → IsValid b
    → b.active < b.size
    → contents (pushed p b) ≡ contents b ++ p ∷ []
contents-pushed p {b} v h =
    ap (tabulate (slot (pushed p b))) one_more ∙ ap₂ (λ l x. l ++ x ∷ []) kept new
  where
    one_more : b.active + 1 ≡ suc b.active
    one_more = omega arith

    kept : tabulate (slot (pushed p b)) b.active ≡ contents b
    kept = tabulate-eq (slot (pushed p b)) (slot b) b.active λ i q.
        get_or-set_ne b.ring b.end ((b.start + i) % b.size) p 0
          (λ e. mod-ne b.start i b.active b.size v.start_in q h (sym v.end_at ∙ e))

    new : slot (pushed p b) b.active ≡ p
    new = rw (← v.end_at) (get_or-set_self b.ring b.end p 0 (end-lt v))

contents-popped :
    {b : RingBuf}
    → IsValid b
    → 0 < b.active
    → contents b ≡ get_or b.ring b.start 0 ∷ contents (popped b)
contents-popped {b} v h =
    ap (tabulate (slot b)) one_less ∙ tabulate-shift (slot b) (b.active - 1) ∙ ap₂ ◌∷◌ oldest rest
  where
    one_less : b.active ≡ suc (b.active - 1)
    one_less = omega arith

    oldest : slot b 0 ≡ get_or b.ring b.start 0
    oldest = ap (λ k. get_or b.ring k 0) (rw add-zero (mod-eq_of_lt v.start_in))

    rest : tabulate (λ i. slot b (suc i)) (b.active - 1) ≡ contents (popped b)
    rest =
        tabulate-eq (λ i. slot b (suc i)) (slot (popped b)) (b.active - 1)
          λ i q. ap (λ k. get_or b.ring k 0) (sym (mod-add-mod_step b.start i b.size))

-- A queue of at most `size` pointers, under the same calls.
pub queue_push : ℕ → ℕ → List ℕ → Status × List ℕ
queue_push size p q = if ltb (length q) size then (success, q ++ p ∷ []) else (error_buffer_full, q)

pub queue_retrieve : List ℕ → Option ℕ × List ℕ
queue_retrieve [] = (none, [])
queue_retrieve (p ∷ q) = (some p, q)

pub queue_step : ℕ → Op → List ℕ → Seen × List ℕ
queue_step size (push p) q = let (s, q') = queue_push size p q in (status s, q')
queue_step size retrieve q = let (r, q') = queue_retrieve q in (retrieved r, q')
queue_step size print q = (printed q, q)

pub queue_run : ℕ → List Op → List ℕ → List Seen
queue_run size [] q = []
queue_run size (o ∷ ops) q = let (s, q') = queue_step size o q in s ∷ queue_run size ops q'

-- `PushToQueue` on a valid ring never leaves the slots, and does what the queue does.
pub push_to_queue_refines :
    (p : ℕ) {b : RingBuf}
    → IsValid b
    → (s : Status) × (b' : RingBuf) × (push_to_queue p b ≡ some (s, b'))
      × ((s, contents b') ≡ queue_push b.size p (contents b))
      × IsValid b'
      × (b'.size ≡ b.size)
unfolding push_to_queue queue_push
push_to_queue_refines p {b} v = elim (Bool-cases (ltb b.active b.size)) [
  | inl room ↦ (
    success,
    pushed p b,
    ground (arith, end-lt v),
    rw (length-contents b, room) (ap (λ l. (success, l)) (contents-pushed p v (ltb→lt _ _ room))),
    pushed-IsValid p v (ltb→lt _ _ room),
    refl,
  )
  | inr full ↦ (error_buffer_full, b, ground arith, rw (length-contents b, full), v, refl)
]

-- `RetrieveFromQueue` on a valid ring never leaves the slots, and does what the queue does.
pub retrieve_from_queue_refines :
    {b : RingBuf}
    → IsValid b
    → (r : Option ℕ) × (b' : RingBuf) × (retrieve_from_queue b ≡ some (r, b'))
      × ((r, contents b') ≡ queue_retrieve (contents b))
      × IsValid b'
      × (b'.size ≡ b.size)
unfolding retrieve_from_queue queue_retrieve
retrieve_from_queue_refines {b} v = elim (Bool-cases (b.active == 0)) [
  | inl empty ↦ (none, b, ground arith, nothing empty, v, refl)
  | inr held ↦ (
    some (get_or b.ring b.start 0),
    popped b,
    ground (arith, get_elem?-eq-get_or b.ring b.start 0),
    rw (contents-popped v (ground arith)),
    popped-IsValid v (ground arith),
    refl,
  )
]
  where
    nothing : (b.active == 0) ≡ true → (none, contents b) ≡ queue_retrieve (contents b)
    nothing e = rw ((==_iff b.active 0).0 e)

print_rounds_lem :
    {b : RingBuf} (n : ℕ) → IsValid b → n ≤ b.active → print_rounds b n ≡ some (tabulate (slot b) n)
unfolding print_rounds
print_rounds_lem zero v h = refl
print_rounds_lem {b} (suc n) v h = rw (
  print_rounds_lem {b = b} n v (omega arith),
  get_elem?-eq-get_or b.ring ((b.start + n) % b.size) 0 (inside (b.start + n)),
)
  where
    inside : (k : ℕ) → k % b.size < length b.ring
    inside k = omega arith

print_buffer_lem : {b : RingBuf} → IsValid b → print_buffer b ≡ some (contents b)
unfolding print_buffer
print_buffer_lem {b} v = print_rounds_lem b.active v (omega arith)

-- Each call on a valid ring.
step_refines :
    (o : Op) {b : RingBuf}
    → IsValid b
    → (s : Seen) × (b' : RingBuf) × (step o b ≡ some (s, b'))
      × ((s, contents b') ≡ queue_step b.size o (contents b))
      × IsValid b'
      × (b'.size ≡ b.size)
unfolding step queue_step
step_refines (push p) v =
    let (s, b', e, q, v', z) = push_to_queue_refines p v in (status s, b', rw e, rw (← q), v', z)
step_refines retrieve v =
    let (r, b', e, q, v', z) = retrieve_from_queue_refines v in
    (retrieved r, b', rw e, rw (← q), v', z)
step_refines print {b} v = (printed (contents b), b, rw (print_buffer_lem v), refl, v, refl)

-- Whatever is called on a valid ring, in whatever order, no call leaves the slots, and each call
-- returns what it returns on the queue of the pointers that the ring holds.
pub run_refines :
    (ops : List Op) {b : RingBuf}
    → IsValid b
    → (b' : RingBuf) × (run ops b ≡ some (queue_run b.size ops (contents b), b')) × IsValid b'
unfolding run queue_run
run_refines [] {b} v = (b, refl, v)
run_refines (o ∷ ops) {b} v =
    let (s, b', e, q, v', z) = step_refines o v in
    let (b'', e', v'') = run_refines ops v' in (b'', rw (e, e', ← q, z), v'')
