-- ===== src/EchoBatch/Replies.antt =====
-- What the server answers.
use diversity.EchoBatch.{header_at}
use diversity.Prelude.{
  ℕ, zero, suc, ◌+◌, ◌^◌, ◌≤◌, ◌<◌, ◌≡◌, refl, ap, ◌∙◌, some, List, [], ◌∷◌, arith, lt→ltb, length,
  get_elem?, set, take, length-set, length-take, take-take, Bytes,
}
use diversity.EchoBatch.{
  headers_from, init_msghdr, ServerContext, Message, messages, answered, terminate_all, respond,
  on_read,
}

-- A datagram is cut at BUFSIZE, and the buffers have one byte more.
abbrev pub FromBuffers : List Message → Type 0
FromBuffers [] = Unit
FromBuffers (m ∷ ms) = (m.msg_len ≤ 128) × (length m.buf ≡ 129) × FromBuffers ms

-- Each reply has 128 bytes and begins with the datagram.
abbrev pub Replies : List Message → List Bytes → Type 0
Replies [] rs = rs ≡ []
Replies (m ∷ ms) [] = ⊥
Replies (m ∷ ms) (r ∷ rs) =
    (length r ≡ 128) × (take m.msg_len r ≡ take m.msg_len m.buf) × Replies ms rs

take-set : (n : ℕ) (xs : Bytes) (v : ℕ) → take n (set xs n v) ≡ take n xs
take-set zero xs v = refl
take-set (suc n) [] v = refl
take-set (suc n) (x ∷ xs) v = ap (◌∷◌ x) (take-set n xs v)

terminate_all_lem :
    (ms : List Message)
    → FromBuffers ms
    → (bs : List Bytes) × (terminate_all ms ≡ some bs) × Replies ms (respond bs)
unfolding terminate_all respond
terminate_all_lem [] h = ([], refl, refl)
terminate_all_lem (m ∷ ms) h =
    let (bs, e, r) = terminate_all_lem ms h.2 in
    let b = set m.buf m.msg_len 0 in
    (
      b ∷ bs,
      rw (lt→ltb m.msg_len (length m.buf) (omega (arith, h.0, h.1)), e),
      (
        omega (arith, length-take 128 b, length-set m.buf m.msg_len 0, h.1),
        take-take m.msg_len 128 b h.0 ∙ take-set m.msg_len m.buf 0,
        r,
      ),
    )

-- Datagrams in their buffers are terminated inside them and answered, one reply for each, of 128 bytes
-- that begin with the datagram, and they are counted, if the count fits an int.
pub on_read-Replies :
    (ms : List Message) (ctx : ServerContext)
    → FromBuffers ms
    → ctx.message_per_second + length ms < 2 ^ 31
    → (rs : List Bytes) × (on_read (messages ms) ctx
        ≡ some
            (answered rs (record ctx { message_per_second = ctx.message_per_second + length ms })))
      × Replies ms rs
unfolding on_read
on_read-Replies ms ctx h s =
    let (bs, e, r) = terminate_all_lem ms h in
    (respond bs, rw (e, lt→ltb (ctx.message_per_second + length ms) (2 ^ 31) s), r)

headers_from-get : (i n k : ℕ) → k < n → get_elem? (headers_from i n) k ≡ some (header_at (i + k))
unfolding headers_from
headers_from-get i zero k h = absurd (omega (arith, h))
headers_from-get i (suc n) zero h = ap (λ j. some (header_at j)) {x = i} {y = i + 0} (omega arith)
headers_from-get i (suc n) (suc k) h =
    headers_from-get (suc i) n k (omega (arith, h))
    ∙ ap (λ j. some (header_at j)) {x = suc i + k} {y = i + suc k} (omega arith)

-- Each of the 32 headers has the vector, the buffer and the address of its own index, so no two share one.
pub init_msghdr-get : (k : ℕ) → k < 32 → get_elem? init_msghdr k ≡ some (header_at k)
init_msghdr-get k h =
    headers_from-get 0 32 k h ∙ ap (λ j. some (header_at j)) {x = 0 + k} {y = k} (omega arith)
