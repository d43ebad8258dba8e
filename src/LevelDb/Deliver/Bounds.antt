-- ===== src/LevelDb/Deliver/Bounds.antt =====
-- `deliver` never reads outside a receive buffer.
use diversity.Prelude.{
  ℕ, zero, suc, ◌+◌, ◌≤◌, ◌<◌, ◌≡◌, refl, inl, inr, some, [], ◌∷◌, arith, ◌==◌, Bool-cases, length,
  get_elem?, take, drop, Bytes,
}
use diversity.LevelDb.Api.{LevelDb}
use diversity.LevelDb.Deliver.{
  invalid_op, failed, Op, put_op, get_op, delete_op, other, op_of, Reply, plain, bytes_at, outcome,
  got, put_request, get_request, delete_request, dispatch, deliver,
}

-- Each byte is below 256.
abbrev pub IsBytes : Bytes → Type 0
IsBytes [] = Unit
IsBytes (b ∷ bs) = (b < 256) × IsBytes bs

get_elem-IsBytes :
    (bs : Bytes) (i : ℕ)
    → IsBytes bs
    → i < length bs
    → (b : ℕ) × (get_elem? bs i ≡ some b) × (b < 256)
get_elem-IsBytes [] i h l = absurd (omega arith)
get_elem-IsBytes (b ∷ bs) zero h l = (b, refl, h.0)
get_elem-IsBytes (b ∷ bs) (suc i) h l = get_elem-IsBytes bs i h.1 (omega arith)

bytes_at_inside :
    (bs : Bytes) (i n : ℕ) → i + n ≤ length bs → bytes_at bs i n ≡ some (take n (drop i bs))
bytes_at_inside bs i n h = ground arith

module _ (lib : LevelDb) where
  dispatch_returns :
      (o : Op) (request : Bytes) (w : lib.World)
      → IsBytes request
      → 513 ≤ length request
      → (r : Reply × lib.World) × (dispatch lib o request w ≡ some r)
  unfolding put_request get_request delete_request
  dispatch_returns put_op request w h l =
      let (k, at_k, k_small) = get_elem-IsBytes request 1 h (omega arith) in
      let (v, at_v, v_small) = get_elem-IsBytes request 2 h (omega arith) in
      let key = take k (drop 3 request) in
      let val = take v (drop (3 + k) request) in
      (
        outcome lib (lib.put key val w).0 (lib.put key val w).1,
        rw (
          at_k,
          at_v,
          bytes_at_inside request 3 k (omega arith),
          bytes_at_inside request (3 + k) v (omega arith),
        ),
      )
  dispatch_returns get_op request w h l =
      let (k, at_k, k_small) = get_elem-IsBytes request 1 h (omega arith) in
      let key = take k (drop 3 request) in
      (
        (got lib (lib.get key w).0 (lib.get key w).1, w),
        rw (at_k, bytes_at_inside request 3 k (omega arith)),
      )
  dispatch_returns delete_op request w h l =
      let (k, at_k, k_small) = get_elem-IsBytes request 1 h (omega arith) in
      let key = take k (drop 3 request) in
      (
        outcome lib (lib.delete key w).0 (lib.delete key w).1,
        rw (at_k, bytes_at_inside request 3 k (omega arith)),
      )
  dispatch_returns other request w h l = ((plain invalid_op, w), refl)

  -- A buffer has 1920 bytes, and a key and a value have at most 255 each: with as little as 513
  -- bytes, whatever they are, `deliver` reads nothing outside the buffer and returns.
  pub deliver_returns :
      (request : Bytes) (w : lib.World)
      → IsBytes request
      → 513 ≤ length request
      → (r : Reply × lib.World) × (deliver lib request w ≡ some r)
  unfolding deliver
  deliver_returns request w h l =
      let (op, at_op, op_small) = get_elem-IsBytes request 0 h (omega arith) in
      elim (Bool-cases (op == 0)) [
        | inl z ↦ ((plain failed, w), rw (at_op, z))
        | inr nz ↦ rw (at_op, nz) (dispatch_returns (op_of op) request w h l)
      ]
