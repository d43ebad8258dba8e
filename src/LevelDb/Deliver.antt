-- ===== src/LevelDb/Deliver.antt =====
-- fast_leveldb/src/udpreceiver.c, `deliver`, and fast_leveldb/include/application.h. A request is the
-- whole receive buffer, in which a datagram may be followed by bytes of older ones. `none` is a read
-- outside the buffer.
pub mod Bounds
pub mod Frames
pub mod Errors
use diversity.Prelude.{
  ℕ, zero, suc, ◌+◌, Option, none, some, leb, ◌==◌, if◌then◌else◌, ◌>>=◌, length, get_elem?, take,
  drop, Bytes,
}
use diversity.LevelDb.Api.{LevelDb}

-- `enum return_code`
pub data ReturnCode : Type 0 where
  success got_value not_found invalid_op failed : ReturnCode

-- `enum command_t`; `other` is any value that is none of the three.
pub data Op : Type 0 where
  put_op get_op delete_op other : Op

unfoldable pub op_of : ℕ → Op
op_of (suc zero) = put_op
op_of (suc (suc zero)) = get_op
op_of (suc (suc (suc zero))) = delete_op
op_of _ = other

-- What goes back to the caller: the code and, through the pointers, the value and its size.
pub record Reply : Type 0 where
  pub code : ReturnCode
  pub value : Option Bytes
  pub vsize : ℕ

abbrev pub plain : ReturnCode → Reply
plain c = record { code = c; value = none; vsize = 0 }

-- `n` bytes of the buffer from `&request[i]` on
abbrev pub bytes_at : Bytes → ℕ → ℕ → Option Bytes
bytes_at request i n = if leb (i + n) (length request) then some (take n (drop i request)) else none

module _ (lib : LevelDb) where
  open lib use {World, Error}

  -- `return FAILED` where the call set `err`
  abbrev pub outcome : Option Error → World → Reply × World
  outcome none w = (plain success, w)
  outcome (some e) w = (plain failed, w)

  abbrev pub got : Option Bytes → Option Error → Reply
  got val (some e) = record { code = failed; value = val; vsize = 0 }
  got none none = plain not_found
  got (some v) none = record { code = got_value; value = some v; vsize = length v }

  unfoldable pub put_request : Bytes → World → Option (Reply × World)
  put_request request w = do
    ksize ← get_elem? request 1
    vsize ← get_elem? request 2
    key ← bytes_at request 3 ksize
    val ← bytes_at request (3 + ksize) vsize
    some (let (e, w') = lib.put key val w in outcome e w')

  unfoldable pub get_request : Bytes → World → Option (Reply × World)
  get_request request w = do
    ksize ← get_elem? request 1
    key ← bytes_at request 3 ksize
    some (let (val, e) = lib.get key w in (got val e, w))

  unfoldable pub delete_request : Bytes → World → Option (Reply × World)
  delete_request request w = do
    ksize ← get_elem? request 1
    key ← bytes_at request 3 ksize
    some (let (e, w') = lib.delete key w in outcome e w')

  abbrev pub dispatch : Op → Bytes → World → Option (Reply × World)
  dispatch put_op request w = put_request request w
  dispatch get_op request w = get_request request w
  dispatch delete_op request w = delete_request request w
  dispatch other request w = some (plain invalid_op, w)

  unfoldable pub deliver : Bytes → World → Option (Reply × World)
  deliver request w = do
    op ← get_elem? request 0
    if op == 0 then some (plain failed, w) else dispatch (op_of op) request w
