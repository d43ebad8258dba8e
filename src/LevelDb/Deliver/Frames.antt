-- ===== src/LevelDb/Deliver/Frames.antt =====
-- Requests laid out as the clients lay them out, and the map that the server keeps.
use mathlib.Core.Path.{fun_ext}
use diversity.Prelude.{
  ℕ, suc, ◌+◌, ◌≡◌, refl, ap, Option, none, some, List, [], ◌∷◌, ◌++◌, arith, if◌then◌else◌, ◌>>=◌,
  length, drop, length-append, take-append, drop-append, Bytes, bytes_eq,
}
use diversity.LevelDb.Api.{LevelDb, Laws, NoErrors}
use diversity.LevelDb.Deliver.{
  success, got_value, not_found, op_of, Reply, plain, bytes_at, got, put_request, get_request,
  delete_request, deliver,
}

pub data Command : Type 0 where
  put : Bytes → Bytes → Command
  get delete : Bytes → Command

-- A buffer with the command at its front: the operation, the two sizes, the key and the value.
-- `rest` is what the buffer holds behind them, and `size` the byte that a get or a delete ignores.
unfoldable pub frame : Command → ℕ → Bytes → Bytes
frame (put k v) size rest = 1 ∷ length k ∷ length v ∷ k ++ (v ++ rest)
frame (get k) size rest = 2 ∷ length k ∷ size ∷ k ++ rest
frame (delete k) size rest = 3 ∷ length k ∷ size ∷ k ++ rest

bytes_at-key :
    (a b c : ℕ) (key rest : Bytes) → bytes_at (a ∷ b ∷ c ∷ key ++ rest) 3 (length key) ≡ some key
bytes_at-key a b c key rest = ground (arith, length-append {0} key rest, take-append key rest)

drop-three : (a b c n : ℕ) (xs : Bytes) → drop (3 + n) (a ∷ b ∷ c ∷ xs) ≡ drop n xs
drop-three a b c n xs = ap (λ k. drop k (a ∷ b ∷ c ∷ xs)) {y = suc (suc (suc n))} (omega arith)

bytes_at-value :
    (a b c : ℕ) (key val rest : Bytes)
    → bytes_at (a ∷ b ∷ c ∷ key ++ (val ++ rest)) (3 + length key) (length val) ≡ some val
bytes_at-value a b c key val rest = ground (
  arith,
  length-append {0} key (val ++ rest),
  length-append {0} val rest,
  drop-three a b c (length key) (key ++ (val ++ rest)),
  drop-append key (val ++ rest),
  take-append val rest,
)

abbrev pub found : Option Bytes → Reply
found none = plain not_found
found (some v) = record { code = got_value; value = some v; vsize = length v }

-- The map: what a command answers, and what it leaves.
pub answer : Command → (Bytes → Option Bytes) → Reply
answer (put k v) m = plain success
answer (delete k) m = plain success
answer (get k) m = found (m k)

pub after : Command → (Bytes → Option Bytes) → Bytes → Option Bytes
after (put k v) m j = if bytes_eq k j then some v else m j
after (delete k) m j = if bytes_eq k j then none else m j
after (get k) m j = m j

module _ (lib : LevelDb) (laws : Laws lib) (calm : NoErrors lib) where
  open lib use {World}

  got-found : (o : Option Bytes) → got lib o none ≡ found o
  got-found none = refl
  got-found (some v) = refl

  -- On a database that reports no error, a command in the buffer, whatever stands behind it,
  -- answers and changes the database as it does the map that the database holds.
  pub deliver-frame :
      (c : Command) (size : ℕ) (rest : Bytes) (w : World)
      → (w' : World) × (deliver lib (frame c size rest) w ≡ some (answer c (laws.view w), w'))
        × ((j : Bytes) → laws.view w' j ≡ after c (laws.view w) j)
  unfolding deliver put_request get_request delete_request op_of frame answer after
  deliver-frame (put k v) size rest w = (
    (lib.put k v w).1,
    rw (
      bytes_at-key 1 (length k) (length v) k (v ++ rest),
      bytes_at-value 1 (length k) (length v) k v rest,
      calm.put_works k v w,
    ),
    λ j. laws.view-put k v w j (calm.put_works k v w),
  )
  deliver-frame (get k) size rest w = (
    w,
    rw (
      bytes_at-key 2 (length k) size k rest,
      calm.get_works k w,
      laws.get-view k w (calm.get_works k w),
      got-found (laws.view w k),
    ),
    λ j. refl,
  )
  deliver-frame (delete k) size rest w = (
    (lib.delete k w).1,
    rw (bytes_at-key 3 (length k) size k rest, calm.delete_works k w),
    λ j. laws.view-delete k w j (calm.delete_works k w),
  )

  -- A get is answered from the map, and leaves the very state.
  pub deliver-get :
      (k : Bytes) (size : ℕ) (rest : Bytes) (w : World)
      → deliver lib (frame (get k) size rest) w ≡ some (found (laws.view w k), w)
  unfolding deliver get_request op_of frame
  deliver-get k size rest w = rw (
    bytes_at-key 2 (length k) size k rest,
    calm.get_works k w,
    laws.get-view k w (calm.get_works k w),
    got-found (laws.view w k),
  )

  -- One request after the other, each in a buffer of its own.
  -- The commands with what their buffers hold besides.
  abbrev pub Buffer : Type 0
  Buffer = Command × ℕ × Bytes

  pub deliver_all : List Bytes → World → Option (List Reply × World)
  deliver_all [] w = some ([], w)
  deliver_all (r ∷ requests) w = do
    (reply, w') ← deliver lib r w
    (replies, w'') ← deliver_all requests w'
    some (reply ∷ replies, w'')

  pub buffers : List Buffer → List Bytes
  buffers [] = []
  buffers ((c, size, rest) ∷ cs) = frame c size rest ∷ buffers cs

  pub answers : List Buffer → (Bytes → Option Bytes) → List Reply
  answers [] m = []
  answers ((c, size, rest) ∷ cs) m = answer c m ∷ answers cs (after c m)

  -- On a database that reports no error, any sequence of commands is answered as by a map that
  -- starts with what the database holds.
  pub deliver_all-answers :
      (cs : List Buffer) (w : World)
      → (w' : World) × (deliver_all (buffers cs) w ≡ some (answers cs (laws.view w), w'))
  unfolding deliver_all buffers answers
  deliver_all-answers [] w = (w, refl)
  deliver_all-answers ((c, size, rest) ∷ cs) w =
      let (w', one, seen) = deliver-frame c size rest w in
      let (w'', all) = deliver_all-answers cs w' in (w'', rw (one, all, fun_ext seen))
