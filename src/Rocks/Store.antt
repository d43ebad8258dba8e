-- ===== src/Rocks/Store.antt =====
-- rocksdb_playground/src/datastore.c: the handlers of the shell's database, over the library calls.
-- `options`, `readoptions` and `writeoptions` are set once by `init_rocksdb` and never change, so
-- they are part of the library here.
pub mod Closed
pub mod View
pub mod Batching
use diversity.Prelude.{
  ℕ, zero, suc, Bool, Option, none, some, List, [], ◌∷◌, ◌++◌, ◌>>=◌, length, Bytes,
}
use diversity.Prelude.Int.{ℤ, pos, negsuc}
use diversity.Rocks.Api.{RocksDb}

-- What a C string function reads of counted bytes: up to the first terminator.
unfoldable pub c_string : Bytes → Bytes
c_string [] = []
c_string (zero ∷ xs) = []
c_string (suc x ∷ xs) = suc x ∷ c_string xs

-- What `%s` prints of counted bytes; where they have no terminator it reads behind them.
unfoldable pub shown_text : Bytes → Option Bytes
shown_text [] = none
shown_text (zero ∷ xs) = some []
shown_text (suc x ∷ xs) = do rest ← shown_text xs; some (suc x ∷ rest)

-- `return -1` and `return -2`
abbrev pub failed : ℤ
failed = negsuc 0

abbrev pub failed_object : ℤ
failed_object = negsuc 1

module _ (lib : RocksDb) where
  open lib use {World, Db, Checkpoint, Batch, Error}

  -- One for each text that the program prints, with the values that it shows. `read_behind` is the fault of
  -- printing a value of that length, which has no terminator, for a key.
  pub data Message : Type 0 where
    not_open iterator_error list_header checkpoint_ok create_batch_error : Message
    open_error read_error delete_error write_error : Error → Message
    checkpoint_error checkpoint_object_error batch_error : Error → Message
    value_not_found deleted : Bytes → Message
    found_value : Bytes → ℕ → Bytes → Message
    read_behind : ℕ → Bytes → Message
    list_row written : Bytes → Bytes → Message
    no_such_command argument_required no_match : Bytes → Message
    key_empty value_empty help_line_end : Message
    help_row : Bytes → Bytes → Message
    help_name : Bytes → Message

  -- `struct rocksdb_params rocks` and `done`, the library, and what was printed, oldest first.
  pub record Session : Type 0 where
    pub db : Option Db
    pub cp : Option Checkpoint
    pub wr_batch : Option Batch
    pub done : Bool
    pub world : World
    pub out : List Message

  abbrev pub say : Message → Session → Session
  say m s = record s { out = s.out ++ m ∷ [] }

  -- `fail e m s` is the tail of a handler: `return -1` with a message where the call set `err`.
  abbrev pub finish : Option Error → (Error → Message) → Session → Session → ℤ × Session
  finish none m s good = (pos 0, good)
  finish (some e) m s good = (failed, say (m e) s)

  unfoldable pub create_checkpoint_object : Db → Session → ℤ × Session
  create_checkpoint_object d s =
      let (cp, e, w) = lib.checkpoint_object d s.world in
      let s' = record s { cp = cp; world = w } in
      elim e [ none ↦ (pos 0, s') | some x ↦ (failed_object, say (checkpoint_object_error x) s') ]

  -- `if (!is_open()) return code;` before the rest of a handler
  abbrev pub when_open : ℤ → Session → (Db → ℤ × Session) → ℤ × Session
  when_open code s rest = elim s.db [ none ↦ (code, say not_open s) | some d ↦ rest d ]

  unfoldable pub open_db : Bytes → Session → ℤ × Session
  open_db path s =
      let (d, e, w) = lib.open_path path s.world in
      let s' = record s { db = d; world = w } in finish e open_error s' s'

  unfoldable pub close_db : Session → ℤ × Session
  close_db s = when_open (pos 0) s λ d. (pos 0, record s { db = none; world = lib.close d s.world })

  unfoldable pub deconstruct : Session → ℤ × Session
  deconstruct s =
      let w : World = elim s.cp [ none ↦ s.world | some c ↦ lib.checkpoint_destroy c s.world ] in
      let w' : World = elim s.db [ none ↦ w | some d ↦ lib.close d w ] in
      (pos 0, record s { world = w' })

  -- A value of `vallen` bytes
  abbrev pub print_found : Option Bytes → ℕ → Bytes → Message
  print_found none vallen key = read_behind vallen key
  print_found (some text) vallen key = found_value text vallen key

  abbrev pub found : Option Bytes → Bytes → Message
  found none key = value_not_found key
  found (some val) key = print_found (shown_text val) (length val) key

  unfoldable pub handle_read : Bytes → Session → ℤ × Session
  handle_read key s =
      when_open failed s
        λ d. let (val, e) = lib.get d key s.world in finish e read_error s (say (found val key) s)

  -- The loop over the iterator prints each pair, cut at the first terminator.
  abbrev pub rows : List (Bytes × Bytes) → List Message
  rows [] = []
  rows ((k, v) ∷ pairs) = list_row (c_string k) (c_string v) ∷ rows pairs

  unfoldable pub handle_list : Session → ℤ × Session
  handle_list s = when_open failed s λ d. elim (lib.iterate d s.world) [
    | none ↦ (failed, say iterator_error s)
    | some pairs ↦ (pos 0, record s { out = s.out ++ list_header ∷ rows pairs })
  ]

  unfoldable pub handle_delete : Bytes → Session → ℤ × Session
  handle_delete key s = when_open failed s λ d.
      let (e, w) = lib.delete d key s.world in
      let s' = record s { world = w } in finish e delete_error s' (say (deleted key) s')

  unfoldable pub handle_write : Bytes → Bytes → Session → ℤ × Session
  handle_write key val s = when_open failed s λ d. elim s.wr_batch [
    | some b ↦ (pos 0, record s { world = lib.batch_put b key val s.world })
    | none ↦
        let (e, w) = lib.put d key val s.world in
        let s' = record s { world = w } in
        finish e write_error s' (say (written key (c_string val)) s')
  ]

  -- The code of `create_checkpoint_object` is dropped, so `cp` may still be NULL.
  abbrev pub with_checkpoint : Db → Session → Session
  with_checkpoint d s = elim s.cp [ none ↦ (create_checkpoint_object d s).1 | some c ↦ s ]

  unfoldable pub handle_checkpoint : Bytes → Session → ℤ × Session
  handle_checkpoint dir s = when_open failed s λ d.
      let s' = with_checkpoint d s in
      let (e, w) = lib.checkpoint s'.cp dir s'.world in
      let s'' = record s' { world = w } in finish e checkpoint_error s'' (say checkpoint_ok s'')

  unfoldable pub create_writebatch : Session → ℤ × Session
  create_writebatch s =
      let (b, w) = lib.batch_create s.world in
      let s' = record s { wr_batch = b; world = w } in
      elim b [ none ↦ (failed, say create_batch_error s') | some _ ↦ (pos 0, s') ]

  abbrev pub drop_batch : Session → Session
  drop_batch s = record s { wr_batch = none; world = lib.batch_destroy s.wr_batch s.world }

  unfoldable pub destroy_writebatch : Session → ℤ × Session
  destroy_writebatch s = elim s.wr_batch [
    | none ↦ (pos 0, drop_batch s)
    | some b ↦
        let (e, w) = lib.batch_write s.db b s.world in
        let s' = record s { world = w } in finish e batch_error s' (drop_batch s')
  ]
