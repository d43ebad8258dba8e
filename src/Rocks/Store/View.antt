-- ===== src/Rocks/Store/View.antt =====
-- What a read sees after a write or a delete, for a library that keeps its documented laws.
use diversity.Prelude.{◌≡◌, refl, none, some, arith, if◌then◌else◌, Bytes, bytes_eq}
use diversity.Prelude.Int.{pos}
use diversity.Rocks.Api.{RocksDb, Laws}
use diversity.Rocks.Store.{
  c_string, deleted, written, Session, say, found, handle_read, handle_delete, handle_write,
}

module _ (lib : RocksDb) (laws : Laws lib) where
  open lib use {World, Db, Checkpoint, Batch, Error}

  -- The sessions that the handlers leave where the library reports no error.
  abbrev wrote : Session lib → Db → Bytes → Bytes → Session lib
  wrote s d key val =
      say lib (written key (c_string val)) (record s { world = (lib.put d key val s.world).1 })

  abbrev erased : Session lib → Db → Bytes → Session lib
  erased s d key = say lib (deleted key) (record s { world = (lib.delete d key s.world).1 })

  handle_write_lem :
      (s : Session lib) (d : Db) (key val : Bytes)
      → s.db ≡ some d
      → s.wr_batch ≡ none
      → (lib.put d key val s.world).0 ≡ none
      → handle_write lib key val s ≡ (pos 0, wrote s d key val)
  unfolding handle_write
  handle_write_lem s d key val h e p = ground arith

  handle_delete_lem :
      (s : Session lib) (d : Db) (key : Bytes)
      → s.db ≡ some d
      → (lib.delete d key s.world).0 ≡ none
      → handle_delete lib key s ≡ (pos 0, erased s d key)
  unfolding handle_delete
  handle_delete_lem s d key h p = ground arith

  -- A read with no error prints what the database holds.
  pub handle_read_lem :
      (s : Session lib) (d : Db) (key : Bytes)
      → s.db ≡ some d
      → (lib.get d key s.world).1 ≡ none
      → handle_read lib key s ≡ (pos 0, say lib (found lib (laws.view d s.world key) key) s)
  unfolding handle_read
  handle_read_lem s d key h g = rw (← laws.get-view d key s.world g) (ground arith)

  -- A write with no batch and no error from the library returns 0. A read after it, with no error, of the same
  -- key finds the bytes that were written, and of another key what the library held for it before: it prints what
  -- it finds up to the first terminator, with the number of all its bytes, and reads behind what has none.
  pub handle_read-handle_write :
      (s : Session lib) (d : Db) (key val j : Bytes)
      → s.db ≡ some d
      → s.wr_batch ≡ none
      → (lib.put d key val s.world).0 ≡ none
      → (lib.get d j (lib.put d key val s.world).1).1 ≡ none
      → let (code, s') = handle_write lib key val s in
        (code ≡ pos 0)
        × (handle_read lib j s' ≡ (
          pos 0,
          say lib (found lib (if bytes_eq key j then some val else laws.view d s.world j) j) s',
        ))
  handle_read-handle_write s d key val j h e p g =
      rw
        (
          handle_write_lem s d key val h e p,
          handle_read_lem (wrote s d key val) d j h g,
          laws.view-put d key val s.world j p,
        )
        (refl, refl)

  -- A read after a delete, with no error from the library, does not find the deleted key, and
  -- prints for another key what it would have printed before.
  pub handle_read-handle_delete :
      (s : Session lib) (d : Db) (key j : Bytes)
      → s.db ≡ some d
      → (lib.delete d key s.world).0 ≡ none
      → (lib.get d j (lib.delete d key s.world).1).1 ≡ none
      → let (code, s') = handle_delete lib key s in
        (code ≡ pos 0)
        × (handle_read lib j s' ≡ (
          pos 0,
          say lib (found lib (if bytes_eq key j then none else laws.view d s.world j) j) s',
        ))
  handle_read-handle_delete s d key j h p g =
      rw
        (
          handle_delete_lem s d key h p,
          handle_read_lem (erased s d key) d j h g,
          laws.view-delete d key s.world j p,
        )
        (refl, refl)
