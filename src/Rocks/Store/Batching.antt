-- ===== src/Rocks/Store/Batching.antt =====
-- Writes under a batch: nothing is seen of them until the batch is destroyed, which applies them.
use diversity.Prelude.Int.{ℤ}
use diversity.Prelude.{
  ◌≡◌, refl, sym, ap, ap₂, ◌∙◌, none, some, List, [], ◌∷◌, ◌++◌, append-nil, append_assoc, arith,
  length, replicate, Bytes,
}
use diversity.Rocks.Api.{RocksDb, apply_puts, Laws}
use diversity.Prelude.Int.{pos}
use diversity.Rocks.Store.{Session, handle_write, create_writebatch, drop_batch, destroy_writebatch}

module _ (lib : RocksDb) where
  pub write_all : List (Bytes × Bytes) → Session lib → Session lib
  write_all [] s = s
  write_all ((k, v) ∷ puts) s = write_all puts (handle_write lib k v s).1

  -- What the writes of `write_all` return.
  pub codes_of : List (Bytes × Bytes) → Session lib → List ℤ
  codes_of [] s = []
  codes_of ((k, v) ∷ puts) s = (handle_write lib k v s).0 ∷ codes_of puts (handle_write lib k v s).1

module _ (lib : RocksDb) (laws : Laws lib) where
  open lib use {Db, Batch}

  abbrev staged_write : Session lib → Batch → Bytes → Bytes → Session lib
  staged_write s b k v = record s { world = lib.batch_put b k v s.world }

  handle_write_batch :
      (s : Session lib) (d : Db) (b : Batch) (k v : Bytes)
      → s.db ≡ some d
      → s.wr_batch ≡ some b
      → handle_write lib k v s ≡ (pos 0, staged_write s b k v)
  unfolding handle_write
  handle_write_batch s d b k v h e = ground arith

  abbrev created : Session lib → Batch → Session lib
  created s b = record s { wr_batch = some b; world = (lib.batch_create s.world).1 }

  create_writebatch_lem :
      (s : Session lib) (b : Batch)
      → (lib.batch_create s.world).0 ≡ some b
      → create_writebatch lib s ≡ (pos 0, created s b)
  unfolding create_writebatch
  create_writebatch_lem s b e = ground arith

  abbrev applied : Session lib → Db → Batch → Session lib
  applied s d b = drop_batch lib (record s { world = (lib.batch_write (some d) b s.world).1 })

  destroy_writebatch_lem :
      (s : Session lib) (d : Db) (b : Batch)
      → s.db ≡ some d
      → s.wr_batch ≡ some b
      → (lib.batch_write (some d) b s.world).0 ≡ none
      → destroy_writebatch lib s ≡ (pos 0, applied s d b)
  unfolding destroy_writebatch
  destroy_writebatch_lem s d b h e w = ground arith

  -- What `write_all` leaves of a session whose batch is open.
  record Staged (d : Db) (b : Batch) (puts : List (Bytes × Bytes)) (s t : Session lib)
      : Type 0 where
    db : t.db ≡ some d
    batch : t.wr_batch ≡ some b
    said : t.out ≡ s.out
    in_batch : laws.staged b t.world ≡ laws.staged b s.world ++ puts
    unseen : (j : Bytes) → laws.view d t.world j ≡ laws.view d s.world j

  write_all-Staged :
      (puts : List (Bytes × Bytes)) (s : Session lib) (d : Db) (b : Batch)
      → s.db ≡ some d
      → s.wr_batch ≡ some b
      → Staged d b puts s (write_all lib puts s)
  unfolding write_all
  write_all-Staged [] s d b h e = record {
    db = h;
    batch = e;
    said = refl;
    in_batch = sym (append-nil _);
    unseen = λ j. refl;
  }
  write_all-Staged ((k, v) ∷ puts) s d b h e =
      let rest = write_all-Staged puts (staged_write s b k v) d b h e in
      rw one record {
        db = rest.db;
        batch = rest.batch;
        said = rest.said;
        in_batch =
            rest.in_batch
            ∙ ap (λ l. l ++ puts) (laws.staged-batch_put b k v s.world)
            ∙ append_assoc (laws.staged b s.world) ((k, v) ∷ []) puts;
        unseen = λ j. rest.unseen j ∙ laws.view-batch_put d b k v s.world j;
      }
    where
      one : handle_write lib k v s ≡ (pos 0, staged_write s b k v)
      one = handle_write_batch s d b k v h e

  codes_of-pos :
      (puts : List (Bytes × Bytes)) (s : Session lib) (d : Db) (b : Batch)
      → s.db ≡ some d
      → s.wr_batch ≡ some b
      → codes_of lib puts s ≡ replicate (length puts) (pos 0)
  unfolding codes_of
  codes_of-pos [] s d b h e = refl
  codes_of-pos ((k, v) ∷ puts) s d b h e =
      rw (handle_write_batch s d b k v h e)
        (ap (◌∷◌ (pos 0)) (codes_of-pos puts (staged_write s b k v) d b h e))

  destroy_writebatch-Staged :
      (puts : List (Bytes × Bytes)) (s t : Session lib) (d : Db) (b : Batch) (j : Bytes)
      → Staged d b puts s t
      → laws.staged b s.world ≡ []
      → (lib.batch_write (some d) b t.world).0 ≡ none
      → let (code, u) = destroy_writebatch lib t in
        (t.out ≡ s.out)
        × (laws.view d t.world j ≡ laws.view d s.world j)
        × (code ≡ pos 0)
        × (u.wr_batch ≡ none)
        × (laws.view d u.world j ≡ apply_puts puts j (laws.view d s.world j))
  destroy_writebatch-Staged puts s t d b j st empty w =
      rw (destroy_writebatch_lem t d b st.db st.batch w) (
        st.said,
        st.unseen j,
        refl,
        refl,
        laws.view-batch_destroy d t.wr_batch (lib.batch_write (some d) b t.world).1 j
            ∙ laws.view-batch_write d b t.world j w
            ∙ ap₂ (λ l v. apply_puts l j v) (st.in_batch ∙ ap (λ l. l ++ puts) empty) (st.unseen j),
      )

  -- Writes under a new batch return 0, print nothing and leave what a read finds; destroying the
  -- batch, with no error from the library, then applies them all in their order.
  pub destroy_writebatch-write_all :
      (puts : List (Bytes × Bytes)) (s : Session lib) (d : Db) (b : Batch) (j : Bytes)
      → s.db ≡ some d
      → (lib.batch_create s.world).0 ≡ some b
      → (lib.batch_write (some d) b (write_all lib puts (create_writebatch lib s).1).world).0 ≡ none
      → let t = write_all lib puts (create_writebatch lib s).1 in
        let (code, u) = destroy_writebatch lib t in
        (codes_of lib puts (create_writebatch lib s).1 ≡ replicate (length puts) (pos 0))
        × (t.out ≡ s.out)
        × (laws.view d t.world j ≡ laws.view d s.world j)
        × (code ≡ pos 0)
        × (u.wr_batch ≡ none)
        × (laws.view d u.world j ≡ apply_puts puts j (laws.view d s.world j))
  destroy_writebatch-write_all puts s d b j h e w = rw (create_writebatch_lem s b e) (
      let (said, unseen, code, closed, all) =
        destroy_writebatch-Staged puts (created s b) (write_all lib puts (created s b)) d b j
          (write_all-Staged puts (created s b) d b h refl) (laws.staged-batch_create b s.world e)
          (rw (create_writebatch_lem s b e) at w) in
      let before = laws.view-batch_create d s.world j in
      (
        codes_of-pos puts (created s b) d b h refl,
        said,
        unseen ∙ before,
        code,
        closed,
        all ∙ ap (apply_puts puts j) before,
      ))
