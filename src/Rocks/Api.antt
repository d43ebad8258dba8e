-- ===== src/Rocks/Api.antt =====
-- What rocksdb_playground calls of the RocksDB C library and of readline, as parameters. The state
-- of the library (its databases, checkpoints and batches on disk and in memory) is a `World`. A
-- NULL handle is `none`, and so is an `err` that stays NULL.
use diversity.Prelude.{◌≡◌, Option, none, some, List, [], ◌∷◌, ◌++◌, if◌then◌else◌, Bytes, bytes_eq}

pub record RocksDb : Type 1 where
  pub World : Type 0
  pub Db : Type 0
  pub Checkpoint : Type 0
  pub Batch : Type 0
  pub Error : Type 0
  -- rocksdb_open, rocksdb_close
  pub open_path : Bytes → World → Option Db × Option Error × World
  pub close : Db → World → World
  -- rocksdb_get, rocksdb_put, rocksdb_delete
  pub get : Db → Bytes → World → Option Bytes × Option Error
  pub put : Db → Bytes → Bytes → World → Option Error × World
  pub delete : Db → Bytes → World → Option Error × World
  -- What an iterator yields from its first to its last position; `none` if none is created.
  pub iterate : Db → World → Option (List (Bytes × Bytes))
  -- rocksdb_checkpoint_object_create, rocksdb_checkpoint_create, rocksdb_checkpoint_object_destroy
  pub checkpoint_object : Db → World → Option Checkpoint × Option Error × World
  pub checkpoint : Option Checkpoint → Bytes → World → Option Error × World
  pub checkpoint_destroy : Checkpoint → World → World
  -- rocksdb_writebatch_create, _put, _destroy and rocksdb_write
  pub batch_create : World → Option Batch × World
  pub batch_put : Batch → Bytes → Bytes → World → World
  pub batch_write : Option Db → Batch → World → Option Error × World
  pub batch_destroy : Option Batch → World → World

-- Puts in their order, on the value of one key.
unfoldable pub apply_puts : List (Bytes × Bytes) → Bytes → Option Bytes → Option Bytes
apply_puts [] j v = v
apply_puts ((k, x) ∷ puts) j v = apply_puts puts j (if bytes_eq k j then some x else v)

module _ (lib : RocksDb) where
  open lib use {
    World, Db, Batch, get, put, delete, batch_create, batch_put, batch_write, batch_destroy,
  }

  -- The documented effect of these calls on the contents of a database and of a batch.
  pub record Laws : Type 0 where
    pub view : Db → World → Bytes → Option Bytes
    pub staged : Batch → World → List (Bytes × Bytes)
    pub get-view :
        (d : Db) (k : Bytes) (w : World) → (get d k w).1 ≡ none → (get d k w).0 ≡ view d w k
    pub view-put :
        (d : Db) (k v : Bytes) (w : World) (j : Bytes)
        → (put d k v w).0 ≡ none
        → view d (put d k v w).1 j ≡ (if bytes_eq k j then some v else view d w j)
    pub view-delete :
        (d : Db) (k : Bytes) (w : World) (j : Bytes)
        → (delete d k w).0 ≡ none
        → view d (delete d k w).1 j ≡ (if bytes_eq k j then none else view d w j)
    pub staged-batch_create :
        (b : Batch) (w : World) → (batch_create w).0 ≡ some b → staged b (batch_create w).1 ≡ []
    pub view-batch_create :
        (d : Db) (w : World) (j : Bytes) → view d (batch_create w).1 j ≡ view d w j
    pub staged-batch_put :
        (b : Batch) (k v : Bytes) (w : World)
        → staged b (batch_put b k v w) ≡ staged b w ++ (k, v) ∷ []
    pub view-batch_put :
        (d : Db) (b : Batch) (k v : Bytes) (w : World) (j : Bytes)
        → view d (batch_put b k v w) j ≡ view d w j
    pub view-batch_write :
        (d : Db) (b : Batch) (w : World) (j : Bytes)
        → (batch_write (some d) b w).0 ≡ none
        → view d (batch_write (some d) b w).1 j ≡ apply_puts (staged b w) j (view d w j)
    pub view-batch_destroy :
        (d : Db) (b : Option Batch) (w : World) (j : Bytes)
        → view d (batch_destroy b w) j ≡ view d w j
