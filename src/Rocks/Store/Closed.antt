-- ===== src/Rocks/Store/Closed.antt =====
-- A batch that is created and destroyed without an open database.
use diversity.Prelude.{◌≡◌, none, some, arith}
use diversity.Prelude.Int.{pos}
use diversity.Rocks.Api.{RocksDb}
use diversity.Rocks.Store.{Session, create_writebatch, destroy_writebatch}

module _ (lib : RocksDb) where
  -- Creating a batch and destroying it never asks whether a database is open: without one, the
  -- library is told to write the batch to the NULL database, and if it reports no error the shell
  -- returns 0.
  pub batch_closed :
      (s : Session lib) (b : lib.Batch)
      → s.db ≡ none
      → (lib.batch_create s.world).0 ≡ some b
      → (lib.batch_write none b (lib.batch_create s.world).1).0 ≡ none
      → let (code, s') = destroy_writebatch lib (create_writebatch lib s).1 in
        (code ≡ pos 0)
        × (s'.out ≡ s.out)
        × (s'.world
            ≡ lib.batch_destroy (some b) (lib.batch_write none b (lib.batch_create s.world).1).1)
  unfolding create_writebatch destroy_writebatch
  batch_closed s b h e f = ground arith
