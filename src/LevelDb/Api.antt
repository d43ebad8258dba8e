-- ===== src/LevelDb/Api.antt =====
-- What fast_leveldb calls of the LevelDB C library, as a parameter. Its state is a `World`; an `err`
-- that stays NULL is `none`, and so is a value that is not found.
use diversity.Prelude.{◌≡◌, Option, none, some, if◌then◌else◌, Bytes, bytes_eq}

pub record LevelDb : Type 1 where
  pub World : Type 0
  pub Error : Type 0
  -- leveldb_put, leveldb_get, leveldb_delete
  pub put : Bytes → Bytes → World → Option Error × World
  pub get : Bytes → World → Option Bytes × Option Error
  pub delete : Bytes → World → Option Error × World

module _ (lib : LevelDb) where
  open lib use {World, put, get, delete}

  -- The documented effect of the calls on what the database holds.
  pub record Laws : Type 0 where
    pub view : World → Bytes → Option Bytes
    pub get-view : (k : Bytes) (w : World) → (get k w).1 ≡ none → (get k w).0 ≡ view w k
    pub view-put :
        (k v : Bytes) (w : World) (j : Bytes)
        → (put k v w).0 ≡ none
        → view (put k v w).1 j ≡ (if bytes_eq k j then some v else view w j)
    pub view-delete :
        (k : Bytes) (w : World) (j : Bytes)
        → (delete k w).0 ≡ none
        → view (delete k w).1 j ≡ (if bytes_eq k j then none else view w j)

  -- A database that reports no error, whatever it is asked.
  pub record NoErrors : Type 0 where
    pub put_works : (k v : Bytes) (w : World) → (put k v w).0 ≡ none
    pub get_works : (k : Bytes) (w : World) → (get k w).1 ≡ none
    pub delete_works : (k : Bytes) (w : World) → (delete k w).0 ≡ none
