-- ===== src/Proxy/Api.antt =====
-- What the server calls of uthash and of libevent, as parameters.
use diversity.Prelude.{ℕ, ◌≡◌, ◌≢◌, Option, none, some, [], ◌++◌, ◌==◌, if◌then◌else◌, Bytes}

-- The buffers of libevent. `add_buffer` is `evbuffer_add_buffer` from the input of a connection to its output.
pub record Buffers : Type 1 where
  pub World : Type 0
  pub Bev : Type 0
  pub add_buffer : Bev → World → World

module _ (lib : Buffers) where
  -- All of the input is moved behind the output, and no other connection is touched.
  pub record BufferLaws : Type 0 where
    pub input : lib.Bev → lib.World → Bytes
    pub output : lib.Bev → lib.World → Bytes
    pub moved :
        (b : lib.Bev) (w : lib.World) → output b (lib.add_buffer b w) ≡ output b w ++ input b w
    pub drained : (b : lib.Bev) (w : lib.World) → input b (lib.add_buffer b w) ≡ []
    pub untouched :
        (b c : lib.Bev) (w : lib.World)
        → b ≢ c
        → (output c (lib.add_buffer b w) ≡ output c w) × (input c (lib.add_buffer b w) ≡ input c w)

  -- `struct request_entry`
  pub record RequestEntry : Type 0 where
    pub request_id : ℕ
    pub bev : lib.Bev

  -- HASH_FIND_INT, HASH_ADD_INT and HASH_DEL on the field `request_id`
  pub record HashTable : Type 1 where
    pub Table : Type 0
    pub empty : Table
    pub find : ℕ → Table → Option RequestEntry
    pub add : RequestEntry → Table → Table
    pub del : RequestEntry → Table → Table

  -- A key is added only where it is not in the table, and what is deleted is in it.
  pub record TableLaws (hash : HashTable) : Type 0 where
    pub find-empty : (k : ℕ) → hash.find k hash.empty ≡ none
    pub find-add :
        (e : RequestEntry) (k : ℕ) (t : hash.Table)
        → hash.find e.request_id t ≡ none
        → hash.find k (hash.add e t) ≡ (if e.request_id == k then some e else hash.find k t)
    pub find-del :
        (e : RequestEntry) (k : ℕ) (t : hash.Table)
        → hash.find e.request_id t ≡ some e
        → hash.find k (hash.del e t) ≡ (if e.request_id == k then none else hash.find k t)
