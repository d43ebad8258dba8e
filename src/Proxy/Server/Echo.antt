-- ===== src/Proxy/Server/Echo.antt =====
-- What a read does to the connections and to the table.
use diversity.Prelude.{
  ℕ, ◌+◌, ◌-◌, ◌^◌, ◌<◌, ◌≡◌, ◌∙◌, inl, inr, none, some, arith, ◌==◌, lt→ltb, ==_self, Bool-cases,
}
use diversity.Proxy.Api.{Buffers, RequestEntry, HashTable, TableLaws}
use diversity.Proxy.Server.{increment, ProxyServer, respond_cb, entry, echo_read_cb}

module _ (lib : Buffers) (hash : HashTable lib) (laws : TableLaws lib hash) where
  -- `proxy` after the read: echoed, counted, and with this table.
  abbrev pub echoed : lib.Bev → ProxyServer lib hash → hash.Table → ProxyServer lib hash
  echoed bev proxy t = record proxy {
    world = lib.add_buffer bev proxy.world;
    request_table = t;
    message_per_second = proxy.message_per_second + 1;
    current_request_id = proxy.current_request_id + 1;
  }

  pub increment_lem : (n : ℕ) → n < 2 ^ 31 - 1 → increment n ≡ some (n + 1)
  unfolding increment
  increment_lem n h = rw (lt→ltb n (2 ^ 31 - 1) h)

  once_added :
      (e : RequestEntry lib) (t : hash.Table)
      → hash.find e.request_id t ≡ none
      → hash.find e.request_id (hash.add e t) ≡ some e
  once_added e t free = laws.find-add e e.request_id t free ∙ rw (==_self e.request_id)

  added_and_deleted :
      (e : RequestEntry lib) (t : hash.Table)
      → hash.find e.request_id t ≡ none
      → (k : ℕ) → hash.find k (hash.del e (hash.add e t)) ≡ hash.find k t
  added_and_deleted e t free k =
      laws.find-del e k (hash.add e t) (once_added e t free)
      ∙ elim (Bool-cases (e.request_id == k)) [
        | inl y ↦ rw y (ground (arith, free))
        | inr n ↦ rw n (laws.find-add e k t free ∙ rw n)
      ]

  -- While the counters are below their bound and the next request id is free, a read moves the
  -- connection's input to its output, counts one message and takes the next id, and leaves the table
  -- with what it held before.
  pub echo_read_cb_lem :
      (bev : lib.Bev) (proxy : ProxyServer lib hash)
      → hash.find proxy.current_request_id proxy.request_table ≡ none
      → proxy.message_per_second < 2 ^ 31 - 1
      → proxy.current_request_id < 2 ^ 31 - 1
      → (t : hash.Table) × (echo_read_cb lib hash bev proxy ≡ some (echoed bev proxy t))
        × ((k : ℕ) → hash.find k t ≡ hash.find k proxy.request_table)
  unfolding echo_read_cb respond_cb
  echo_read_cb_lem bev proxy free m c =
      let e = entry lib hash bev proxy in
      let tab = proxy.request_table in
      (
        hash.del e (hash.add e tab),
        rw (
          once_added e tab free,
          increment_lem proxy.message_per_second m,
          increment_lem proxy.current_request_id c,
        ),
        added_and_deleted e tab free,
      )
