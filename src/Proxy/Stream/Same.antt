-- ===== src/Proxy/Stream/Same.antt =====
-- The server with the table of requests does what the one without it does.
use diversity.Prelude.{ℕ, ◌-◌, ◌^◌, ◌<◌, ◌≡◌, none, some}
use diversity.Proxy.Api.{Buffers, HashTable, TableLaws}
use diversity.Proxy.Server.{ProxyServer, echo_read_cb}
use diversity.Proxy.Server.Echo.{echoed, increment_lem, echo_read_cb_lem}
use diversity.Proxy.Stream.{StreamStat, stream_read_cb}

module _ (lib : Buffers) (hash : HashTable lib) (laws : TableLaws lib hash) where
  abbrev pub stat_of : ProxyServer lib hash → StreamStat lib
  stat_of p = record { pps = p.message_per_second; ts = p.at_second; buffers = p.world }

  -- While the counters are below their bound and the next request id is free, a read of the server with
  -- the table leaves the connections and the counters as the read of the server without it, and the
  -- table with what it held before.
  pub echo_read_cb-stream_read_cb :
      (bev : lib.Bev) (proxy : ProxyServer lib hash)
      → hash.find proxy.current_request_id proxy.request_table ≡ none
      → proxy.message_per_second < 2 ^ 31 - 1
      → proxy.current_request_id < 2 ^ 31 - 1
      → (p : ProxyServer lib hash) × (echo_read_cb lib hash bev proxy ≡ some p)
        × (stream_read_cb lib bev (stat_of proxy) ≡ some (stat_of p))
        × ((k : ℕ) → hash.find k p.request_table ≡ hash.find k proxy.request_table)
  unfolding stream_read_cb
  echo_read_cb-stream_read_cb bev proxy free m c =
      let (t, e, k) = echo_read_cb_lem lib hash laws bev proxy free m c in
      (
        echoed lib hash laws bev proxy t,
        e,
        rw (increment_lem lib hash laws proxy.message_per_second m),
        k,
      )
