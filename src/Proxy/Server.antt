-- ===== src/Proxy/Server.antt =====
-- client_server/uthash/src/server.c: `struct proxy_server` and the callbacks. An `int` that would pass its bound is undefined:
-- `none`.
pub mod Echo
pub mod Stats
use diversity.Prelude.{ℕ, ◌+◌, ◌-◌, ◌^◌, Option, none, some, ltb, if◌then◌else◌, ◌>>=◌}
use diversity.Proxy.Api.{Buffers, RequestEntry, HashTable}

unfoldable pub increment : ℕ → Option ℕ
increment n = if ltb n (2 ^ 31 - 1) then some (n + 1) else none

module _ (lib : Buffers) (hash : HashTable lib) where
  -- `proxy_id` is set once; `world` is the library's.
  pub record ProxyServer : Type 0 where
    pub current_request_id : ℕ
    pub at_second : ℕ
    pub message_per_second : ℕ
    pub request_table : hash.Table
    pub world : lib.World

  -- As `main` sets it up.
  abbrev pub initial : lib.World → ProxyServer
  initial w = record {
    current_request_id = 0;
    at_second = 0;
    message_per_second = 0;
    request_table = hash.empty;
    world = w;
  }

  abbrev respond_to : Option (RequestEntry lib) → ProxyServer → ProxyServer
  respond_to none proxy = proxy
  respond_to (some s) proxy = record proxy {
    world = lib.add_buffer s.bev proxy.world;
    request_table = hash.del s proxy.request_table;
  }

  unfoldable pub respond_cb : ℕ → ProxyServer → ProxyServer
  respond_cb request_id proxy = respond_to (hash.find request_id proxy.request_table) proxy

  abbrev pub entry : lib.Bev → ProxyServer → RequestEntry lib
  entry bev proxy = record { request_id = proxy.current_request_id; bev = bev }

  abbrev pub entered : lib.Bev → ProxyServer → ProxyServer
  entered bev proxy = record proxy {
    request_table = hash.add (entry bev proxy) proxy.request_table;
  }

  unfoldable pub echo_read_cb : lib.Bev → ProxyServer → Option ProxyServer
  echo_read_cb bev proxy = do
    let proxy' = respond_cb proxy.current_request_id (entered bev proxy)
    messages ← increment proxy'.message_per_second
    id ← increment proxy'.current_request_id
    some (record proxy' { message_per_second = messages; current_request_id = id })

  -- With the line that is printed.
  unfoldable pub on_stats : ProxyServer → Option ((ℕ × ℕ) × ProxyServer)
  on_stats stat = do
    second ← increment stat.at_second
    some (
      (stat.at_second, stat.message_per_second),
      record stat { message_per_second = 0; at_second = second },
    )
