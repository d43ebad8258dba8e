-- ===== src/Proxy/Stream.antt =====
-- client_server/tcp/src/server.c: the echo server without a table of requests.
pub mod Same
use diversity.Prelude.{ℕ, Option, some, ◌>>=◌}
use diversity.Proxy.Api.{Buffers}
use diversity.Proxy.Server.{increment}

module _ (lib : Buffers) where
  -- `struct stat`, with the library's state.
  pub record StreamStat : Type 0 where
    pub pps : ℕ
    pub ts : ℕ
    pub buffers : lib.World

  unfoldable pub stream_read_cb : lib.Bev → StreamStat → Option StreamStat
  stream_read_cb bev s = do
    n ← increment s.pps
    some (record s { buffers = lib.add_buffer bev s.buffers; pps = n })

  unfoldable pub stream_stats : StreamStat → Option ((ℕ × ℕ) × StreamStat)
  stream_stats s = do
    second ← increment s.ts
    some ((s.ts, s.pps), record s { pps = 0; ts = second })
