-- ===== src/Serial/Server.antt =====
-- struct_serialization/src/server.c: `echo_read_cb` and `on_stats`, over the input and the output buffer of a
-- connection.
use diversity.Prelude.{
  ℕ, ◌+◌, Bool, not, Option, none, some, ◌++◌, if◌then◌else◌, ◌>>=◌, bounded, length, take, drop,
  Bytes,
}
use diversity.Serial.Wire.{c_string}

-- `struct stat`
pub record Stat : Type 0 where
  pub pps : ℕ
  pub ts : ℕ

pub record Connection : Type 0 where
  pub input : Bytes
  pub output : Bytes
  pub stat : Stat

-- A read whose bytes are removed: `stale` is what the buffer of 128 bytes held, and `added` says that `evbuffer_add`
-- succeeded. With the content that is printed; `none` is a read behind the buffer.
unfoldable pub echo : Bool → Bytes → Connection → Option (Bytes × Connection)
echo added stale bev = do
  let received = take 128 bev.input
  content ← c_string (drop 24 (received ++ drop (length received) stale))
  pps ← bounded (bev.stat.pps + 1)
  some (
    content,
    record {
      input = drop 128 bev.input;
      output = if added then bev.output ++ received else bev.output;
      stat = record { pps = pps; ts = bev.stat.ts };
    },
  )

-- `removed` says that `evbuffer_remove` succeeded.
unfoldable pub echo_read_cb : Bool → Bool → Bytes → Connection → Option (Option Bytes × Connection)
echo_read_cb removed added stale bev =
    let echoed = (do (content, bev') ← echo added stale bev; some (some content, bev')) in
    if not removed then some (none, bev) else echoed

-- With the line that is printed.
unfoldable pub on_stats : Stat → Option ((ℕ × ℕ) × Stat)
on_stats stat = do
  ts ← bounded (stat.ts + 1)
  some ((stat.ts, stat.pps), record { pps = 0; ts = ts })
