-- ===== src/UdpEcho/Server.antt =====
-- client_server/udp/src/server.c: `on_read` and `on_perf`. An `int` that would pass its bound is `none`.
use diversity.Prelude.{ℕ, ◌+◌, Option, none, some, ◌>>=◌, bounded, take, Bytes}

-- `struct server_context`, without the event base
pub record ServerContext : Type 0 where
  pub at_second : ℕ
  pub message_per_second : ℕ

-- What `recvfrom` meets: a datagram, or an error.
pub data Recv : Type 0 where
  datagram : Bytes → Recv
  error : Recv

-- What is sent back, from a buffer of 1024 bytes; the count is the same whether `sendto` succeeds.
unfoldable pub on_read : Recv → ServerContext → Option (Option Bytes × ServerContext)
on_read error ctx = some (none, ctx)
on_read (datagram d) ctx = do
  n ← bounded (ctx.message_per_second + 1)
  some (some (take 1024 d), record ctx { message_per_second = n })

-- With the line that is printed.
unfoldable pub on_perf : ServerContext → Option ((ℕ × ℕ) × ServerContext)
on_perf ctx = do
  second ← bounded (ctx.at_second + 1)
  some (
    (ctx.at_second, ctx.message_per_second),
    record { at_second = second; message_per_second = 0 },
  )
