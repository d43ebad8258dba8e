-- ===== src/UdpEcho/Client.antt =====
-- client_server/udp/src/client.c: `on_read` and `send_to_addr`.
use diversity.Prelude.{Option, none, some, ◌++◌, if◌then◌else◌, ◌>>=◌, length, take, drop, Bytes}
use diversity.Latency.{Timespec, timespec_diff}
use diversity.Serial.Wire.{timespec_bytes, timespec_of}
use diversity.UdpEcho.Server.{Recv, datagram, error}

-- The datagram with the time of the clock
unfoldable pub send_to_addr : Timespec → Bytes
send_to_addr ts = timespec_bytes ts

-- What `start` holds after the call: of a longer datagram the first 16 bytes, of a shorter one or of none the rest is what
-- stood there.
unfoldable pub start_of : Recv → Bytes → Timespec
start_of (datagram d) stale = let got = take 16 d in timespec_of (got ++ drop (length got) stale)
start_of error stale = timespec_of stale

-- The time that is printed, if it is, and the next datagram, which is sent after an error too; `none` if a long overflows.
unfoldable pub on_read : Recv → Bytes → Timespec → Timespec → Option (Option Timespec × Bytes)
on_read got stale end now = do
  diff ← timespec_diff end (start_of got stale)
  some (if diff.1 then none else some diff.0, send_to_addr now)
