-- ===== src/Proxy/Client.antt =====
-- client_server/tcp/src/client.c, which client_server/uthash/src/client.c repeats: `send_request` and `readcb` on the bytes
-- of the connection.
use diversity.Prelude.{
  ◌-◌, ◌≤◌, ◌≡◌, ap, ap₂, ◌∙◌, Bool, true, not, Option, some, ◌++◌, if◌then◌else◌, ◌>>=◌, length,
  take, drop, Bytes,
}
use diversity.Prelude.Int.{ℤ}
use diversity.Latency.{Timespec, timespec_diff}
use diversity.Latency.Diff.{IsReading, total_ns, time_of, timespec_diff-IsReading}
use diversity.Serial.Times.{IsReading-IsLong}
use diversity.Serial.Wire.{long_of, timespec_bytes, timespec_of}

-- The bytes that are written: the time of the clock.
unfoldable pub send_request : Timespec → Bytes
send_request ts = timespec_bytes ts

-- What a read does: nothing where the buffer gives no bytes; else the time that is printed, the next request, and what is
-- left of the input.
pub data Reading : Type 0 where
  ignored : Reading
  answered : Timespec → Bytes → Bytes → Reading

-- A long that overflows is `none`. `removed` says that `evbuffer_remove` succeeded; `stale` is what `response` held, which stays behind a short read.
unfoldable pub readcb : Bool → Bytes → Bytes → Timespec → Timespec → Option Reading
readcb removed input stale end now =
    let got = take 16 input in
    let start = timespec_of (got ++ drop (length got) stale) in
    let read = do
      diff ← timespec_diff end start
      some (answered diff.0 (send_request now) (drop 16 input))
    in if not removed then some ignored else read

-- A request with a reading of the clock that comes back whole, not before it was sent, is printed with the time since then, whatever
-- the variable held and whatever follows, which is left in the input.
pub readcb-send_request :
    (ts end now : Timespec) (stale more : Bytes)
    → IsReading ts
    → IsReading end
    → total_ns ts ≤ total_ns end
    → readcb true (send_request ts ++ more) stale end now
      ≡ some (answered (time_of (total_ns end - total_ns ts)) (send_request now) more)
unfolding readcb send_request
readcb-send_request ts end now stale more t u h =
    ap₂
      (λ (a b : ℤ). do
        diff ← timespec_diff end record { tv_sec = a; tv_nsec = b }
        some (answered diff.0 (timespec_bytes now) more))
      (long_of ts.tv_sec (IsReading-IsLong ts t).0) (long_of ts.tv_nsec (IsReading-IsLong ts t).1)
    ∙ ap (λ o. do diff ← o; some (answered diff.0 (timespec_bytes now) more))
        (timespec_diff-IsReading end ts u t h)
