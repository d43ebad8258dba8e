-- ===== src/UdpEcho/Exchange.antt =====
-- The client and the server over a network that delivers each datagram.
use diversity.Prelude.{
  ◌+◌, ◌-◌, ◌^◌, ◌≤◌, ◌<◌, ◌≡◌, refl, ap, ap₂, ◌∙◌, Option, none, some, List, [], ◌∷◌, arith,
  if◌then◌else◌, ◌>>=◌, bounded_lem, length, take, Bytes,
}
use diversity.Prelude.Int.{ℤ}
use diversity.Latency.{Timespec, timespec_diff}
use diversity.Serial.Wire.{long_of, timespec_bytes}
use diversity.Latency.Diff.{IsReading, total_ns, time_of, timespec_diff-IsReading}
use diversity.Serial.Times.{IsReading-IsLong}
use diversity.UdpEcho.Server.{ServerContext, Recv, datagram, error}
use diversity.UdpEcho.Client.{send_to_addr, start_of}
use diversity.UdpEcho.Server
use diversity.UdpEcho.Client

-- One answer: what `start` held, the time it is read, and the time of the next request.
pub record Round : Type 0 where
  pub stale : Bytes
  pub end : Timespec
  pub next : Timespec

-- What `sendto` sent, as `recvfrom` meets it
abbrev arriving : Option Bytes → Recv
arriving none = error
arriving (some d) = datagram d

-- What is printed after the request, and the server.
unfoldable pub exchange :
    List Round → Bytes → ServerContext → Option (List (Option Timespec) × ServerContext)
exchange [] request ctx = some ([], ctx)
exchange (r ∷ rounds) request ctx = do
  (reply, ctx') ← Server.on_read (datagram request) ctx
  shown ← Client.on_read (arriving reply) r.stale r.end r.next
  (printed, last) ← exchange rounds shown.1 ctx'
  some (shown.0 ∷ printed, last)

-- Readings of the clock, each answer not before its request.
abbrev pub AllReadings : Timespec → List Round → Type 0
AllReadings ts [] = IsReading ts
AllReadings ts (r ∷ rounds) =
    IsReading ts × IsReading r.end × total_ns ts ≤ total_ns r.end × AllReadings r.next rounds

-- The time from each request to its answer.
abbrev pub elapsed : Timespec → List Round → List (Option Timespec)
elapsed ts [] = []
elapsed ts (r ∷ rounds) = some (time_of (total_ns r.end - total_ns ts)) ∷ elapsed r.next rounds

start_of-echoed :
    (ts : Timespec) (stale : Bytes)
    → IsReading ts
    → start_of (datagram (take 1024 (timespec_bytes ts))) stale ≡ ts
unfolding start_of
start_of-echoed ts stale t =
    ap₂ (λ (s n : ℤ). record { tv_sec = s; tv_nsec = n })
      (long_of ts.tv_sec (IsReading-IsLong ts t).0) (long_of ts.tv_nsec (IsReading-IsLong ts t).1)

answered :
    (d : Bytes) (ctx : ServerContext)
    → ctx.message_per_second + 1 < 2 ^ 31
    → Server.on_read (datagram d) ctx
      ≡ some (some (take 1024 d), record ctx { message_per_second = ctx.message_per_second + 1 })
unfolding Server.on_read
answered d ctx h = rw (bounded_lem (ctx.message_per_second + 1) h) refl

read_back :
    (ts end next : Timespec) (stale : Bytes)
    → IsReading ts
    → IsReading end
    → total_ns ts ≤ total_ns end
    → Client.on_read (datagram (take 1024 (send_to_addr ts))) stale end next
      ≡ some (some (time_of (total_ns end - total_ns ts)), send_to_addr next)
unfolding Client.on_read send_to_addr
read_back ts end next stale t u h =
    ap
      (λ start. do
        diff ← timespec_diff end start
        some (if diff.1 then none else some diff.0, timespec_bytes next))
      (start_of-echoed ts stale t)
    ∙ ap (λ o. do diff ← o; some (if diff.1 then none else some diff.0, timespec_bytes next))
        (timespec_diff-IsReading end ts u t h)

one_round :
    (r : Round) (rounds : List Round) (d : Bytes) (ctx ctx' : ServerContext)
    (shown : Option Timespec × Bytes) (rest : List (Option Timespec) × ServerContext)
    → Server.on_read (datagram d) ctx ≡ some (some (take 1024 d), ctx')
    → Client.on_read (datagram (take 1024 d)) r.stale r.end r.next ≡ some shown
    → exchange rounds shown.1 ctx' ≡ some rest
    → exchange (r ∷ rounds) d ctx ≡ some (shown.0 ∷ rest.0, rest.1)
unfolding exchange
one_round r rounds d ctx ctx' shown rest a c e = rw (a, c, e) refl

-- From a first request on, over any rounds that lose no datagram, whose times are readings of the clock, no answer before its
-- request, and whose number does not take the counter past an int: each answer is printed with the time from its request, whatever
-- the client's variable held, and the server counts every round.
pub exchange-elapsed :
    (rounds : List Round) (ts : Timespec) (ctx : ServerContext)
    → AllReadings ts rounds
    → ctx.message_per_second + length rounds < 2 ^ 31
    → exchange rounds (send_to_addr ts) ctx
      ≡ some (
        elapsed ts rounds,
        record ctx { message_per_second = ctx.message_per_second + length rounds },
      )
unfolding exchange
exchange-elapsed [] ts ctx t h =
    ap (λ n. some ([], record ctx { message_per_second = n })) {x = ctx.message_per_second}
      {y = ctx.message_per_second + 0} (omega arith)
exchange-elapsed (r ∷ rounds) ts ctx t h =
    let n = ctx.message_per_second in
    let ctx' = record ctx { message_per_second = n + 1 } in
    let last = record ctx { message_per_second = n + 1 + length rounds } in
    one_round r rounds (send_to_addr ts) ctx ctx'
      (some (time_of (total_ns r.end - total_ns ts)), send_to_addr r.next)
      (elapsed r.next rounds, last) (answered (send_to_addr ts) ctx (omega (arith, h)))
      (read_back ts r.end r.next r.stale t.0 t.1 t.2)
      (exchange-elapsed rounds r.next ctx' t.3 (omega (arith, h)))
    ∙ ap
        (λ k. some (
          some (time_of (total_ns r.end - total_ns ts)) ∷ elapsed r.next rounds,
          record ctx { message_per_second = k },
        ))
        {x = n + 1 + length rounds} {y = n + length (r ∷ rounds)} (omega arith)
