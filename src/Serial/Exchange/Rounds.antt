-- ===== src/Serial/Exchange/Rounds.antt =====
-- Every request comes back as it was sent, and is printed with its time.
use diversity.Serial.Client.{readcb}
use diversity.Serial.Server.{Stat, echo_read_cb}
use diversity.Serial.Server.{echo}
use diversity.Serial.Client.{answered}
use diversity.Serial.Exchange.{conversation, Round}
use diversity.Serial.Exchange.{Talk}
use diversity.Prelude.{
  ℕ, zero, suc, ◌+◌, ◌-◌, ◌^◌, ◌≤◌, ◌<◌, ◌≡◌, refl, ap, ap₂, ◌∙◌, true, Option, some, List, [], ◌∷◌,
  ◌++◌, arith, ◌>>=◌, bounded_lem, length, take, drop, replicate, length-take, take-length, Bytes,
}
use diversity.Prelude.Int.{ℤ}
use diversity.Prelude.Frames.{bytes4, le32}
use diversity.Latency.{Timespec, timespec_diff}
use diversity.Latency.Diff.{IsReading, total_ns, time_of, timespec_diff-IsReading}
use diversity.Serial.Times.{IsReading-IsLong}
use diversity.Message.{create_client_request, message_length}
use diversity.Serial.Wire.{timespec_bytes, timespec_of, c_string, long_of, c_string-append}
use diversity.Serial.Client.{letters, random_string, Inputs, send_request, Printed, print_response}
use diversity.Serial.Exchange.Strings.{letters-All}

abbrev content_of : Inputs → Bytes
content_of i = letters i.rand 0 15

-- What follows the content in the message
abbrev behind : Inputs → Bytes
behind i = take 7 (drop 16 i.garbage)

abbrev pub wire : Inputs → Bytes
wire i = le32 47 ++ (bytes4 i.padding ++ (timespec_bytes i.ts ++ (content_of i ++ 0 ∷ behind i)))

send_request-wire : (i : Inputs) → send_request i ≡ some (wire i)
unfolding send_request random_string create_client_request letters
send_request-wire i = refl

length-wire : (i : Inputs) → length (wire i) ≤ 128
unfolding letters
length-wire i = omega (arith, length-take 7 (drop 16 i.garbage))

drop_all : (n : ℕ) (xs : Bytes) → length xs ≤ n → drop n xs ≡ []
drop_all zero [] h = refl
drop_all (suc n) [] h = refl
drop_all zero (x ∷ xs) h = absurd (omega (arith, h))
drop_all (suc n) (x ∷ xs) h = drop_all n xs (omega (arith, h))

content-wire :
    (i : Inputs) (more : Bytes) → c_string (drop 24 (wire i ++ more)) ≡ some (content_of i)
unfolding letters
content-wire i more = c_string-append (content_of i) (behind i ++ more) (letters-All i.rand 0 15)

-- What is printed for a request that is answered at `end`: the time is computed on nanoseconds.
abbrev pub printed_for : Inputs → Timespec → Printed
printed_for i end = record {
  content = letters i.rand 0 15;
  size = 16;
  elapsed = time_of (total_ns end - total_ns i.ts);
}

time-wire :
    (i : Inputs) (more : Bytes)
    → IsReading i.ts
    → timespec_of (take 16 (drop 8 (wire i ++ more))) ≡ i.ts
time-wire i more t =
    ap₂ (λ (s n : ℤ). record { tv_sec = s; tv_nsec = n })
      (long_of i.ts.tv_sec (IsReading-IsLong i.ts t).0)
      (long_of i.ts.tv_nsec (IsReading-IsLong i.ts t).1)

print_response-wire :
    (i : Inputs) (more : Bytes) (end : Timespec)
    → IsReading i.ts
    → IsReading end
    → total_ns i.ts ≤ total_ns end
    → print_response (wire i ++ more) end ≡ some (printed_for i end)
unfolding print_response message_length
print_response-wire i more end t u h = rw (content-wire i more) (
    ap
      (λ ts. do
        diff ← timespec_diff end ts
        some record { content = content_of i; size = 16; elapsed = diff.0 })
      (time-wire i more t)
    ∙ ap (λ o. do diff ← o; some record { content = content_of i; size = 16; elapsed = diff.0 })
        (timespec_diff-IsReading end i.ts u t h))

-- A message that fits the buffers is echoed whole,
echo_whole :
    (w content stale : Bytes) (stat : Stat)
    → length w ≤ 128
    → ((more : Bytes) → c_string (drop 24 (w ++ more)) ≡ some content)
    → stat.pps + 1 < 2 ^ 31
    → echo_read_cb true true stale record { input = w; output = []; stat = stat }
      ≡ some (
        some content,
        record { input = []; output = w; stat = record { pps = stat.pps + 1; ts = stat.ts } },
      )
unfolding echo_read_cb echo
echo_whole w content stale stat l c h =
    rw
      (
        take-length 128 w l,
        drop_all 128 w l,
        c (drop (length w) stale),
        bounded_lem (stat.pps + 1) h,
      )
      refl

-- and read whole.
readcb_whole :
    (w : Bytes) (end : Timespec) (next : Inputs) (p : Printed)
    → length w ≤ 128
    → ((more : Bytes) → print_response (w ++ more) end ≡ some p)
    → readcb true w end next ≡ some (answered p (wire next) [])
unfolding readcb
readcb_whole w end next p l c =
    rw
      (
        take-length 128 w l,
        drop_all 128 w l,
        c (replicate (128 - length w) 0),
        send_request-wire next,
      )
      refl

-- What is printed in the rounds after a request, and the inputs of the last request.
abbrev pub printed_in : Inputs → List Round → List Printed
printed_in i [] = []
printed_in i (r ∷ rounds) = printed_for i r.end ∷ printed_in r.next rounds

abbrev pub last_inputs : Inputs → List Round → Inputs
last_inputs i [] = i
last_inputs i (r ∷ rounds) = last_inputs r.next rounds

-- Readings of the clock, each response not before its request.
abbrev pub AllTimed : Inputs → List Round → Type 0
AllTimed i [] = IsReading i.ts
AllTimed i (r ∷ rounds) =
    IsReading i.ts × IsReading r.end × total_ns i.ts ≤ total_ns r.end × AllTimed r.next rounds

talk_of : Stat → ℕ → List Printed → Bytes → Talk
talk_of stat n printed request = record {
  printed = printed;
  request = some request;
  stat = record { pps = stat.pps + n; ts = stat.ts };
}

one_round :
    (w w' : Bytes) (r : Round) (rounds : List Round) (stat stat' : Stat) (shown : Option Bytes)
    (p : Printed) (talk : Talk)
    → echo_read_cb true true r.stale record { input = w; output = []; stat = stat }
      ≡ some (shown, record { input = []; output = w; stat = stat' })
    → readcb true w r.end r.next ≡ some (answered p w' [])
    → conversation rounds w' stat' ≡ some talk
    → conversation (r ∷ rounds) w stat ≡ some record talk { printed = p ∷ talk.printed }
unfolding conversation
one_round w w' r rounds stat stat' shown p talk e a c = rw (e, a, c) refl

conversation-wire :
    (i : Inputs) (rounds : List Round) (stat : Stat)
    → AllTimed i rounds
    → stat.pps + length rounds < 2 ^ 31
    → conversation rounds (wire i) stat
      ≡ some (talk_of stat (length rounds) (printed_in i rounds) (wire (last_inputs i rounds)))
unfolding conversation talk_of
conversation-wire i [] stat t h =
    ap
      (λ n.
        some
          record { printed = []; request = some (wire i); stat = record { pps = n; ts = stat.ts } })
      {x = stat.pps} {y = stat.pps + 0} (omega arith)
conversation-wire i (r ∷ rounds) stat t h =
    let stat' : Stat = record { pps = stat.pps + 1; ts = stat.ts } in
    let n = length rounds in
    let printed = printed_in r.next rounds in
    let last = wire (last_inputs r.next rounds) in
    one_round (wire i) (wire r.next) r rounds stat stat' (some (content_of i)) (printed_for i r.end)
      (talk_of stat' n printed last)
      (echo_whole (wire i) (content_of i) r.stale stat (length-wire i) (content-wire i)
        (omega (arith, h)))
      (readcb_whole (wire i) r.end r.next (printed_for i r.end) (length-wire i)
        (λ more. print_response-wire i more r.end t.0 t.1 t.2))
      (conversation-wire r.next rounds stat' t.3 (omega (arith, h)))
    ∙ ap
        (λ k. some record {
          printed = printed_for i r.end ∷ printed;
          request = some last;
          stat = record { pps = k; ts = stat.ts };
        })
        {x = stat.pps + 1 + n} {y = stat.pps + length (r ∷ rounds)} (omega arith)

-- From a first request on, over any rounds whose times are readings of the clock, no response before its request, and whose
-- number does not take the counter past an int: no read or write leaves its buffer and no long overflows, each response is
-- printed with the 15 letters of its request, the size 16 and the seconds and nanoseconds from the request to its
-- reading, the next request follows, and the server counts every round, whatever the bytes were that were not initialised.
pub send_request-conversation :
    (i : Inputs) (rounds : List Round) (stat : Stat)
    → AllTimed i rounds
    → stat.pps + length rounds < 2 ^ 31
    → (send_request i >>= λ request. conversation rounds request stat)
      ≡ some record {
        printed = printed_in i rounds;
        request = send_request (last_inputs i rounds);
        stat = record { pps = stat.pps + length rounds; ts = stat.ts };
      }
unfolding talk_of
send_request-conversation i rounds stat t h =
    rw (send_request-wire i, send_request-wire (last_inputs i rounds))
      (conversation-wire i rounds stat t h)
