-- ===== src/Serial/Exchange.antt =====
-- The client and the server together, over a connection that delivers each message as one read.
pub mod Strings
pub mod Rounds
use diversity.Prelude.{true, Option, none, some, List, [], ◌∷◌, ◌>>=◌, Bytes}
use diversity.Latency.{Timespec}
use diversity.Serial.Client.{Inputs, Printed, Reading, ignored, answered, readcb}
use diversity.Serial.Server.{Stat, echo_read_cb}

-- One answer of the server and its reading: what the server's buffer held, the time of the reading, and the inputs of
-- the next request.
pub record Round : Type 0 where
  pub stale : Bytes
  pub end : Timespec
  pub next : Inputs

-- What is printed, the request that is on its way, if there is one, and the statistics.
pub record Talk : Type 0 where
  pub printed : List Printed
  pub request : Option Bytes
  pub stat : Stat

-- A reading, and the rest of the talk.
abbrev after : Reading → (Bytes → Option Talk) → Stat → Option Talk
after ignored later stat = some record { printed = []; request = none; stat = stat }
after (answered p request input) later stat = do
  talk ← later request
  some record talk { printed = p ∷ talk.printed }

unfoldable pub conversation : List Round → Bytes → Stat → Option Talk
conversation [] request stat = some record { printed = []; request = some request; stat = stat }
conversation (r ∷ rounds) request stat = do
  (shown, bev) ← echo_read_cb true true r.stale record { input = request; output = []; stat = stat }
  reading ← readcb true bev.output r.end r.next
  after reading (λ next. conversation rounds next bev.stat) bev.stat
