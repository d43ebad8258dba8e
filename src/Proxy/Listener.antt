-- ===== src/Proxy/Listener.antt =====
-- client_server/uthash/src/server.c: the start of the server in `main`, and the callbacks that open and close
-- connections or end the loop. A connection is the number of its `bufferevent`.
pub mod Freed
use diversity.Prelude.{
  ℕ, Bool, true, ◌||◌, not, Option, some, List, [], ◌∷◌, ltb, ◌==◌, if◌then◌else◌, ◌>>=◌, Bytes,
}
use diversity.Prelude.Int.{ℤ, pos, negsuc}
use diversity.Net.Numbers.{atoi, htons}

-- How `main` ends early, or the port of the address it listens on, in network order.
pub data Start : Type 0 where
  invalid_port : Start
  no_base : Start
  no_listener : Start
  serving : ℕ → Start

-- The port that is asked for: that of `argv[1]`, if there is one.
abbrev pub asked_port : List Bytes → Option ℤ
asked_port [] = some (pos 9876)
asked_port (a ∷ args) = atoi a

-- The test of the port and what follows it; `base` and `listener` say whether libevent made them.
unfoldable pub on_port : ℤ → Bool → Bool → Start
on_port (negsuc n) base listener = invalid_port
on_port (pos port) base listener =
    if port == 0 || ltb 65535 port
    then invalid_port
    else if not base
    then no_base
    else if not listener
    then no_listener
    else serving (htons port)

unfoldable pub main : List Bytes → Bool → Bool → Option Start
main args base listener = do port ← asked_port args; some (on_port port base listener)

-- The open connections, those that were freed, and whether the loop was told to exit.
pub record Loop : Type 0 where
  pub connections : List ℕ
  pub freed : List ℕ
  pub exiting : Bool

-- A new connection, with the number that libevent gives it; the flags EOF and ERROR of an event on a connection;
-- an error of the listener; and the two signals.
pub data LoopEvent : Type 0 where
  accepted : ℕ → LoopEvent
  on_connection : ℕ → Bool → Bool → LoopEvent
  listener_error : LoopEvent
  terminated : LoopEvent
  interrupted : LoopEvent

abbrev pub remove : ℕ → List ℕ → List ℕ
remove b [] = []
remove b (c ∷ cs) = if c == b then cs else c ∷ remove b cs

unfoldable pub accept_conn_cb : ℕ → Loop → Loop
accept_conn_cb b l = record l { connections = b ∷ l.connections }

unfoldable pub echo_event_cb : ℕ → Bool → Bool → Loop → Loop
echo_event_cb b eof error l =
    if eof || error
    then record l { connections = remove b l.connections; freed = b ∷ l.freed }
    else l

unfoldable pub loop_exit : Loop → Loop
loop_exit l = record l { exiting = true }

unfoldable pub run : List LoopEvent → Loop → Loop
run [] l = l
run (accepted b ∷ es) l = run es (accept_conn_cb b l)
run (on_connection b eof error ∷ es) l = run es (echo_event_cb b eof error l)
run (listener_error ∷ es) l = run es (loop_exit l)
run (terminated ∷ es) l = run es (loop_exit l)
run (interrupted ∷ es) l = run es (loop_exit l)
