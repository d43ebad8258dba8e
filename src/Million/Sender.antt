-- ===== src/Million/Sender.antt =====
-- how-to-receive-a-million-packets/udpsender.c: `thread_loop`, with what it hands to the network.
pub mod Payloads
use diversity.Prelude.{ℕ, zero, suc, Bool, true, false, List, [], ◌∷◌, ◌++◌, take, replicate, Bytes}

-- The target is connected before; `payload` is its bytes, `payload_sz` of them.
pub record State : Type 0 where
  pub packets_in_buf : ℕ
  pub payload : Bytes

-- What `main` fills in: 1024 packets of 32 zero bytes.
abbrev pub main_state : State
main_state = record { packets_in_buf = 1024; payload = replicate 32 0 }

-- The vectors, which all have the same payload.
unfoldable pub messages : ℕ → Bytes → List Bytes
messages zero payload = []
messages (suc n) payload = payload ∷ messages n payload

-- What `sendmmsg` returns: the messages that it sent, or its error.
pub data Result : Type 0 where
  sent : ℕ → Result
  again : Result
  refused : Result
  fatal : Result

-- The loop: what went out, and whether the thread still runs.
unfoldable pub send_loop : List Bytes → List Result → List Bytes × Bool
send_loop msgs [] = ([], true)
send_loop msgs (sent r ∷ rs) = let rest = send_loop msgs rs in (take r msgs ++ rest.0, rest.1)
send_loop msgs (again ∷ rs) = send_loop msgs rs
send_loop msgs (refused ∷ rs) = send_loop msgs rs
send_loop msgs (fatal ∷ rs) = ([], false)

unfoldable pub thread_loop : State → List Result → List Bytes × Bool
thread_loop state rs = send_loop (messages state.packets_in_buf state.payload) rs
