-- ===== src/Proxy/Listener/Freed.antt =====
-- A port that is served is the one that was asked for; a connection is freed once.
use diversity.Net.Numbers.{htons-htons}
use diversity.Proxy.Listener.{run}
use diversity.Prelude.{
  ℕ, ◌<◌, ◌≡◌, refl, sym, ap, ◌∙◌, subst, ◌⊎◌, inl, inr, Bool, false, ◌||◌, some, List, [], ◌∷◌,
  ◌++◌, arith, ◌==◌, Bool-cases, >>=-eq-some, Bytes,
}
use diversity.Prelude.Int.{ℤ, pos, negsuc}
use mathlib.Core.List.{Perm, perm_middle}
use mathlib.Core.List.Perm
use diversity.Net.Numbers.{htons}
use diversity.Proxy.Listener.{
  serving, asked_port, on_port, main, Loop, LoopEvent, accepted, on_connection, listener_error,
  terminated, interrupted, remove, accept_conn_cb, echo_event_cb, loop_exit,
}

on_port-serving :
    (port : ℤ) (base listener : Bool) (p : ℕ)
    → on_port port base listener ≡ serving p
    → (n : ℕ) × (port ≡ pos n) × (0 < n) × (n < 65536) × (p ≡ htons n)
unfolding on_port
on_port-serving (negsuc n) base listener p e = absurd (ground (arith, e))
on_port-serving (pos n) base listener p e =
    (n, refl, ground (arith, e), ground (arith, e), ground (arith, e))

-- The server serves only a port from 1 to 65535 that was asked for, and the address has it in network order, so that it is
-- read back.
pub main-serving :
    (args : List Bytes) (base listener : Bool) (p : ℕ)
    → main args base listener ≡ some (serving p)
    → asked_port args ≡ some (pos (htons p)) × (0 < htons p) × (htons p < 65536)
unfolding main
main-serving args base listener p e =
    let asked =
      >>=-eq-some (asked_port args) {f = λ port. some (on_port port base listener)} {b = serving p}
        e in
    let (n, a, l, h, k) = on_port-serving asked.0 base listener p (cc asked.2) in
    let back = ap htons k ∙ htons-htons n h in
    (asked.1 ∙ ap some (a ∙ ap pos (sym back)), omega (arith, back, l), omega (arith, back, h))

-- Events concern connections that are open, as libevent calls nothing for one that was freed.
abbrev pub Open : ℕ → List ℕ → Type 0
Open b [] = ⊥
Open b (c ∷ cs) = (c ≡ b) ⊎ Open b cs

others : (b c : ℕ) (cs : List ℕ) → c == b ≡ false → Open b (c ∷ cs) → Open b cs
others b c cs n (inl e) = absurd (ground (arith, n, e))
others b c cs n (inr o) = o

remove-Perm : (b : ℕ) (cs : List ℕ) → Open b cs → Perm (b ∷ remove b cs) cs
remove-Perm b [] o = elim o [ ]
remove-Perm b (c ∷ cs) o = elim (Bool-cases (c == b)) [
  | inl e ↦ rw e (subst (λ d. Perm (b ∷ cs) (d ∷ cs)) {x = b} {y = c} (ground (arith, e)) Perm.rfl)
  | inr n ↦ rw n (
      Perm.trans (Perm.swap c b (remove b cs)) (Perm.cons c (remove-Perm b cs (others b c cs n o))))
]

echo_event_cb-Perm :
    (b : ℕ) (eof error : Bool) (l : Loop)
    → Open b l.connections
    → Perm
        ((echo_event_cb b eof error l).freed ++ (echo_event_cb b eof error l).connections)
        (l.freed ++ l.connections)
unfolding echo_event_cb
echo_event_cb-Perm b eof error l o = elim (Bool-cases (eof || error)) [
  | inl t ↦ rw t (
      Perm.trans (Perm.symm (perm_middle l.freed (remove b l.connections)))
        (Perm.append_left l.freed (remove-Perm b l.connections o)))
  | inr f ↦ rw f Perm.rfl
]

abbrev pub AllOpen : List LoopEvent → Loop → Type 0
AllOpen [] l = Unit
AllOpen (accepted b ∷ es) l = AllOpen es (accept_conn_cb b l)
AllOpen (on_connection b eof error ∷ es) l =
    Open b l.connections × AllOpen es (echo_event_cb b eof error l)
AllOpen (listener_error ∷ es) l = AllOpen es (loop_exit l)
AllOpen (terminated ∷ es) l = AllOpen es (loop_exit l)
AllOpen (interrupted ∷ es) l = AllOpen es (loop_exit l)

abbrev pub all_accepted : List LoopEvent → List ℕ
all_accepted [] = []
all_accepted (accepted b ∷ es) = b ∷ all_accepted es
all_accepted (on_connection b eof error ∷ es) = all_accepted es
all_accepted (listener_error ∷ es) = all_accepted es
all_accepted (terminated ∷ es) = all_accepted es
all_accepted (interrupted ∷ es) = all_accepted es

-- Over any events that concern open connections: the connections that are open and those that were freed are together
-- those of the start and the accepted ones, each once.
pub run-Perm :
    (es : List LoopEvent) (l : Loop)
    → AllOpen es l
    → Perm
        ((run es l).freed ++ (run es l).connections)
        (all_accepted es ++ (l.freed ++ l.connections))
unfolding run accept_conn_cb echo_event_cb loop_exit
run-Perm [] l o = Perm.rfl
run-Perm (accepted b ∷ es) l o = Perm.trans (run-Perm es (accept_conn_cb b l) o) (
    Perm.trans (Perm.append_left (all_accepted es) (perm_middle l.freed l.connections))
      (perm_middle (all_accepted es) (l.freed ++ l.connections)))
run-Perm (on_connection b eof error ∷ es) l o =
    Perm.trans (run-Perm es (echo_event_cb b eof error l) o.1)
      (Perm.append_left (all_accepted es) (echo_event_cb-Perm b eof error l o.0))
run-Perm (listener_error ∷ es) l o = run-Perm es (loop_exit l) o
run-Perm (terminated ∷ es) l o = run-Perm es (loop_exit l) o
run-Perm (interrupted ∷ es) l o = run-Perm es (loop_exit l) o
