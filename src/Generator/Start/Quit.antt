-- ===== src/Generator/Start/Quit.antt =====
-- How the loop ends, and what it has freed.
use diversity.Prelude.{ℕ, ◌≡◌, ap, ◌∙◌, ◌≢◌, ◌⊎◌, Bool, true, false, List, [], ◌∷◌, ◌++◌, arith}
use diversity.Generator.Start.{sigint, sigterm, signal_handler, Event, signal, pass, lcore_main}

-- The buffers of the passes among the events
abbrev pub received : List Event → List ℕ
received [] = []
received (signal signum ∷ events) = received events
received (pass bufs ∷ events) = bufs ++ received events

-- No signal among the events asks to quit.
abbrev pub Quiet : List Event → Type 0
Quiet [] = Unit
Quiet (signal signum ∷ events) = (signum ≢ sigint) × (signum ≢ sigterm) × Quiet events
Quiet (pass bufs ∷ events) = Quiet events

other_signal : (n : ℕ) (q : Bool) → n ≢ sigint → n ≢ sigterm → signal_handler n q ≡ q
unfolding signal_handler
other_signal n q a b = ground arith

quit_signal : (n : ℕ) (q : Bool) → (n ≡ sigint) ⊎ (n ≡ sigterm) → signal_handler n q ≡ true
unfolding signal_handler
quit_signal n q h = ground arith

-- While no signal asks to quit, every received buffer is freed, in the order of arrival; after SIGINT or SIGTERM the next pass
-- ends the loop, before it receives anything.
pub lcore_main-Quiet :
    (before after : List Event) (n : ℕ) (bufs : List ℕ)
    → Quiet before
    → (n ≡ sigint) ⊎ (n ≡ sigterm)
    → lcore_main false (before ++ signal n ∷ pass bufs ∷ after)
      ≡ (received before, pass bufs ∷ after)
unfolding lcore_main
lcore_main-Quiet [] after n bufs q h =
    ap (λ f. lcore_main f (pass bufs ∷ after)) (quit_signal n false h)
lcore_main-Quiet (signal m ∷ before) after n bufs q h =
    ap (λ f. lcore_main f (before ++ signal n ∷ pass bufs ∷ after)) (other_signal m false q.0 q.1)
    ∙ lcore_main-Quiet before after n bufs q.2 h
lcore_main-Quiet (pass more ∷ before) after n bufs q h =
    ap (λ r. (more ++ r.0, r.1)) (lcore_main-Quiet before after n bufs q h)
