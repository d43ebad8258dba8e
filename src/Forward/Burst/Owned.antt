-- ===== src/Forward/Burst/Owned.antt =====
-- Every received buffer is sent or freed, once.
use diversity.Prelude.{
  ℕ, zero, suc, ◌+◌, ◌-◌, ◌≤◌, ◌≡◌, refl, sym, ap, ap₂, ◌∙◌, inl, inr, some, List, [], ◌∷◌, ◌++◌,
  map, append_assoc, arith, ltb, ◌==◌, Bool-cases, length, take, drop, length-append, length-take,
  length-drop, take-append-drop, take-append, Bytes,
}
use diversity.Prelude.Arrays.{read-middle, write-middle}
use diversity.Prelude.Frames.{Six}
use diversity.Forward.Packet.{packet_handler}
use diversity.Forward.Burst.{free_from, rx_handler, Round, forward_burst, Burst, lcore_main}

free_from-middle :
    (k i : ℕ) (before mid after : List Bytes)
    → i ≡ length before
    → k ≡ length mid
    → free_from k i (before ++ (mid ++ after)) ≡ some mid
unfolding free_from
free_from-middle zero i before [] after hi hk = refl
free_from-middle zero i before (m ∷ mid) after hi hk = absurd (omega (arith, hk))
free_from-middle (suc k) i before [] after hi hk = absurd (omega (arith, hk))
free_from-middle (suc k) i before (m ∷ mid) after hi hk =
    let rest =
      ap (free_from k (i + 1)) (sym (append_assoc before (m ∷ []) (mid ++ after)))
      ∙ free_from-middle k (i + 1) (before ++ m ∷ []) mid after
          (omega (arith, hi, length-append {0} before (m ∷ []))) (omega (arith, hk)) in
    rw (read-middle before (mid ++ after) m i hi, rest) refl

-- Its first elements are a list without the others.
take_front : (n : ℕ) (xs ys : List Bytes) → n ≡ length xs → take n (xs ++ ys) ≡ xs
take_front n xs ys h = rw h (take-append xs ys)

module _ (mac : ℕ → Six) where
  -- The buffers that a pass received, as they are handled.
  abbrev pub handled : Burst → List Bytes
  handled b = map (packet_handler (mac b.port)) (take b.nb_rx b.bufs)

  -- The array has 32 slots, the driver fills at most these, and takes at most what it is given.
  abbrev pub IsBurst : Burst → Type 0
  IsBurst b = (length b.bufs ≡ 32) × b.nb_rx ≤ 32 × b.nb_tx ≤ b.nb_rx

  abbrev pub AllBursts : List Burst → Type 0
  AllBursts [] = Unit
  AllBursts (b ∷ bursts) = IsBurst b × AllBursts bursts

  -- In each pass the first handled buffers are sent, as many as the driver takes, and the others are freed.
  abbrev pub Owned : List Burst → List Round → Type 0
  Owned [] [] = Unit
  Owned [] (r ∷ rounds) = ⊥
  Owned (b ∷ bursts) [] = ⊥
  Owned (b ∷ bursts) (r ∷ rounds) =
      (r.sent ++ r.freed ≡ handled b) × (length r.sent ≡ b.nb_tx) × Owned bursts rounds

  rx_handler-map :
      (k i port : ℕ) (before after : List Bytes)
      → i ≡ length before
      → k ≤ length after
      → rx_handler mac k i (before ++ after) port
        ≡ some (before ++ (map (packet_handler (mac port)) (take k after) ++ drop k after))
  unfolding rx_handler
  rx_handler-map zero i port before after hi hk = refl
  rx_handler-map (suc k) i port before [] hi hk = absurd (omega (arith, hk))
  rx_handler-map (suc k) i port before (b ∷ after) hi hk =
      let done = packet_handler (mac port) b in
      let rest =
        ap (λ l. rx_handler mac k (i + 1) l port) (sym (append_assoc before (done ∷ []) after))
        ∙ rx_handler-map k (i + 1) port (before ++ done ∷ []) after
            (omega (arith, hi, length-append {0} before (done ∷ []))) (omega (arith, hk))
        ∙ ap some (
            append_assoc before (done ∷ [])
              (map (packet_handler (mac port)) (take k after) ++ drop k after)) in
      rw (read-middle before after b i hi, write-middle before after b done i hi) rest

  length-handled :
      (port : ℕ) (xs : List Bytes) → length (map (packet_handler (mac port)) xs) ≡ length xs
  length-handled port [] = refl
  length-handled port (x ∷ xs) = ap suc (length-handled port xs)

  -- A pass, where the handled buffers are split at the number that the driver takes.
  split_burst :
      (b : Burst) (p q stale : List Bytes)
      → rx_handler mac b.nb_rx 0 b.bufs b.port ≡ some (p ++ (q ++ stale))
      → length p ≡ b.nb_tx
      → length p + length q ≡ b.nb_rx
      → forward_burst mac b ≡ some record { sent = p; freed = q }
  unfolding forward_burst
  split_burst b p q stale e hp hq = elim (Bool-cases (b.nb_rx == 0)) [
    | inl z ↦
        let none_received : b.nb_rx ≡ 0 = ground (arith, z) in
        rw (e, z)
          (ap₂ (λ s f. some record { sent = s; freed = f })
            (sym (empty_list p (omega (arith, none_received, hq))))
            (sym (empty_list q (omega (arith, none_received, hq)))))
    | inr n ↦ elim (Bool-cases (ltb b.nb_tx b.nb_rx)) [
      | inl t ↦
          rw
            (
              e,
              n,
              t,
              free_from-middle (b.nb_rx - b.nb_tx) b.nb_tx p q stale (sym hp)
                  (omega (arith, hp, hq)),
              take_front b.nb_tx p (q ++ stale) (sym hp),
            )
            refl
      | inr f ↦
          let all_sent : length q ≡ 0 = ground (arith, f, hp, hq) in
          rw (e, n, f, take_front b.nb_tx p (q ++ stale) (sym hp))
            (ap (λ l. some record { sent = p; freed = l }) (sym (empty_list q all_sent)))
    ]
  ]
    where
      empty_list : (xs : List Bytes) → length xs ≡ 0 → xs ≡ []
      empty_list [] h = refl
      empty_list (x ∷ xs) h = absurd (omega (arith, h))

  one_burst :
      (b : Burst)
      → IsBurst b
      → (r : Round) × (forward_burst mac b ≡ some r)
        × (r.sent ++ r.freed ≡ handled b)
        × (length r.sent ≡ b.nb_tx)
  one_burst b (l, nr, nt) =
      let all = handled b in
      let p = take b.nb_tx all in
      let q = drop b.nb_tx all in
      let whole = take-append-drop b.nb_tx all in
      let n : length all ≡ b.nb_rx =
        omega
          (arith, length-handled b.port (take b.nb_rx b.bufs), length-take b.nb_rx b.bufs, l, nr) in
      let lp : length p ≡ b.nb_tx = omega (arith, length-take b.nb_tx all, n, nt) in
      let lq : length p + length q ≡ b.nb_rx = omega (arith, lp, length-drop b.nb_tx all, n, nt) in
      (
        record { sent = p; freed = q },
        split_burst b p q (drop b.nb_rx b.bufs)
            (rx_handler-map b.nb_rx 0 b.port [] b.bufs refl (omega (arith, l, nr))
              ∙ ap (λ a. some (a ++ drop b.nb_rx b.bufs)) (sym whole)
              ∙ ap some (append_assoc p q (drop b.nb_rx b.bufs)))
            lp lq,
        whole,
        lp,
      )

  next_burst :
      (b : Burst) (bursts : List Burst) (r : Round) (rounds : List Round)
      → forward_burst mac b ≡ some r
      → lcore_main mac bursts ≡ some rounds
      → lcore_main mac (b ∷ bursts) ≡ some (r ∷ rounds)
  unfolding lcore_main
  next_burst b bursts r rounds e e' = rw (e, e') refl

  -- Over any passes, where the array has 32 slots, the driver fills at most these and takes at most what it is given, and whatever
  -- the other slots hold: no access is outside the array, and in each pass the buffers that are sent, as many as the driver takes,
  -- and those that are freed are together the received ones, each handled, in their order, so that none is lost, none is used
  -- twice, and no slot that was not filled is handled, sent or freed.
  pub lcore_main-Owned :
      (bursts : List Burst)
      → AllBursts bursts
      → (rounds : List Round) × (lcore_main mac bursts ≡ some rounds) × Owned bursts rounds
  unfolding lcore_main
  lcore_main-Owned [] h = ([], refl, tt)
  lcore_main-Owned (b ∷ bursts) h =
      let (r, e, w, n) = one_burst b h.0 in
      let (rounds, e', o) = lcore_main-Owned bursts h.1 in
      (r ∷ rounds, next_burst b bursts r rounds e e', (w, n, o))
