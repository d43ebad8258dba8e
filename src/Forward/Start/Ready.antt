-- ===== src/Forward/Start/Ready.antt =====
-- The program forwards only on ports that are ready.
use diversity.Prelude.{
  ℕ, ◌<◌, ◌≡◌, refl, sym, ap, ap₂, ◌∙◌, inl, inr, Bool, true, false, not, none, some, List, [], ◌∷◌,
  ◌++◌, arith, Bool-cases, length,
}
use diversity.Prelude.Int.{ℤ, pos}
use diversity.Dpdk.{
  EthDev, Made, configured, adjusted, rx_queue, tx_queue, started, promiscuous, is_zero,
  is_negative, attempt, attempt-is_zero, not_zero, negative, was_zero,
}
use diversity.Forward.Start.{
  rx_ring_size, tx_ring_size, forwarding, start_port, setup_queues, init_valid, port_init,
  init_ports, main,
}

module _ (dev : EthDev) where
  -- All calls for a port, in their order, with what the driver returns.
  abbrev pub ready : ℕ → List Made
  ready port =
      let nb = dev.adjust_nb_rx_tx_desc port rx_ring_size tx_ring_size in
      (configured port (dev.has_fast_free port), some (dev.configure port))
      ∷ (adjusted port, some nb.0)
      ∷ (rx_queue port nb.1, some (dev.rx_queue_setup port))
      ∷ (tx_queue port nb.2 (dev.has_fast_free port), some (dev.tx_queue_setup port))
      ∷ (started port, some (dev.start port))
      ∷ (promiscuous port, none)
      ∷ []

  abbrev pub all_ready : List ℕ → List Made
  all_ready [] = []
  all_ready (port ∷ ports) = ready port ++ all_ready ports

  -- No call fails for the port.
  abbrev pub Works : ℕ → Type 0
  Works port =
      (dev.is_valid_port port ≡ true)
      × (is_zero (dev.configure port) ≡ true)
      × (is_zero (dev.adjust_nb_rx_tx_desc port rx_ring_size tx_ring_size).0 ≡ true)
      × (is_negative (dev.rx_queue_setup port) ≡ false)
      × (is_negative (dev.tx_queue_setup port) ≡ false)
      × (is_negative (dev.start port) ≡ false)

  abbrev pub AllWork : List ℕ → Type 0
  AllWork [] = Unit
  AllWork (port ∷ ports) = Works port × AllWork ports

  start_port-is_zero :
      (port : ℕ)
      → is_zero (start_port dev port).0 ≡ true
      → (is_negative (dev.start port) ≡ false)
        × ((start_port dev port).1
            ≡ (started port, some (dev.start port)) ∷ (promiscuous port, none) ∷ [])
  unfolding start_port
  start_port-is_zero port e =
      let (f, _, l) =
        attempt-is_zero (is_negative (dev.start port)) (dev.start port) (started port)
          (pos 0, (promiscuous port, none) ∷ []) (negative (dev.start port)) e in
      (f, l)

  setup_queues-is_zero :
      (port r t : ℕ)
      → is_zero (setup_queues dev port r t).0 ≡ true
      → (is_negative (dev.rx_queue_setup port) ≡ false)
        × (is_negative (dev.tx_queue_setup port) ≡ false)
        × (is_negative (dev.start port) ≡ false)
        × ((setup_queues dev port r t).1
            ≡ (rx_queue port r, some (dev.rx_queue_setup port))
              ∷ (tx_queue port t (dev.has_fast_free port), some (dev.tx_queue_setup port))
              ∷ (started port, some (dev.start port))
              ∷ (promiscuous port, none)
              ∷ [])
  unfolding setup_queues
  setup_queues-is_zero port r t e =
      let rx = dev.rx_queue_setup port in
      let tx = dev.tx_queue_setup port in
      let call = tx_queue port t (dev.has_fast_free port) in
      let sent = attempt (is_negative tx) tx call (start_port dev port) in
      let a = attempt-is_zero (is_negative rx) rx (rx_queue port r) sent (negative rx) e in
      let b = attempt-is_zero (is_negative tx) tx call (start_port dev port) (negative tx) a.1 in
      let s = start_port-is_zero port b.1 in
      (
        a.0,
        b.0,
        s.0,
        a.2 ∙ ap (◌∷◌ (rx_queue port r, some rx)) (b.2 ∙ ap (◌∷◌ (call, some tx)) s.1),
      )

  init_valid-is_zero :
      (port : ℕ)
      → dev.is_valid_port port ≡ true
      → is_zero (init_valid dev port).0 ≡ true
      → Works port × ((init_valid dev port).1 ≡ ready port)
  unfolding init_valid
  init_valid-is_zero port v e =
      let nb = dev.adjust_nb_rx_tx_desc port rx_ring_size tx_ring_size in
      let retval = dev.configure port in
      let call = configured port (dev.has_fast_free port) in
      let queues = setup_queues dev port nb.1 nb.2 in
      let rest = attempt (not (is_zero nb.0)) nb.0 (adjusted port) queues in
      let a = attempt-is_zero (not (is_zero retval)) retval call rest (not_zero retval) e in
      let b =
        attempt-is_zero (not (is_zero nb.0)) nb.0 (adjusted port) queues (not_zero nb.0) a.1 in
      let s = setup_queues-is_zero port nb.1 nb.2 b.1 in
      (
        (v, was_zero retval a.0, was_zero nb.0 b.0, s.0, s.1, s.2),
        a.2 ∙ ap (◌∷◌ (call, some retval)) (b.2 ∙ ap (◌∷◌ (adjusted port, some nb.0)) s.3),
      )

  invalid : (port : ℕ) → dev.is_valid_port port ≡ false → is_zero (port_init dev port).0 ≡ false
  unfolding port_init
  invalid port e = ground (arith, e)

  valid : (port : ℕ) → dev.is_valid_port port ≡ true → port_init dev port ≡ init_valid dev port
  unfolding port_init
  valid port e = ground (arith, e)

  port_init-is_zero :
      (port : ℕ)
      → is_zero (port_init dev port).0 ≡ true
      → Works port × ((port_init dev port).1 ≡ ready port)
  port_init-is_zero port e = elim (Bool-cases (dev.is_valid_port port)) [
    | inl v ↦
        let (w, l) = init_valid-is_zero port v (sym (ap (λ i. is_zero i.0) (valid port v)) ∙ e) in
        (w, ap (λ i. i.1) (valid port v) ∙ l)
    | inr v ↦ absurd (cc (e, invalid port v))
  ]

  init_ports-step :
      (port : ℕ) (ports : List ℕ)
      → (init_ports dev (port ∷ ports)).0 ≡ forwarding
      → (is_zero (port_init dev port).0 ≡ true)
        × ((init_ports dev ports).0 ≡ forwarding)
        × ((init_ports dev (port ∷ ports)).1 ≡ (port_init dev port).1 ++ (init_ports dev ports).1)
  unfolding init_ports
  init_ports-step port ports e = ground arith

  init_ports-forwarding :
      (ports : List ℕ)
      → (init_ports dev ports).0 ≡ forwarding
      → AllWork ports × ((init_ports dev ports).1 ≡ all_ready ports)
  unfolding init_ports
  init_ports-forwarding [] e = (tt, refl)
  init_ports-forwarding (port ∷ ports) e =
      let s = init_ports-step port ports e in
      let first = port_init-is_zero port s.0 in
      let rest = init_ports-forwarding ports s.1 in
      ((first.0, rest.0), s.2 ∙ ap₂ (◌++◌) first.1 rest.1)

  main-step :
      (ret : ℤ) (ports : List ℕ) (pool : Bool)
      → (main dev ret ports pool).0 ≡ forwarding
      → (pool ≡ true) × (0 < length ports) × (main dev ret ports pool ≡ init_ports dev ports)
  unfolding main
  main-step ret ports pool e = ground arith

  -- The program forwards packets only when there is a port and the pool, and then every available port is valid and was
  -- configured, its queues were made with the numbers of descriptors that the driver allows, and it was started and made
  -- promiscuous, in this order, and none of these calls failed.
  pub main-forwarding :
      (ret : ℤ) (ports : List ℕ) (pool : Bool)
      → (main dev ret ports pool).0 ≡ forwarding
      → (pool ≡ true)
        × (0 < length ports)
        × AllWork ports
        × ((main dev ret ports pool).1 ≡ all_ready ports)
  main-forwarding ret ports pool e =
      let s = main-step ret ports pool e in
      let inits = init_ports-forwarding ports (ap (λ o. o.0) (sym s.2) ∙ e) in
      (s.0, s.1, inits.0, ap (λ o. o.1) s.2 ∙ inits.1)
