-- ===== src/Forward/Start.antt =====
-- client_server/dpdk/src/basicfwd.c: `port_init` and `main`. A port has one ring of each kind, so each loop over the rings
-- is its one pass.
pub mod Ready
use diversity.Prelude.{ℕ, Bool, not, none, List, [], ◌∷◌, ◌++◌, ltb, if◌then◌else◌, length}
use diversity.Prelude.Int.{ℤ, pos, negsuc}
use diversity.Dpdk.{
  EthDev, Made, configured, adjusted, rx_queue, tx_queue, started, promiscuous, is_zero,
  is_negative, Inited, attempt,
}

abbrev pub rx_ring_size : ℕ
rx_ring_size = 1024

abbrev pub tx_ring_size : ℕ
tx_ring_size = 1024

-- How the program ends, or that it forwards packets for good.
pub data Outcome : Type 0 where
  eal_error : Outcome
  no_ports : Outcome
  no_mempool : Outcome
  cannot_init : ℕ → Outcome
  forwarding : Outcome

module _ (dev : EthDev) where
  -- From the start of the port on
  unfoldable pub start_port : ℕ → Inited
  start_port port =
      let retval = dev.start port in
      attempt (is_negative retval) retval (started port) (pos 0, (promiscuous port, none) ∷ [])

  -- The two queues, with the numbers of their descriptors
  unfoldable pub setup_queues : ℕ → ℕ → ℕ → Inited
  setup_queues port nb_rxd nb_txd =
      let rx = dev.rx_queue_setup port in
      let tx = dev.tx_queue_setup port in
      attempt (is_negative rx) rx (rx_queue port nb_rxd) (
        attempt (is_negative tx) tx (tx_queue port nb_txd (dev.has_fast_free port))
          (start_port port))

  -- From the configuration on
  unfoldable pub init_valid : ℕ → Inited
  init_valid port =
      let retval = dev.configure port in
      let adjusting = dev.adjust_nb_rx_tx_desc port rx_ring_size tx_ring_size in
      attempt (not (is_zero retval)) retval (configured port (dev.has_fast_free port)) (
        attempt (not (is_zero adjusting.0)) adjusting.0 (adjusted port)
          (setup_queues port adjusting.1 adjusting.2))

  unfoldable pub port_init : ℕ → Inited
  port_init port =
      let inited = init_valid port in
      if not (dev.is_valid_port port) then (negsuc 0, []) else inited

  -- RTE_ETH_FOREACH_DEV over the ports: the first that fails, and the calls.
  unfoldable pub init_ports : List ℕ → Outcome × List Made
  init_ports [] = (forwarding, [])
  init_ports (port ∷ ports) =
      let first = port_init port in
      let rest = init_ports ports in
      if not (is_zero first.0) then (cannot_init port, first.1) else (rest.0, first.1 ++ rest.1)

  -- What `rte_eal_init` returns, the available ports, and whether the pool of buffers was made.
  unfoldable pub main : ℤ → List ℕ → Bool → Outcome × List Made
  main ret ports pool =
      let inits = init_ports ports in
      if is_negative ret
      then (eal_error, [])
      else if ltb (length ports) 1
      then (no_ports, [])
      else if not pool
      then (no_mempool, [])
      else inits
