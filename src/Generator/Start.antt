-- ===== src/Generator/Start.antt =====
-- dpdk/gen_packet/main.c: `port_init`, `main` up to the launch of the other cores, the handler of signals and the loop of
-- `lcore_main`, which frees what is received. A port has one ring of each kind.
pub mod Quit
use diversity.Prelude.Int.{ℤ, negsuc, pos}
use diversity.Prelude.{
  ℕ, Bool, true, false, ◌||◌, not, none, List, [], ◌∷◌, ◌++◌, ltb, ◌==◌, if◌then◌else◌,
}
use diversity.Dpdk.{
  EthDev, Made, configured, rx_queue, tx_queue, started, promiscuous, is_zero, is_negative, Inited,
  attempt,
}

-- How the program ends, or the cores that run the timers and the generator.
pub data Outcome : Type 0 where
  eal_error : Outcome
  no_mempool : Outcome
  cannot_init : ℕ → Outcome
  launched : ℕ → ℕ → Outcome

module _ (dev : EthDev) (count : ℕ) where
  -- The two queues, of 128 and 512 descriptors, and the start
  unfoldable pub setup_queues : ℕ → Inited
  setup_queues port =
      let rx = dev.rx_queue_setup port in
      let tx = dev.tx_queue_setup port in
      let starting = dev.start port in
      attempt (is_negative rx) rx (rx_queue port 128) (
        attempt (is_negative tx) tx (tx_queue port 512 false) (
          attempt (is_negative starting) starting (started port)
            (pos 0, (promiscuous port, none) ∷ [])))

  unfoldable pub port_init : ℕ → Inited
  port_init port =
      let retval = dev.configure port in
      let inited =
        attempt (not (is_zero retval)) retval (configured port false) (setup_queues port) in
      if ltb port count then inited else (negsuc 0, [])

  -- What `rte_eal_init` returns, whether the pool was made, the core of the caller, and `rte_get_next_lcore`, which
  -- comes back to the first core after the last.
  unfoldable pub main : ℤ → Bool → ℕ → (ℕ → ℕ) → Outcome × List Made
  main ret pool master_core next_lcore =
      let inited = port_init 0 in
      let timer_core = next_lcore master_core in
      if is_negative ret
      then (eal_error, [])
      else if not pool
      then (no_mempool, [])
      else if not (is_zero inited.0)
      then (cannot_init 0, inited.1)
      else (launched timer_core (next_lcore timer_core), inited.1)

abbrev pub sigint : ℕ
sigint = 2

abbrev pub sigterm : ℕ
sigterm = 15

-- `force_quit` after a signal
unfoldable pub signal_handler : ℕ → Bool → Bool
signal_handler signum force_quit =
    if signum == sigint || signum == sigterm then true else force_quit

-- What happens to the loop: a signal, or a pass in which it receives buffers.
pub data Event : Type 0 where
  signal : ℕ → Event
  pass : List ℕ → Event

-- The buffers that are freed, in their order, and the events that are left when the loop ends, if it does.
unfoldable pub lcore_main : Bool → List Event → List ℕ × List Event
lcore_main force_quit [] = ([], [])
lcore_main force_quit (signal signum ∷ events) =
    lcore_main (signal_handler signum force_quit) events
lcore_main force_quit (pass bufs ∷ events) =
    let rest = lcore_main force_quit events in
    if force_quit then ([], pass bufs ∷ events) else (bufs ++ rest.0, rest.1)
