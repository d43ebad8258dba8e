-- ===== src/Generator/Timer.antt =====
-- dpdk/gen_packet/main.c: the loop that manages the timers, and the report that a timer calls.
pub mod Served
pub mod Lost
use diversity.Prelude.{ℕ, ◌+◌, ◌-◌, ◌%◌, ◌^◌, List, [], ◌∷◌, ◌++◌, ltb, if◌then◌else◌}

-- TIMER_RESOLUTION_CYCLES
abbrev pub resolution : ℕ
resolution = 20000000

-- Over the readings of the cycle counter, of 64 bits: those at which `rte_timer_manage` is called.
unfoldable pub lcore_mainloop : ℕ → List ℕ → List ℕ
lcore_mainloop prev_tsc [] = []
lcore_mainloop prev_tsc (cur_tsc ∷ readings) =
    let diff_tsc = (cur_tsc + (2 ^ 64 - prev_tsc)) % 2 ^ 64 in
    let managed = cur_tsc ∷ lcore_mainloop cur_tsc readings in
    let waited = lcore_mainloop prev_tsc readings in
    if ltb resolution diff_tsc then managed else waited

-- The counter of sent packets, of 32 bits, and what was printed.
pub record Report : Type 0 where
  pub counter : ℕ
  pub printed : List ℕ

-- `rte_atomic32_add` on another core
unfoldable pub add_sent : List ℕ → Report → Report
add_sent [] r = r
add_sent (nb_tx ∷ more) r = add_sent more record r { counter = (r.counter + nb_tx) % 2 ^ 32 }

-- `between` are the additions of another core after the counter is read and before it is set to 0.
unfoldable pub report_stat : List ℕ → Report → Report
report_stat between r =
    let read = record r { printed = r.printed ++ r.counter ∷ [] } in
    record (add_sent between read) { counter = 0 }

-- For each call of the report, what is added before it, and what while it runs.
unfoldable pub reports : List (List ℕ × List ℕ) → Report → Report
reports [] r = r
reports ((before, between) ∷ calls) r = reports calls (report_stat between (add_sent before r))
