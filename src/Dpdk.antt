-- ===== src/Dpdk.antt =====
-- The calls of DPDK's driver library that set up a port, and what the programs do with their results. The driver is a
-- parameter: what each of its functions returns for a port.
use diversity.Prelude.{
  ℕ, zero, suc, ◌≡◌, refl, sym, Bool, true, false, not, Option, some, List, [], ◌∷◌, if◌then◌else◌,
}
use diversity.Prelude.Int.{ℤ, pos, negsuc}

pub record EthDev : Type 0 where
  -- `rte_eth_dev_is_valid_port`
  pub is_valid_port : ℕ → Bool
  -- whether the device offers DEV_TX_OFFLOAD_MBUF_FAST_FREE
  pub has_fast_free : ℕ → Bool
  pub configure : ℕ → ℤ
  -- the result, and the numbers of descriptors, which it may change
  pub adjust_nb_rx_tx_desc : ℕ → ℕ → ℕ → ℤ × ℕ × ℕ
  pub rx_queue_setup : ℕ → ℤ
  pub tx_queue_setup : ℕ → ℤ
  pub start : ℕ → ℤ

-- The calls that change a device: with the offload or not, with a number of descriptors.
pub data Call : Type 0 where
  configured : ℕ → Bool → Call
  adjusted : ℕ → Call
  rx_queue : ℕ → ℕ → Call
  tx_queue : ℕ → ℕ → Bool → Call
  started : ℕ → Call
  promiscuous : ℕ → Call

abbrev pub is_zero : ℤ → Bool
is_zero (pos zero) = true
is_zero (pos (suc n)) = false
is_zero (negsuc n) = false

abbrev pub is_negative : ℤ → Bool
is_negative (pos n) = false
is_negative (negsuc n) = true

-- A call with what it returned; `rte_eth_promiscuous_enable` returns nothing.
abbrev pub Made : Type 0
Made = Call × Option ℤ

-- What a function returns, and the calls it made.
abbrev pub Inited : Type 0
Inited = ℤ × List Made

-- A call whose result is returned at once if it is a failure.
unfoldable pub attempt : Bool → ℤ → Call → Inited → Inited
attempt failed retval call rest =
    let made : Made = (call, some retval) in
    if failed then (retval, made ∷ []) else (rest.0, made ∷ rest.1)

-- A function that returns 0 made the call, which did not fail, and went on.
pub attempt-is_zero :
    (failed : Bool) (retval : ℤ) (call : Call) (rest : Inited)
    → (failed ≡ true → is_zero retval ≡ false)
    → is_zero (attempt failed retval call rest).0 ≡ true
    → (failed ≡ false)
      × (is_zero rest.0 ≡ true)
      × ((attempt failed retval call rest).1 ≡ (call, some retval) ∷ rest.1)
unfolding attempt
attempt-is_zero false retval call rest h e = (refl, e, refl)
attempt-is_zero true retval call rest h e = absurd (cc (e, h refl))

-- The two tests of a result
pub not_zero : (r : ℤ) → not (is_zero r) ≡ true → is_zero r ≡ false
not_zero (pos zero) e = sym e
not_zero (pos (suc n)) e = refl
not_zero (negsuc n) e = refl

pub negative : (r : ℤ) → is_negative r ≡ true → is_zero r ≡ false
negative (pos n) e = absurd (cc e)
negative (negsuc n) e = refl

pub was_zero : (r : ℤ) → not (is_zero r) ≡ false → is_zero r ≡ true
was_zero (pos zero) e = refl
was_zero (pos (suc n)) e = absurd (cc e)
was_zero (negsuc n) e = absurd (cc e)
