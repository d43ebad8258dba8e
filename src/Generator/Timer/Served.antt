-- ===== src/Generator/Timer/Served.antt =====
-- How often the timers are managed.
use diversity.Prelude.{
  ℕ, ◌+◌, ◌^◌, ◌≤◌, ◌<◌, ◌≡◌, sym, subst, ◌⊎◌, inl, inr, false, List, [], ◌∷◌, arith, ltb, ltb→lt,
  Bool-cases,
}
use diversity.Generator.Timer.{resolution, lcore_mainloop}

-- Readings from `low` on that do not go back, nor pass the bound of the counter.
abbrev pub Rising : ℕ → List ℕ → Type 0
Rising low [] = Unit
Rising low (t ∷ ts) = (low ≤ t) × (t < 2 ^ 64) × Rising t ts

-- More than the resolution lies between each call and the next.
abbrev pub Spaced : ℕ → List ℕ → Type 0
Spaced prev [] = Unit
Spaced prev (t ∷ ts) = (prev + resolution < t) × Spaced t ts

-- A call stands at the reading, or before it and no further than the resolution.
abbrev pub Recent : List ℕ → ℕ → Type 0
Recent [] t = ⊥
Recent (m ∷ ms) t = ((m ≤ t) × (t ≤ m + resolution)) ⊎ Recent ms t

abbrev pub Served : List ℕ → List ℕ → Type 0
Served ms [] = Unit
Served ms (t ∷ ts) = Recent ms t × Served ms ts

Served-after : (m : ℕ) (ms ts : List ℕ) → Served ms ts → Served (m ∷ ms) ts
Served-after m ms [] s = tt
Served-after m ms (t ∷ ts) s = (inr s.0, Served-after m ms ts s.1)

managed :
    (prev cur : ℕ) (ts : List ℕ)
    → prev ≤ cur
    → cur < 2 ^ 64
    → prev + resolution < cur
    → lcore_mainloop prev (cur ∷ ts) ≡ cur ∷ lcore_mainloop cur ts
unfolding lcore_mainloop
managed prev cur ts l b d = ground arith

waited :
    (prev cur : ℕ) (ts : List ℕ)
    → prev ≤ cur
    → cur < 2 ^ 64
    → cur ≤ prev + resolution
    → lcore_mainloop prev (cur ∷ ts) ≡ lcore_mainloop prev ts
unfolding lcore_mainloop
waited prev cur ts l b d = ground arith

not_before : (a b : ℕ) → ltb a b ≡ false → b ≤ a
not_before a b e = ground arith

from_last :
    (prev low : ℕ) (readings : List ℕ)
    → prev ≤ low
    → Rising low readings
    → Spaced prev (lcore_mainloop prev readings)
      × Served (prev ∷ lcore_mainloop prev readings) readings
unfolding lcore_mainloop
from_last prev low [] l r = (tt, tt)
from_last prev low (cur ∷ ts) l r =
    let motive = λ (ms : List ℕ). Spaced prev ms × Served (prev ∷ ms) (cur ∷ ts) in
    elim (Bool-cases (ltb (prev + resolution) cur)) [
      | inl e ↦
          let d = ltb→lt (prev + resolution) cur e in
          let later = from_last cur cur ts (omega arith) r.2 in
          let calls = cur ∷ lcore_mainloop cur ts in
          subst motive (sym (managed prev cur ts (omega (arith, r.0)) r.1 d)) (
            (d, later.0),
            (inr (inl (omega arith, omega arith)), Served-after prev calls ts later.1),
          )
      | inr e ↦
          let d = not_before (prev + resolution) cur e in
          let later = from_last prev cur ts (omega (arith, r.0)) r.2 in
          subst motive (sym (waited prev cur ts (omega (arith, r.0)) r.1 d))
            (later.0, (inl (omega (arith, r.0), d), later.1))
    ]

-- Over readings that do not go back: the timers are managed again only after more than the resolution, and at
-- each reading the last time they were managed, or the start, is no further back than the resolution.
pub lcore_mainloop-Served :
    (readings : List ℕ)
    → Rising 0 readings
    → Spaced 0 (lcore_mainloop 0 readings) × Served (0 ∷ lcore_mainloop 0 readings) readings
lcore_mainloop-Served readings r = from_last 0 0 readings (omega arith) r
