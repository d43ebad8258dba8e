-- ===== src/Serial/Times.antt =====
-- The times in the messages: the readings of the clock have fields in the range of a long.
use diversity.Prelude.{sym, ap, subst, arith}
use diversity.Latency.{Timespec}
use diversity.Latency.Diff.{IsReading}
use diversity.Serial.Wire.{IsLong}

pub IsReading-IsLong : (t : Timespec) → IsReading t → IsLong t.tv_sec × IsLong t.tv_nsec
IsReading-IsLong t (e, s, n) = (
  subst IsLong (ap (λ (u : Timespec). u.tv_sec) (sym e)) s,
  subst IsLong (ap (λ (u : Timespec). u.tv_nsec) (sym e)) (omega (arith, n)),
)
