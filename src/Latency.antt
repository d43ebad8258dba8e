-- ===== src/Latency.antt =====
-- client_server/msg_hdr/src/client.c: the latency of the answers of the server. Times are longs, and an overflow of one is `none`; the
-- counters have 64 bits.
pub mod Diff
pub mod Reads
mod Tests
use diversity.Prelude.Int.{ℤ, pos, negsuc, pos_part, neg_part, sub_ℕ, ◌+ℤ◌, ◌-ℤ◌, ltb_ℤ}
use diversity.Prelude.Int.{as_long}
use diversity.Prelude.{ℕ, ◌+◌, ◌-◌, ◌*◌, ◌%◌, ◌^◌, Bool, Option, some, if◌then◌else◌, ◌>>=◌}

abbrev pub ns_per_s : ℕ
ns_per_s = 1000000000

-- `struct timespec`
pub record Timespec : Type 0 where
  pub tv_sec : ℤ
  pub tv_nsec : ℤ

-- The two ways to subtract, where no long overflows.
abbrev pub borrow : Timespec → Timespec → Option Timespec
borrow end start = do
  nsec ← as_long (pos ns_per_s +ℤ end.tv_nsec)
  nsec' ← as_long (nsec -ℤ start.tv_nsec)
  sec ← as_long (end.tv_sec -ℤ start.tv_sec)
  sec' ← as_long (sec -ℤ pos 1)
  some record { tv_sec = sec'; tv_nsec = nsec' }

abbrev pub subtract : Timespec → Timespec → Option Timespec
subtract end start = do
  nsec ← as_long (end.tv_nsec -ℤ start.tv_nsec)
  sec ← as_long (end.tv_sec -ℤ start.tv_sec)
  some record { tv_sec = sec; tv_nsec = nsec }

-- The result, and the returned flag; `none` if a long overflows.
unfoldable pub timespec_diff : Timespec → Timespec → Option (Timespec × Bool)
timespec_diff end start = do
  result ← if ltb_ℤ end.tv_nsec start.tv_nsec then borrow end start else subtract end start
  some (result, ltb_ℤ end.tv_sec start.tv_sec)

-- `stat`
pub record Stat : Type 0 where
  pub nb_packets : ℕ
  pub latency : ℕ

-- A signed value in 64 bits
abbrev pub wrapped : ℤ → ℕ
wrapped (pos n) = n % 2 ^ 64
wrapped (negsuc n) = 2 ^ 64 - 1 - n % 2 ^ 64

abbrev pub nanoseconds : Timespec → Option ℤ
nanoseconds t = do
  sec ← as_long (sub_ℕ (pos_part t.tv_sec * ns_per_s) (neg_part t.tv_sec * ns_per_s))
  as_long (sec +ℤ t.tv_nsec)

abbrev pub with_answer : Timespec × Bool → Stat → Option Stat
with_answer (result, negative) s =
    let added = do
      ns ← nanoseconds result
      some record {
        nb_packets = (s.nb_packets + 1) % 2 ^ 64;
        latency = (s.latency + wrapped ns) % 2 ^ 64;
      }
    in if negative then some s else added

-- An answer with the time that it carries, and the time when it came.
unfoldable pub on_read : Timespec → Timespec → Stat → Option Stat
on_read start end s = do diff ← timespec_diff end start; with_answer diff s

-- The latency and the number of packets of the printed quotient, and the reset.
unfoldable pub on_perf : Stat → (ℕ × ℕ) × Stat
on_perf s = ((s.latency, s.nb_packets), record { nb_packets = 0; latency = 0 })
