-- ===== src/Net/Result.antt =====
-- What a call of net.c gives: its result, or the reason of the abort.
use diversity.Prelude.Int.{ℤ}
use diversity.Prelude.{Bytes}

pub data Reason : Type 0 where
  no_port no_socket no_reuseaddr no_bind no_connect undefined no_getsockopt usage : Reason
  invalid_port : ℤ → Reason
  no_address : Bytes → Reason

pub data Result (A : Type 0) : Type 0 where
  ok : A → Result A
  abort : Reason → Result A

infixl 5 ◌>>=◌
abbrev pub ◌>>=◌ : {A B : Type 0} → Result A → (A → Result B) → Result B
ok a >>= f = f a
abort r >>= f = abort r
