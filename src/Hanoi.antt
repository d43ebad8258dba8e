-- ===== src/Hanoi.antt =====
-- c++/src/hanoi_tower.cpp on the stacks of stack.cpp. A line `Move ..` that is printed is a move; what `display`
-- prints of the stacks is left out. The three references are to different stacks.
pub mod Puzzle
pub mod Solve
mod Tests
use diversity.Prelude.Int.{pos, ℤ}
use diversity.Prelude.{ℕ, zero, suc, Option, some, List, [], ◌∷◌, ◌++◌, ◌>>=◌}
use diversity.Stacks.{Stack, new_stack, push, pop}

pub record Move : Type 0 where
  pub disk : ℤ
  pub from : ℕ
  pub to : ℕ

abbrev pub Moved : Type 0
Moved = Stack × Stack × Stack × List Move

-- The stacks `src`, `dest` and `aux` after the call, and the moves; `none` is an access outside an array.
unfoldable pub move_disk : ℕ → Stack → Stack → Stack → Option Moved
move_disk zero src dest aux = do
  (value, src') ← pop src
  dest' ← push value dest
  some (src', dest', aux, record { disk = value; from = src.id; to = dest.id } ∷ [])
move_disk (suc n) src dest aux = do
  (src1, aux1, dest1, first) ← move_disk n src aux dest
  (value, src2) ← pop src1
  dest2 ← push value dest1
  (aux3, dest3, src3, last) ← move_disk n aux1 dest2 src2
  some (
    src3,
    dest3,
    aux3,
    first ++ record { disk = pos (suc n); from = src2.id; to = dest2.id } ∷ last,
  )

-- The stacks of `main`, with what their arrays hold when they are allocated.
unfoldable pub main : List ℤ → List ℤ → List ℤ → Option Moved
main c1 c2 c3 = do
  s4 ← push (pos 4) (new_stack 5 c1 1)
  s3 ← push (pos 3) s4
  s2 ← push (pos 2) s3
  s1 ← push (pos 1) s2
  filled ← push (pos 0) s1
  move_disk 4 filled (new_stack 5 c2 2) (new_stack 5 c3 3)
