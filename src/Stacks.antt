-- ===== src/Stacks.antt =====
-- c++/src/stack.cpp: a stack of ints in an array; an access outside it is `none`. `count` is `top + 1`, the number of elements.
pub mod Contents
use diversity.Prelude.Int.{ℤ}
use diversity.Prelude.Int.{negsuc}
use diversity.Prelude.Arrays.{read, write}
use diversity.Prelude.{
  ℕ, ◌+◌, ◌-◌, Bool, Option, none, some, List, ◌==◌, if◌then◌else◌, ◌>>=◌, get_elem?,
}

pub record Stack : Type 0 where
  pub count : ℕ
  pub capacity : ℕ
  pub cells : List ℤ
  pub id : ℕ

-- `cells` is what the array that is allocated holds.
unfoldable pub new_stack : ℕ → List ℤ → ℕ → Stack
new_stack cap cells stack_id = record { count = 0; capacity = cap; cells = cells; id = stack_id }

unfoldable pub is_empty : Stack → Bool
is_empty s = s.count == 0

-- On a full stack it only prints.
unfoldable pub push : ℤ → Stack → Option Stack
push value s =
    let pushed = do
      cells ← write s.cells s.count value
      some record s { count = s.count + 1; cells = cells }
    in if s.count == s.capacity then some s else pushed

-- What is returned, and the stack; -1 when it is empty.
unfoldable pub pop : Stack → Option (ℤ × Stack)
pop s =
    let popped = do
      value ← read s.cells (s.count - 1)
      some (value, record s { count = s.count - 1 })
    in if s.count == 0 then some (negsuc 0, s) else popped

-- On an empty stack it reads before the array.
unfoldable pub peek : Stack → Option ℤ
peek s = if s.count == 0 then none else get_elem? s.cells (s.count - 1)
