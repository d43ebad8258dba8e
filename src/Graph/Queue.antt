-- ===== src/Graph/Queue.antt =====
-- `Queue` of c++/src/graph.cpp: the front is at index 0, and a removal moves the others up; an access
-- outside the array is `none`. `count` is `tail + 1`.
pub mod Contents
use diversity.Prelude.Int.{ℤ}
use diversity.Prelude.Int.{negsuc}
use diversity.Prelude.Arrays.{read, write}
use diversity.Prelude.{
  ℕ, zero, suc, ◌+◌, ◌-◌, ◌≤◌, ◌≡◌, Bool, Option, some, List, ◌==◌, if◌then◌else◌, ◌>>=◌, length,
  get_elem?, take,
}

pub record Queue : Type 0 where
  pub count : ℕ
  pub capacity : ℕ
  pub cells : List ℤ

-- `cells` is what the array that is allocated holds.
unfoldable pub new_queue : ℕ → List ℤ → Queue
new_queue cap cells = record { count = 0; capacity = cap; cells = cells }

unfoldable pub is_full : Queue → Bool
is_full q = q.count == q.capacity

unfoldable pub is_empty : Queue → Bool
is_empty q = q.count == 0

-- On a full queue it only prints.
unfoldable pub enqueue : ℤ → Queue → Option Queue
enqueue value q =
    let added = do
      cells ← write q.cells q.count value
      some record q { cells = cells; count = q.count + 1 }
    in if is_full q then some q else added

-- The loop from `i` on, with `k` turns left.
unfoldable pub move_up : ℕ → ℕ → List ℤ → Option (List ℤ)
move_up zero i cells = some cells
move_up (suc k) i cells = do
  next ← read cells (i + 1)
  moved ← write cells i next
  move_up k (i + 1) moved

-- What is returned, and the queue; -1 when it is empty.
unfoldable pub dequeue : Queue → Option (ℤ × Queue)
dequeue q =
    let removed = do
      value ← read q.cells 0
      cells ← move_up (q.count - 1) 0 q.cells
      some (value, record q { cells = cells; count = q.count - 1 })
    in if is_empty q then some (negsuc 0, q) else removed

unfoldable pub peek : Queue → Option ℤ
peek q = get_elem? q.cells 0

abbrev pub IsQueue : Queue → Type 0
IsQueue q = q.count ≤ q.capacity × (length q.cells ≡ q.capacity)

-- The elements, the front first.
abbrev pub contents : Queue → List ℤ
contents q = take q.count q.cells
