-- ===== src/Trees/Levels.antt =====
-- binaryTree/traversal.cpp: the root_values by levels. A line is ended by `line_end`.
pub mod Forest
pub mod Top
pub mod Zigzag
use diversity.Prelude.Int.{ℤ}
use diversity.Prelude.{
  ℕ, zero, suc, ◌+◌, ◌-◌, Bool, true, not, Option, none, some, List, [], ◌∷◌, ◌++◌, ◌==◌,
  if◌then◌else◌, ◌>>=◌, length,
}
use diversity.Trees.{Tree, leaf, node}

pub data Printed : Type 0 where
  shown : ℤ → Printed
  line_end : Printed

abbrev pub size : Tree → ℕ
size leaf = 0
size (node l x r) = suc (size l + size r)

-- The children that are child_nodes, the left one first.
abbrev pub child_nodes : Tree → Tree → List Tree
child_nodes leaf leaf = []
child_nodes (node a x b) leaf = node a x b ∷ []
child_nodes leaf (node c y d) = node c y d ∷ []
child_nodes (node a x b) (node c y d) = node a x b ∷ node c y d ∷ []

-- The loop of `printTopToBottom`. The front of the queue is the head of the list; the fuel bounds the turns.
unfoldable pub top_loop : ℕ → List Tree → ℕ → ℕ → Option (List Printed)
top_loop fuel [] to_be_printed next_level = some []
top_loop zero (t ∷ queue) to_be_printed next_level = none
top_loop (suc fuel) (leaf ∷ queue) to_be_printed next_level = none
top_loop (suc fuel) (node l x r ∷ queue) to_be_printed next_level =
    let queue' = queue ++ child_nodes l r in
    let next = next_level + length (child_nodes l r) in
    let ended = top_loop fuel queue' next 0 in
    let going = top_loop fuel queue' (to_be_printed - 1) next in
    if to_be_printed - 1 == 0
    then (ended >>= λ out. some (shown x ∷ line_end ∷ out))
    else (going >>= λ out. some (shown x ∷ out))

unfoldable pub print_top_to_bottom : Tree → Option (List Printed)
print_top_to_bottom leaf = some []
print_top_to_bottom (node l x r) = top_loop (size (node l x r)) (node l x r ∷ []) 1 0

-- The loop of `printZigZag` on the stack that is popped and the one that is pushed on, the top first;
-- `first` says that `current` is 0.
unfoldable pub zigzag_loop : ℕ → List Tree → List Tree → Bool → Option (List Printed)
zigzag_loop fuel [] [] first = some []
zigzag_loop fuel [] (t ∷ next) first = none
zigzag_loop zero (t ∷ current) next first = none
zigzag_loop (suc fuel) (leaf ∷ current) next first = none
zigzag_loop (suc fuel) (node l x r ∷ []) next first =
    let next' = (if first then child_nodes r l else child_nodes l r) ++ next in
    let ended = zigzag_loop fuel next' [] (not first) in
    ended >>= λ out. some (shown x ∷ line_end ∷ out)
zigzag_loop (suc fuel) (node l x r ∷ t ∷ current) next first =
    let next' = (if first then child_nodes r l else child_nodes l r) ++ next in
    let going = zigzag_loop fuel (t ∷ current) next' first in going >>= λ out. some (shown x ∷ out)

unfoldable pub print_zig_zag : Tree → Option (List Printed)
print_zig_zag leaf = some []
print_zig_zag (node l x r) = zigzag_loop (size (node l x r)) (node l x r ∷ []) [] true
