-- ===== src/Trees/Levels/Top.antt =====
-- `printTopToBottom` prints one level after the other.
use diversity.Prelude.Int.{ℤ}
use diversity.Trees.Levels.Forest.{weight-append}
use diversity.Trees.Levels.{print_top_to_bottom}
use diversity.Trees.Levels.Forest.{levels, weight-child_nodes}
use diversity.Trees.Levels.{size}
use diversity.Trees.Levels.Forest.{forest_levels-single}
use diversity.Prelude.{
  ℕ, zero, suc, ◌+◌, ◌-◌, ◌≤◌, ◌<◌, ◌≡◌, refl, sym, ap, ◌∙◌, false, some, List, [], ◌∷◌, ◌++◌, map,
  append-nil, append_assoc, arith, ◌==◌, length, length-append,
}
use diversity.Trees.{Tree, leaf, node}
use diversity.Trees.Levels.{Printed, shown, line_end, child_nodes, top_loop}
use diversity.Trees.Levels.Forest.{
  forest_levels, AreNodes, root_values, children, weight, AreNodes-append, AreNodes-child_nodes,
  forest_levels-children,
}

abbrev pub lines : List (List ℤ) → List Printed
lines [] = []
lines (l ∷ ls) = map shown l ++ line_end ∷ lines ls

top_loop_end :
    (fuel : ℕ) (l r : Tree) (x : ℤ) (queue : List Tree) (next : ℕ) (out : List Printed)
    → top_loop fuel (queue ++ child_nodes l r) (next + length (child_nodes l r)) 0 ≡ some out
    → top_loop (suc fuel) (node l x r ∷ queue) 1 next ≡ some (shown x ∷ line_end ∷ out)
unfolding top_loop
top_loop_end fuel l r x queue next out e = rw e refl

less_one : (k : ℕ) → suc k - 1 ≡ k
less_one k = omega arith

not_zero : (k : ℕ) → 0 < k → (k == 0) ≡ false
not_zero k p = ground arith

top_loop_next :
    (fuel : ℕ) (l r : Tree) (x : ℤ) (queue : List Tree) (k next : ℕ) (out : List Printed)
    → 0 < k
    → top_loop fuel (queue ++ child_nodes l r) k (next + length (child_nodes l r)) ≡ some out
    → top_loop (suc fuel) (node l x r ∷ queue) (suc k) next ≡ some (shown x ∷ out)
unfolding top_loop
top_loop_next fuel l r x (queue) k next out p e = rw (less_one k, not_zero k p, e) refl

-- What the loop prints when `current` waits on the level that is printed, and `next` on the level below it.
abbrev Prints : ℕ → List Tree → List Tree → Type 0
Prints fuel current next =
    top_loop fuel (current ++ next) (length current) (length next)
    ≡ some (
        map shown (root_values current)
        ++ line_end ∷ lines (forest_levels (next ++ children current)))

-- At the end of a line `queue` is the next level.
level-Prints :
    (fuel : ℕ) (queue : List Tree)
    → AreNodes queue
    → (0 < length queue → Prints fuel queue [])
    → top_loop fuel queue (length queue) 0 ≡ some (lines (forest_levels queue))
unfolding top_loop
level-Prints zero [] n h = refl
level-Prints (suc fuel) [] n h = refl
level-Prints fuel (t ∷ queue) n h =
    ap (λ q. top_loop fuel q (length (t ∷ queue)) 0) (sym (append-nil (t ∷ queue)))
    ∙ h (omega arith)
    ∙ ap (λ ls. some (lines ls)) (sym (forest_levels-children t queue n))

module _ (fuel : ℕ) (l r : Tree) (x : ℤ) (next : List Tree) where
  queue_length : length next + length (child_nodes l r) ≡ length (next ++ child_nodes l r)
  queue_length = sym (length-append {0} next (child_nodes l r))

  last-Prints :
      top_loop fuel (next ++ child_nodes l r) (length (next ++ child_nodes l r)) 0
        ≡ some (lines (forest_levels (next ++ child_nodes l r)))
      → Prints (suc fuel) (node l x r ∷ []) next
  last-Prints e =
      top_loop_end fuel l r x next (length next) (lines (forest_levels (next ++ child_nodes l r)))
        (ap (λ k. top_loop fuel (next ++ child_nodes l r) k 0) queue_length ∙ e)
      ∙ ap (λ c. some (shown x ∷ line_end ∷ lines (forest_levels (next ++ c))))
          (sym (append-nil (child_nodes l r)))

  next-Prints :
      (t : Tree) (current : List Tree)
      → Prints fuel (t ∷ current) (next ++ child_nodes l r)
      → Prints (suc fuel) (node l x r ∷ t ∷ current) next
  next-Prints t current e =
      let out =
        map shown (root_values (t ∷ current))
        ++ line_end ∷ lines (forest_levels ((next ++ child_nodes l r) ++ children (t ∷ current))) in
      top_loop_next fuel l r x (t ∷ current ++ next) (length (t ∷ current)) (length next) out
        (omega arith)
        (ap (λ k. top_loop fuel ((t ∷ current ++ next) ++ child_nodes l r) (length (t ∷ current)) k)
            queue_length
          ∙ ap (λ q. top_loop fuel q (length (t ∷ current)) (length (next ++ child_nodes l r)))
              (append_assoc (t ∷ current) next (child_nodes l r))
          ∙ e)
      ∙ ap
          (λ f. some (
            shown x
            ∷ (map shown (root_values (t ∷ current)) ++ line_end ∷ lines (forest_levels f))))
          (append_assoc next (child_nodes l r) (children (t ∷ current)))

prints :
    (fuel : ℕ) (current next : List Tree)
    → AreNodes current
    → AreNodes next
    → 0 < length current
    → weight current + weight next ≤ fuel
    → Prints fuel current next
prints fuel [] next n m p w = absurd (omega (arith, p))
prints fuel (leaf ∷ current) next n m p w = absurd n
prints zero (node l x r ∷ current) next n m p w = absurd (omega (arith, w))
prints (suc fuel) (node l x r ∷ []) next n m p w =
    let nodes = AreNodes-append next (child_nodes l r) m (AreNodes-child_nodes l r) in
    last-Prints fuel l r x next (
      level-Prints fuel (next ++ child_nodes l r) nodes (λ q.
        prints fuel (next ++ child_nodes l r) [] nodes tt q
          (omega (arith, w, weight-append next (child_nodes l r), weight-child_nodes l r))))
prints (suc fuel) (node l x r ∷ t ∷ current) next n m p w = next-Prints fuel l r x next t current (
    prints fuel (t ∷ current) (next ++ child_nodes l r) n
      (AreNodes-append next (child_nodes l r) m (AreNodes-child_nodes l r)) (omega arith)
      (omega (arith, w, weight-append next (child_nodes l r), weight-child_nodes l r)))

-- printTopToBottom takes a turn for each node and prints the levels of the tree, from the root down: the root_values of each
-- from left to right, on a line of its own.
pub print_top_to_bottom-lines : (t : Tree) → print_top_to_bottom t ≡ some (lines (levels t))
unfolding print_top_to_bottom
print_top_to_bottom-lines leaf = refl
print_top_to_bottom-lines (node l x r) =
    prints (size (node l x r)) (node l x r ∷ []) [] tt tt (omega arith) (omega arith)
    ∙ ap (λ ls. some (lines ls))
        (sym (forest_levels-children (node l x r) [] tt) ∙ forest_levels-single (node l x r))
