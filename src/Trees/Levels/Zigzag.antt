-- ===== src/Trees/Levels/Zigzag.antt =====
-- `printZigZag` prints one level after the other, each in the other direction.
use diversity.Prelude.Int.{ℤ}
use diversity.Trees.Levels.{print_zig_zag}
use diversity.Trees.Levels.Forest.{forest_levels-children}
use diversity.Trees.Levels.Forest.{levels}
use diversity.Trees.Levels.Forest.{forest_levels-single}
use diversity.Prelude.{
  ℕ, zero, suc, ◌+◌, ◌≤◌, ◌<◌, ◌≡◌, refl, sym, ap, ◌∙◌, Bool, true, false, not, some, List, [], ◌∷◌,
  ◌++◌, map, append-nil, append_assoc, arith, if◌then◌else◌, length, length-append,
}
use diversity.Trees.{Tree, leaf, node}
use diversity.Trees.Levels.{Printed, shown, line_end, size, child_nodes, zigzag_loop}
use diversity.Trees.Levels.Forest.{
  forest_levels, AreNodes, root_values, children, weight, weight-append, weight-child_nodes,
  AreNodes-append, AreNodes-child_nodes,
}

abbrev pub reversed {ℓ} : {A : Type ℓ} → List A → List A
reversed [] = []
reversed (x ∷ xs) = reversed xs ++ x ∷ []

reversed-append {ℓ} :
    {A : Type ℓ} (xs ys : List A) → reversed (xs ++ ys) ≡ reversed ys ++ reversed xs
reversed-append [] ys = sym (append-nil (reversed ys))
reversed-append (x ∷ xs) ys =
    ap (λ l. l ++ x ∷ []) (reversed-append xs ys)
    ∙ append_assoc (reversed ys) (reversed xs) (x ∷ [])

-- The lines, the first from left to right or the other way.
abbrev pub turns : Bool → List (List ℤ) → List Printed
turns first [] = []
turns true (l ∷ ls) = map shown l ++ line_end ∷ turns false ls
turns false (l ∷ ls) = map shown (reversed l) ++ line_end ∷ turns true ls

-- A stack whose top is the last tree of the level has it reversed.
abbrev in_order : Bool → List Tree → List Tree
in_order true ts = ts
in_order false ts = reversed ts

-- The children child_nodes on `next`.
abbrev push : Bool → Tree → Tree → List Tree → List Tree
push first l r next = (if first then child_nodes r l else child_nodes l r) ++ next

zigzag_end :
    (fuel : ℕ) (l r : Tree) (x : ℤ) (next : List Tree) (first : Bool) (out : List Printed)
    → zigzag_loop fuel (push first l r next) [] (not first) ≡ some out
    → zigzag_loop (suc fuel) (node l x r ∷ []) next first ≡ some (shown x ∷ line_end ∷ out)
unfolding zigzag_loop
zigzag_end fuel l r x next first out e = rw e refl

zigzag_next :
    (fuel : ℕ) (l r t : Tree) (x : ℤ) (current next : List Tree) (first : Bool) (out : List Printed)
    → zigzag_loop fuel (t ∷ current) (push first l r next) first ≡ some out
    → zigzag_loop (suc fuel) (node l x r ∷ t ∷ current) next first ≡ some (shown x ∷ out)
unfolding zigzag_loop
zigzag_next fuel l r t x current next first out e = rw e refl

-- The next level, from left to right, once `current` is done.
abbrev below : Bool → List Tree → List Tree → List Tree
below true current next = reversed next ++ children current
below false current next = children (reversed current) ++ next

children-append : (ts us : List Tree) → children (ts ++ us) ≡ children ts ++ children us
children-append [] us = refl
children-append (leaf ∷ ts) us = children-append ts us
children-append (node l x r ∷ ts) us =
    ap (◌++◌ (child_nodes l r)) (children-append ts us)
    ∙ sym (append_assoc (child_nodes l r) (children ts) (children us))

reversed-child_nodes : (l r : Tree) → reversed (child_nodes r l) ≡ child_nodes l r
reversed-child_nodes leaf leaf = refl
reversed-child_nodes (node a x b) leaf = refl
reversed-child_nodes leaf (node c y d) = refl
reversed-child_nodes (node a x b) (node c y d) = refl

-- Passing a tree on does not change it.
below-push :
    (first : Bool) (l r : Tree) (x : ℤ) (current next : List Tree)
    → below first current (push first l r next) ≡ below first (node l x r ∷ current) next
below-push true l r x current next =
    ap (λ q. q ++ children current)
      (reversed-append (child_nodes r l) next
        ∙ ap (◌++◌ (reversed next)) (reversed-child_nodes l r))
    ∙ append_assoc (reversed next) (child_nodes l r) (children current)
below-push false l r x current next =
    sym (append_assoc (children (reversed current)) (child_nodes l r) next)
    ∙ ap (λ q. q ++ next)
        (ap (◌++◌ (children (reversed current))) (sym (append-nil (child_nodes l r)))
          ∙ sym (children-append (reversed current) (node l x r ∷ [])))

-- At the end of a line `next` is the next level, as its direction has it.
in_order-below : (first : Bool) (next : List Tree) → in_order (not first) next ≡ below first [] next
in_order-below true next = sym (append-nil (reversed next))
in_order-below false next = refl

abbrev Prints : ℕ → List Tree → List Tree → Bool → Type 0
Prints fuel current next first =
    zigzag_loop fuel current next first
    ≡ some (
        map shown (root_values current)
        ++ line_end ∷ turns (not first) (forest_levels (below first current next)))

AreNodes-push :
    (first : Bool) (l r : Tree) (next : List Tree) → AreNodes next → AreNodes (push first l r next)
AreNodes-push true l r next m = AreNodes-append (child_nodes r l) next (AreNodes-child_nodes r l) m
AreNodes-push false l r next m = AreNodes-append (child_nodes l r) next (AreNodes-child_nodes l r) m

weight-push :
    (first : Bool) (l r : Tree) (next : List Tree)
    → weight (push first l r next) ≡ size l + size r + weight next
weight-push true l r next =
    omega (arith, weight-append (child_nodes r l) next, weight-child_nodes r l)
weight-push false l r next =
    omega (arith, weight-append (child_nodes l r) next, weight-child_nodes l r)

AreNodes-reversed : (ts : List Tree) → AreNodes ts → AreNodes (reversed ts)
AreNodes-reversed [] n = tt
AreNodes-reversed (leaf ∷ ts) n = absurd n
AreNodes-reversed (node l x r ∷ ts) n =
    AreNodes-append (reversed ts) (node l x r ∷ []) (AreNodes-reversed ts n) tt

root_values-append : (ts us : List Tree) → root_values (ts ++ us) ≡ root_values ts ++ root_values us
root_values-append [] us = refl
root_values-append (leaf ∷ ts) us = root_values-append ts us
root_values-append (node l x r ∷ ts) us = ap (◌∷◌ x) (root_values-append ts us)

reversed-root_values : (ts : List Tree) → reversed (root_values (reversed ts)) ≡ root_values ts
reversed-root_values [] = refl
reversed-root_values (leaf ∷ ts) =
    ap reversed
      (root_values-append (reversed ts) (leaf ∷ []) ∙ append-nil (root_values (reversed ts)))
    ∙ reversed-root_values ts
reversed-root_values (node l x r ∷ ts) =
    ap reversed (root_values-append (reversed ts) (node l x r ∷ []))
    ∙ reversed-append (root_values (reversed ts)) (x ∷ [])
    ∙ ap (◌∷◌ x) (reversed-root_values ts)

length-reversed : (ts : List Tree) → length (reversed ts) ≡ length ts
length-reversed [] = refl
length-reversed (t ∷ ts) =
    omega (arith, length-append {0} (reversed ts) (t ∷ []), length-reversed ts)

first_level :
    (ts : List Tree)
    → AreNodes ts
    → 0 < length ts
    → forest_levels ts ≡ root_values ts ∷ forest_levels (children ts)
first_level [] n p = absurd (omega (arith, p))
first_level (t ∷ ts) n p = forest_levels-children t ts n

-- A line, and those below it, as the stack of its level has them.
turns-level :
    (first : Bool) (stack : List Tree)
    → AreNodes stack
    → 0 < length stack
    → turns first (forest_levels (in_order first stack))
      ≡ map shown (root_values stack)
        ++ line_end ∷ turns (not first) (forest_levels (below first stack []))
turns-level true stack n p = ap (turns true) (first_level stack n p)
turns-level false stack n p =
    ap (turns false) (
      first_level (reversed stack) (AreNodes-reversed stack n)
        (omega (arith, length-reversed stack, p)))
    ∙ ap (λ v. map shown v ++ line_end ∷ turns true (forest_levels (children (reversed stack))))
        (reversed-root_values stack)
    ∙ ap (λ c. map shown (root_values stack) ++ line_end ∷ turns true (forest_levels c))
        (sym (append-nil (children (reversed stack))))

level-Prints :
    (fuel : ℕ) (stack : List Tree) (first : Bool)
    → AreNodes stack
    → (0 < length stack → Prints fuel stack [] first)
    → zigzag_loop fuel stack [] first ≡ some (turns first (forest_levels (in_order first stack)))
unfolding zigzag_loop
level-Prints zero [] true n h = refl
level-Prints zero [] false n h = refl
level-Prints (suc fuel) [] true n h = refl
level-Prints (suc fuel) [] false n h = refl
level-Prints fuel (t ∷ stack) first n h =
    h (omega arith) ∙ ap some (sym (turns-level first (t ∷ stack) n (omega arith)))

prints :
    (fuel : ℕ) (current next : List Tree) (first : Bool)
    → AreNodes current
    → AreNodes next
    → 0 < length current
    → weight current + weight next ≤ fuel
    → Prints fuel current next first
prints fuel [] next first n m p w = absurd (omega (arith, p))
prints fuel (leaf ∷ current) next first n m p w = absurd n
prints zero (node l x r ∷ current) next first n m p w = absurd (omega (arith, w))
prints (suc fuel) (node l x r ∷ []) next first n m p w =
    let nodes = AreNodes-push first l r next m in
    let stack = push first l r next in
    zigzag_end fuel l r x next first
      (turns (not first) (forest_levels (in_order (not first) stack)))
      (level-Prints fuel stack (not first) nodes (λ q.
        prints fuel stack [] (not first) nodes tt q (omega (arith, w, weight-push first l r next))))
    ∙ ap (λ ts. some (shown x ∷ line_end ∷ turns (not first) (forest_levels ts)))
        (in_order-below first stack ∙ below-push first l r x [] next)
prints (suc fuel) (node l x r ∷ t ∷ current) next first n m p w =
    let stack = push first l r next in
    zigzag_next fuel l r t x current next first
      (map shown (root_values (t ∷ current))
        ++ line_end ∷ turns (not first) (forest_levels (below first (t ∷ current) stack)))
      (prints fuel (t ∷ current) stack first n (AreNodes-push first l r next m) (omega arith)
        (omega (arith, w, weight-push first l r next)))
    ∙ ap
        (λ ts. some (
          shown x
          ∷ (map shown (root_values (t ∷ current))
              ++ line_end ∷ turns (not first) (forest_levels ts))))
        (below-push first l r x (t ∷ current) next)

-- printZigZag takes a turn for each node and prints the levels of the tree, from the root down, each on a line of its own:
-- the root_values of the first from left to right, of the second from right to left, and so on in turn. It never takes the top of an empty stack.
pub print_zig_zag-turns : (t : Tree) → print_zig_zag t ≡ some (turns true (levels t))
unfolding print_zig_zag
print_zig_zag-turns leaf = refl
print_zig_zag-turns (node l x r) =
    prints (size (node l x r)) (node l x r ∷ []) [] true tt tt (omega arith) (omega arith)
    ∙ ap (λ ls. some (turns true ls))
        (sym (forest_levels-children (node l x r) [] tt) ∙ forest_levels-single (node l x r))
