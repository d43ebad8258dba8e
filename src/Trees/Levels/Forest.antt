-- ===== src/Trees/Levels/Forest.antt =====
-- The levels of a tree, and of the trees that wait in a queue or on a stack.
use diversity.Prelude.Int.{ℤ}
use diversity.Prelude.{
  ℕ, ◌+◌, ◌≡◌, refl, sym, ap, ap₂, ◌∙◌, List, [], ◌∷◌, ◌++◌, append-nil, append_assoc, arith,
}
use diversity.Trees.{Tree, leaf, node}
use diversity.Trees.Levels.{size, child_nodes}

-- The levels of two trees beside each other.
abbrev pub beside : List (List ℤ) → List (List ℤ) → List (List ℤ)
beside [] qs = qs
beside (p ∷ ps) [] = p ∷ ps
beside (p ∷ ps) (q ∷ qs) = (p ++ q) ∷ beside ps qs

-- The root_values at each depth, from left to right.
abbrev pub levels : Tree → List (List ℤ)
levels leaf = []
levels (node l x r) = (x ∷ []) ∷ beside (levels l) (levels r)

abbrev pub forest_levels : List Tree → List (List ℤ)
forest_levels [] = []
forest_levels (t ∷ ts) = beside (levels t) (forest_levels ts)

-- No tree is NULL.
abbrev pub AreNodes : List Tree → Type 0
AreNodes [] = Unit
AreNodes (leaf ∷ ts) = ⊥
AreNodes (node l x r ∷ ts) = AreNodes ts

abbrev pub root_values : List Tree → List ℤ
root_values [] = []
root_values (leaf ∷ ts) = root_values ts
root_values (node l x r ∷ ts) = x ∷ root_values ts

abbrev pub children : List Tree → List Tree
children [] = []
children (leaf ∷ ts) = children ts
children (node l x r ∷ ts) = child_nodes l r ++ children ts

abbrev pub weight : List Tree → ℕ
weight [] = 0
weight (t ∷ ts) = size t + weight ts

pub weight-append : (ts us : List Tree) → weight (ts ++ us) ≡ weight ts + weight us
weight-append [] us = omega arith
weight-append (t ∷ ts) us = omega (arith, weight-append ts us)

pub weight-child_nodes : (l r : Tree) → weight (child_nodes l r) ≡ size l + size r
weight-child_nodes leaf leaf = refl
weight-child_nodes (node a x b) leaf = refl
weight-child_nodes leaf (node c y d) = omega arith
weight-child_nodes (node a x b) (node c y d) = omega arith

pub AreNodes-append : (ts us : List Tree) → AreNodes ts → AreNodes us → AreNodes (ts ++ us)
AreNodes-append [] us a b = b
AreNodes-append (leaf ∷ ts) us a b = a
AreNodes-append (node l x r ∷ ts) us a b = AreNodes-append ts us a b

pub AreNodes-child_nodes : (l r : Tree) → AreNodes (child_nodes l r)
AreNodes-child_nodes leaf leaf = tt
AreNodes-child_nodes (node a x b) leaf = tt
AreNodes-child_nodes leaf (node c y d) = tt
AreNodes-child_nodes (node a x b) (node c y d) = tt

beside_nil : (ps : List (List ℤ)) → beside ps [] ≡ ps
beside_nil [] = refl
beside_nil (p ∷ ps) = refl

beside_assoc : (ps qs rs : List (List ℤ)) → beside (beside ps qs) rs ≡ beside ps (beside qs rs)
beside_assoc [] qs rs = refl
beside_assoc (p ∷ ps) [] rs = refl
beside_assoc (p ∷ ps) (q ∷ qs) [] = refl
beside_assoc (p ∷ ps) (q ∷ qs) (r ∷ rs) =
    ap₂ (λ a b. a ∷ b) (append_assoc p q r) (beside_assoc ps qs rs)

forest_levels-append :
    (ts us : List Tree) → forest_levels (ts ++ us) ≡ beside (forest_levels ts) (forest_levels us)
forest_levels-append [] us = refl
forest_levels-append (t ∷ ts) us =
    ap (beside (levels t)) (forest_levels-append ts us)
    ∙ sym (beside_assoc (levels t) (forest_levels ts) (forest_levels us))

forest_levels-child_nodes :
    (l r : Tree) → forest_levels (child_nodes l r) ≡ beside (levels l) (levels r)
forest_levels-child_nodes leaf leaf = refl
forest_levels-child_nodes (node a x b) leaf = refl
forest_levels-child_nodes leaf (node c y d) = refl
forest_levels-child_nodes (node a x b) (node c y d) = refl

-- The first level is the root_values of the roots, below it are the levels of their children.
pub forest_levels-children :
    (t : Tree) (ts : List Tree)
    → AreNodes (t ∷ ts)
    → forest_levels (t ∷ ts) ≡ root_values (t ∷ ts) ∷ forest_levels (children (t ∷ ts))
forest_levels-children leaf ts n = absurd n
forest_levels-children (node l x r) [] n =
    ap (◌∷◌ (x ∷ []))
      (sym (forest_levels-child_nodes l r) ∙ ap forest_levels (sym (append-nil (child_nodes l r))))
forest_levels-children (node l x r) (t ∷ ts) n =
    ap (beside (levels (node l x r))) (forest_levels-children t ts n)
    ∙ ap (λ q. (x ∷ root_values (t ∷ ts)) ∷ beside q (forest_levels (children (t ∷ ts))))
        (sym (forest_levels-child_nodes l r))
    ∙ ap (◌∷◌ (x ∷ root_values (t ∷ ts)))
        (sym (forest_levels-append (child_nodes l r) (children (t ∷ ts))))

pub forest_levels-single : (t : Tree) → forest_levels (t ∷ []) ≡ levels t
forest_levels-single t = beside_nil (levels t)
