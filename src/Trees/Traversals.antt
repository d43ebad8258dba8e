-- ===== src/Trees/Traversals.antt =====
-- binaryTree/TreeNode.cpp: the traversals that test a child before they call themselves on it.
use diversity.Prelude.Int.{ℤ}
use diversity.Prelude.{◌≡◌, refl, sym, ap₂, ◌∙◌, List, [], ◌∷◌, ◌++◌}
use diversity.Trees.{Tree, leaf, node, preorder, inorder, post_order}

unfoldable pub new_node : ℤ → Tree
new_node value = node leaf value leaf

-- `if (child) f(child)`
abbrev pub if_node : Tree → List ℤ → List ℤ
if_node leaf out = []
if_node (node l x r) out = out

unfoldable pub in_order_traversal : Tree → List ℤ
in_order_traversal leaf = []
in_order_traversal (node l x r) =
    let left = in_order_traversal l in
    let right = in_order_traversal r in if_node l left ++ x ∷ if_node r right

unfoldable pub pre_order_traversal : Tree → List ℤ
pre_order_traversal leaf = []
pre_order_traversal (node l x r) =
    let left = pre_order_traversal l in
    let right = pre_order_traversal r in x ∷ (if_node l left ++ if_node r right)

unfoldable pub post_order_traversal : Tree → List ℤ
post_order_traversal leaf = []
post_order_traversal (node l x r) =
    let left = post_order_traversal l in
    let right = post_order_traversal r in if_node l left ++ (if_node r right ++ x ∷ [])

if_node_same : (f : Tree → List ℤ) (t : Tree) → f leaf ≡ [] → if_node t (f t) ≡ f t
if_node_same f leaf e = sym e
if_node_same f (node l x r) e = refl

-- Each traversal of TreeNode.cpp prints what the one of tree.cpp prints.
pub traversals-same :
    (t : Tree)
    → (in_order_traversal t ≡ inorder t)
      × (pre_order_traversal t ≡ preorder t)
      × (post_order_traversal t ≡ post_order t)
unfolding in_order_traversal pre_order_traversal post_order_traversal inorder preorder post_order
traversals-same leaf = (refl, refl, refl)
traversals-same (node l x r) =
    let (il, pl, ql) = traversals-same l in
    let (ir, pr, qr) = traversals-same r in
    let both = λ (f : Tree → List ℤ) (z : f leaf ≡ []) (t : Tree) (u : List ℤ) (e : f t ≡ u).
      if_node_same f t z ∙ e in
    (
      ap₂ (λ a b. a ++ x ∷ b) (both in_order_traversal refl l (inorder l) il)
          (both in_order_traversal refl r (inorder r) ir),
      ap₂ (λ a b. x ∷ (a ++ b)) (both pre_order_traversal refl l (preorder l) pl)
          (both pre_order_traversal refl r (preorder r) pr),
      ap₂ (λ a b. a ++ (b ++ x ∷ [])) (both post_order_traversal refl l (post_order l) ql)
          (both post_order_traversal refl r (post_order r) qr),
    )
