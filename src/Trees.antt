-- ===== src/Trees.antt =====
-- c++/src/tree.cpp and the binary trees of binaryTree: a pointer to a node is the tree below it, `leaf` is NULL, and
-- what is printed is the list of the root_values in their order.
pub mod Order
pub mod Insert
pub mod Search
pub mod Paths
pub mod Levels
pub mod Traversals
mod Tests
use diversity.Prelude.Int.{ℤ}
use diversity.Prelude.Int.{ltb_ℤ}
use diversity.Prelude.{List, [], ◌∷◌, ◌++◌, if◌then◌else◌}
use diversity.Searching.{eq_ℤ}

pub data Tree : Type 0 where
  leaf : Tree
  node : Tree → ℤ → Tree → Tree

-- The loop of `insert` down from a node, with the new node put where it meets NULL.
unfoldable pub insert : ℤ → Tree → Tree
insert x leaf = node leaf x leaf
insert x (node l y r) =
    let right = insert x r in
    let left = insert x l in
    if ltb_ℤ y x then node l y right else if ltb_ℤ x y then node left y r else node l y r

-- The node with the value, and what is below it.
unfoldable pub search : ℤ → Tree → Tree
search x leaf = leaf
search x (node l y r) =
    let right = search x r in
    let left = search x l in if eq_ℤ y x then node l y r else if ltb_ℤ y x then right else left

unfoldable pub preorder : Tree → List ℤ
preorder leaf = []
preorder (node l x r) = x ∷ (preorder l ++ preorder r)

unfoldable pub inorder : Tree → List ℤ
inorder leaf = []
inorder (node l x r) = inorder l ++ x ∷ inorder r

unfoldable pub post_order : Tree → List ℤ
post_order leaf = []
post_order (node l x r) = post_order l ++ (post_order r ++ x ∷ [])

-- The root_values inserted into an empty tree, one after the other.
unfoldable pub insert_all : List ℤ → Tree → Tree
insert_all [] t = t
insert_all (x ∷ xs) t = insert_all xs (insert x t)
