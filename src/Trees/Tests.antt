-- ===== src/Trees/Tests.antt =====
-- The trees that the programs build, and the theorems there.
use diversity.Prelude.Int.{pos}
use diversity.Prelude.{ℕ, ◌≡◌, refl, true, some, [], ◌∷◌, arith, if◌then◌else◌}
use diversity.Searching.{eq_ℤ}
use diversity.Trees.{Tree, leaf, node, insert, search, preorder, inorder, post_order, insert_all}
use diversity.Trees.Order.{Ordered, inserted}
use diversity.Trees.Insert.{inorder-insert}
use diversity.Trees.Search.{value, search-insert}
use diversity.Trees.Paths.{
  find_path, find_path_with_sum, paths, with_sum, find_path_with_sum-with_sum,
}
use diversity.Trees.Levels.{shown, line_end, print_top_to_bottom, zigzag_loop, print_zig_zag}
use diversity.Trees.Levels.Forest.{levels}
use diversity.Trees.Levels.Top.{lines, print_top_to_bottom-lines}
use diversity.Trees.Levels.Zigzag.{turns, print_zig_zag-turns}

abbrev single : ℕ → Tree
single n = node leaf (pos n) leaf

abbrev seven : Tree
seven = node (node (single 2) (pos 3) (single 4)) (pos 5) (node (single 7) (pos 8) (single 10))

abbrev sums : Tree
sums = node (node (single 4) (pos 5) (single 7)) (pos 10) (single 12)

abbrev three : Tree
three = node (single 2) (pos 3) (single 4)

seven_inserted :
    insert_all (pos 5 ∷ pos 3 ∷ pos 2 ∷ pos 4 ∷ pos 8 ∷ pos 7 ∷ pos 10 ∷ []) leaf ≡ seven
unfolding insert_all insert
seven_inserted = refl

preorder_run : preorder seven ≡ pos 5 ∷ pos 3 ∷ pos 2 ∷ pos 4 ∷ pos 8 ∷ pos 7 ∷ pos 10 ∷ []
unfolding preorder
preorder_run = refl

post_order_run : post_order seven ≡ pos 2 ∷ pos 4 ∷ pos 3 ∷ pos 7 ∷ pos 10 ∷ pos 8 ∷ pos 5 ∷ []
unfolding post_order
post_order_run = refl

sums_found :
    find_path_with_sum sums (pos 22)
    ≡ some ((pos 10 ∷ pos 5 ∷ pos 7 ∷ []) ∷ (pos 10 ∷ pos 12 ∷ []) ∷ [])
unfolding find_path_with_sum find_path
sums_found = refl

seven_zig_zag :
    print_zig_zag seven
    ≡ some (
        shown (pos 5)
        ∷ line_end
        ∷ shown (pos 8)
        ∷ shown (pos 3)
        ∷ line_end
        ∷ shown (pos 2)
        ∷ shown (pos 4)
        ∷ shown (pos 7)
        ∷ shown (pos 10)
        ∷ line_end
        ∷ [])
unfolding print_zig_zag zigzag_loop
seven_zig_zag = refl

inorder-insert_example :
    Ordered (insert (pos 6) three)
    × (inorder (insert (pos 6) three) ≡ inserted (pos 6) (inorder three))
inorder-insert_example =
    inorder-insert three (pos 6)
      ((omega arith, tt, tt), (omega arith, tt, tt), (tt, tt, tt, tt), (tt, tt, tt, tt))

search-insert_example :
    value (search (pos 4) (insert (pos 6) seven))
    ≡ (if eq_ℤ (pos 6) (pos 4) then some (pos 4) else value (search (pos 4) seven))
search-insert_example = search-insert seven (pos 6) (pos 4)

find_path_with_sum-with_sum_example :
    find_path_with_sum sums (pos 22) ≡ some (with_sum (pos 22) [] (pos 0) (paths sums))
find_path_with_sum-with_sum_example =
    find_path_with_sum-with_sum sums (pos 22)
      (refl, (refl, (refl, tt, tt), (refl, tt, tt)), (refl, tt, tt))

print_top_to_bottom-lines_example : print_top_to_bottom seven ≡ some (lines (levels seven))
print_top_to_bottom-lines_example = print_top_to_bottom-lines seven

print_zig_zag-turns_example : print_zig_zag seven ≡ some (turns true (levels seven))
print_zig_zag-turns_example = print_zig_zag-turns seven
