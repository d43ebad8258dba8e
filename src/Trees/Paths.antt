-- ===== src/Trees/Paths.antt =====
-- binaryTree/pathSum.cpp: the paths from the root to a leaf whose values have a given sum.
use diversity.Prelude.Int.{ℤ}
use diversity.Prelude.Int.{pos, ◌+ℤ◌, in_int, as_int}
use diversity.Prelude.{
  ◌≡◌, refl, sym, ap, ◌∙◌, inl, inr, true, Option, some, List, [], ◌∷◌, ◌++◌, map, append_assoc,
  if◌then◌else◌, Bool-cases, ◌>>=◌,
}
use diversity.Searching.{eq_ℤ}
use diversity.Trees.{Tree, leaf, node}

as_int_lem : (z : ℤ) → in_int z ≡ true → as_int z ≡ some z
as_int_lem z h = rw h refl

-- What `find_path` prints: the paths it finds, one after the other. `path` is copied in each call, so a caller's
-- path is not changed. `none` is a sum that is no int.
unfoldable pub find_path : Tree → ℤ → List ℤ → ℤ → Option (List (List ℤ))
find_path leaf expected path sum = some []
find_path (node leaf x leaf) expected path sum = do
  total ← as_int (sum +ℤ x)
  some (if eq_ℤ total expected then (path ++ x ∷ []) ∷ [] else [])
find_path (node (node a y b) x leaf) expected path sum = do
  total ← as_int (sum +ℤ x)
  find_path (node a y b) expected (path ++ x ∷ []) total
find_path (node leaf x (node c z d)) expected path sum = do
  total ← as_int (sum +ℤ x)
  find_path (node c z d) expected (path ++ x ∷ []) total
find_path (node (node a y b) x (node c z d)) expected path sum = do
  total ← as_int (sum +ℤ x)
  left ← find_path (node a y b) expected (path ++ x ∷ []) total
  right ← find_path (node c z d) expected (path ++ x ∷ []) total
  some (left ++ right)

unfoldable pub find_path_with_sum : Tree → ℤ → Option (List (List ℤ))
find_path_with_sum leaf expected = some []
find_path_with_sum (node l x r) expected = find_path (node l x r) expected [] (pos 0)

-- From `sum` on, the sums on the way to each node are ints.
abbrev pub SumsFit : Tree → ℤ → Type 0
SumsFit leaf sum = Unit
SumsFit (node l x r) sum = (in_int (sum +ℤ x) ≡ true) × SumsFit l (sum +ℤ x) × SumsFit r (sum +ℤ x)

-- The paths from the root to a leaf, from left to right.
unfoldable pub paths : Tree → List (List ℤ)
paths leaf = []
paths (node leaf x leaf) = (x ∷ []) ∷ []
paths (node (node a y b) x leaf) = map (◌∷◌ x) (paths (node a y b))
paths (node leaf x (node c z d)) = map (◌∷◌ x) (paths (node c z d))
paths (node (node a y b) x (node c z d)) = map (◌∷◌ x) (paths (node a y b) ++ paths (node c z d))

abbrev pub path_total : ℤ → List ℤ → ℤ
path_total sum [] = sum
path_total sum (x ∷ xs) = path_total (sum +ℤ x) xs

-- Those with the sum, behind the path to the node.
unfoldable pub with_sum : ℤ → List ℤ → ℤ → List (List ℤ) → List (List ℤ)
with_sum expected path sum [] = []
with_sum expected path sum (p ∷ ps) =
    let rest = with_sum expected path sum ps in
    if eq_ℤ (path_total sum p) expected then (path ++ p) ∷ rest else rest

with_sum-append :
    (expected : ℤ) (path : List ℤ) (sum : ℤ) (ps qs : List (List ℤ))
    → with_sum expected path sum (ps ++ qs)
      ≡ with_sum expected path sum ps ++ with_sum expected path sum qs
unfolding with_sum
with_sum-append expected path sum [] qs = refl
with_sum-append expected path sum (p ∷ ps) qs =
    elim (Bool-cases (eq_ℤ (path_total sum p) expected)) [
      | inl t ↦ rw t (ap (◌∷◌ (path ++ p)) (with_sum-append expected path sum ps qs))
      | inr f ↦ rw f (with_sum-append expected path sum ps qs)
    ]

with_sum-map :
    (expected : ℤ) (path : List ℤ) (sum x : ℤ) (ps : List (List ℤ))
    → with_sum expected path sum (map (◌∷◌ x) ps) ≡ with_sum expected (path ++ x ∷ []) (sum +ℤ x) ps
unfolding with_sum
with_sum-map expected path sum x [] = refl
with_sum-map expected path sum x (p ∷ ps) =
    elim (Bool-cases (eq_ℤ (path_total (sum +ℤ x) p) expected)) [
      | inl t ↦
          rw (t, append_assoc path (x ∷ []) p)
            (ap (◌∷◌ (path ++ x ∷ p)) (with_sum-map expected path sum x ps))
      | inr f ↦ rw f (with_sum-map expected path sum x ps)
    ]

find_path-with_sum :
    (t : Tree) (expected : ℤ) (path : List ℤ) (sum : ℤ)
    → SumsFit t sum
    → find_path t expected path sum ≡ some (with_sum expected path sum (paths t))
unfolding find_path with_sum paths
find_path-with_sum leaf expected path sum h = refl
find_path-with_sum (node leaf x leaf) expected path sum h = rw (as_int_lem (sum +ℤ x) h.0) refl
find_path-with_sum (node (node a y b) x leaf) expected path sum h = rw (as_int_lem (sum +ℤ x) h.0) (
    find_path-with_sum (node a y b) expected (path ++ x ∷ []) (sum +ℤ x) h.1
    ∙ ap some (sym (with_sum-map expected path sum x (paths (node a y b)))))
find_path-with_sum (node leaf x (node c z d)) expected path sum h = rw (as_int_lem (sum +ℤ x) h.0) (
    find_path-with_sum (node c z d) expected (path ++ x ∷ []) (sum +ℤ x) h.2
    ∙ ap some (sym (with_sum-map expected path sum x (paths (node c z d)))))
find_path-with_sum (node (node a y b) x (node c z d)) expected path sum h =
    let path' = path ++ x ∷ [] in
    let sum' = sum +ℤ x in
    rw
      (
        as_int_lem (sum +ℤ x) h.0,
        find_path-with_sum (node a y b) expected (path ++ x ∷ []) (sum +ℤ x) h.1,
        find_path-with_sum (node c z d) expected (path ++ x ∷ []) (sum +ℤ x) h.2,
      )
      (ap some (
        sym (with_sum-append expected path' sum' (paths (node a y b)) (paths (node c z d)))
        ∙ sym (with_sum-map expected path sum x (paths (node a y b) ++ paths (node c z d)))))

-- Where the sums on the way from the root to each node are ints, findPathWithSum overflows no sum and prints the paths from
-- the root to a leaf whose values have the expected sum, all of them, from left to right, and no others.
pub find_path_with_sum-with_sum :
    (t : Tree) (expected : ℤ)
    → SumsFit t (pos 0)
    → find_path_with_sum t expected ≡ some (with_sum expected [] (pos 0) (paths t))
unfolding find_path_with_sum paths with_sum
find_path_with_sum-with_sum leaf expected h = refl
find_path_with_sum-with_sum (node l x r) expected h =
    find_path-with_sum (node l x r) expected [] (pos 0) h
