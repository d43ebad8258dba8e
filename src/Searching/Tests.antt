-- ===== src/Searching/Tests.antt =====
-- The searches on the arrays of the programs' `main`, and the theorems there.
use diversity.Prelude.Int.{pos, ℤ}
use diversity.Prelude.Int.{negsuc}
use diversity.Prelude.{
  ℕ, ◌*◌, ◌<◌, ◌≡◌, refl, ◌≢◌, ◌⊎◌, none, some, List, [], ◌∷◌, ◌++◌, arith, length, get_elem?,
}
use diversity.Searching.{linear_search, bisect, binary_search, search_matrix}
use diversity.Searching.Binary.{searches_agree}
use diversity.Searching.Matrix.{flattened, search_matrix-binary_search}
use diversity.Searching.Interpolation.{interpolate, interpolation_search}

abbrev four : List ℤ
four = negsuc 4 ∷ pos 14 ∷ pos 14 ∷ pos 42 ∷ []

abbrev rows : List (List ℤ)
rows =
    (pos 1 ∷ pos 3 ∷ pos 5 ∷ [])
    ∷ (pos 7 ∷ pos 9 ∷ pos 11 ∷ [])
    ∷ (pos 13 ∷ pos 15 ∷ pos 17 ∷ [])
    ∷ []

binary_four : binary_search four 4 (pos 42) ≡ some (pos 3)
unfolding binary_search bisect
binary_four = refl

matrix_seven : search_matrix rows 3 3 (pos 7) ≡ some (pos 3)
unfolding search_matrix bisect
matrix_seven = refl

-- A division by zero, for an array of one element.
interpolation_single : interpolation_search 9 (pos 5 ∷ []) 1 (pos 5) ≡ none
unfolding interpolation_search interpolate
interpolation_single = refl

interpolation_found : interpolation_search 9 (pos 5 ∷ pos 6 ∷ pos 7 ∷ []) 3 (pos 6) ≡ some (pos 1)
unfolding interpolation_search interpolate
interpolation_found = refl

searches_agree_example :
    ((i j : ℕ) × (linear_search (four ++ pos 3 ∷ []) (length four) (pos 14) ≡ some (pos i))
      × (binary_search (four ++ pos 3 ∷ []) (length four) (pos 14) ≡ some (pos j))
      × (get_elem? four i ≡ some (pos 14))
      × (get_elem? four j ≡ some (pos 14)))
    ⊎ ((linear_search (four ++ pos 3 ∷ []) (length four) (pos 14) ≡ some (negsuc 0))
        × (binary_search (four ++ pos 3 ∷ []) (length four) (pos 14) ≡ some (negsuc 0))
        × ((i : ℕ) → i < length four → get_elem? four i ≢ some (pos 14)))
searches_agree_example = searches_agree four (pos 3 ∷ []) (pos 14) (
  (omega arith, (omega arith, (omega arith, tt))),
  ((omega arith, (omega arith, tt)), ((omega arith, tt), (tt, tt))),
)

search_matrix-binary_search_example :
    search_matrix rows (length rows) 3 (pos 13)
    ≡ binary_search (flattened rows) (length rows * 3) (pos 13)
search_matrix-binary_search_example =
    search_matrix-binary_search rows 3 (pos 13) (omega arith) (refl, (refl, (refl, tt)))
