-- ===== src/Searching/Matrix.antt =====
-- `searchMatrix` and the search in the rows behind each other.
use native.Mathlib.Nat.{div-eq-sub-div, mod-eq-sub-mod, div-eq_of_lt, mod-eq_of_lt, suc-mul}
use diversity.Prelude.Int.{ℤ}
use diversity.Prelude.Int.{negsuc, pos}
use diversity.Prelude.Int.{ltb_ℤ}
use diversity.Prelude.{
  ℕ, zero, suc, ◌+◌, ◌-◌, ◌*◌, ◌/◌, ◌%◌, ◌≤◌, ◌<◌, ◌≡◌, refl, sym, ap, ◌∙◌, inl, inr, true, false,
  Option, some, List, [], ◌∷◌, ◌++◌, arith, ltb, if◌then◌else◌, ltb→lt, Bool-cases, ◌>>=◌, length,
}
use diversity.Prelude.Arrays.{read}
use diversity.Searching.{eq_ℤ, bisect, binary_search, read_cell, search_matrix}
use diversity.Searching.Reads.{lt_or_ge}

-- Each row has `cols` elements.
abbrev pub HaveLength : List (List ℤ) → ℕ → Type 0
HaveLength [] cols = Unit
HaveLength (row ∷ mat) cols = (length row ≡ cols) × HaveLength mat cols

-- The rows behind each other.
abbrev pub flattened : List (List ℤ) → List ℤ
flattened [] = []
flattened (row ∷ mat) = row ++ flattened mat

read_left : (xs ys : List ℤ) (i : ℕ) → i < length xs → read (xs ++ ys) i ≡ read xs i
read_left [] ys i h = absurd (omega (arith, h))
read_left (x ∷ xs) ys zero h = refl
read_left (x ∷ xs) ys (suc i) h = read_left xs ys i (omega (arith, h))

read_right : (xs ys : List ℤ) (i : ℕ) → length xs ≤ i → read (xs ++ ys) i ≡ read ys (i - length xs)
read_right [] ys i h = ap (read ys) {x = i} {y = i - 0} (omega arith)
read_right (x ∷ xs) ys zero h = absurd (omega (arith, h))
read_right (x ∷ xs) ys (suc i) h =
    read_right xs ys i (omega (arith, h)) ∙ ap (read ys) {y = suc i - suc (length xs)} (omega arith)

read_cell_first :
    (row : List ℤ) (mat : List (List ℤ)) (cols i : ℕ)
    → i < cols
    → read_cell (row ∷ mat) cols i ≡ read row i
read_cell_first row mat cols i h = rw (div-eq_of_lt h, mod-eq_of_lt h) refl

read_cell_next :
    (row : List ℤ) (mat : List (List ℤ)) (cols i : ℕ)
    → 0 < cols
    → cols ≤ i
    → read_cell (row ∷ mat) cols i ≡ read_cell mat cols (i - cols)
read_cell_next row mat cols i p h =
    rw (div-eq-sub-div p h, mod-eq-sub-mod h)
      (ap (λ k. read (row ∷ mat) k >>= λ r. read r ((i - cols) % cols))
        {y = suc ((i - cols) / cols)} (omega arith))

read_cell-flattened :
    (mat : List (List ℤ)) (cols i : ℕ)
    → 0 < cols
    → HaveLength mat cols
    → i < length mat * cols
    → read_cell mat cols i ≡ read (flattened mat) i
read_cell-flattened [] cols i p r h = absurd (omega (arith, h))
read_cell-flattened (row ∷ mat) cols i p r h = elim (lt_or_ge i cols) [
  | inl lt ↦
      read_cell_first row mat cols i lt
      ∙ sym (read_left row (flattened mat) i (omega (arith, lt, r.0)))
  | inr ge ↦
      read_cell_next row mat cols i p ge
      ∙ read_cell-flattened mat cols (i - cols) p r.1
          (omega (arith, h, suc-mul (length mat) cols, ge))
      ∙ ap (λ c. read (flattened mat) (i - c)) (sym r.0)
      ∙ sym (read_right row (flattened mat) i (omega (arith, ge, r.0)))
]

-- One turn of the loop, with what is read and the two calls.
abbrev turn : Option ℤ → ℕ → ℤ → Option ℤ → Option ℤ → Option ℤ
turn o mid x right left = do
  y ← o
  if eq_ℤ y x then some (pos mid) else if ltb_ℤ y x then right else left

bisect-turn :
    (at : ℕ → Option ℤ) (fuel low top mid : ℕ) (x : ℤ)
    → mid ≡ low + (top - 1 - low) / 2
    → ltb low top ≡ true
    → bisect at (suc fuel) low top x
      ≡ turn (at mid) mid x (bisect at fuel (mid + 1) top x) (bisect at fuel low mid x)
unfolding bisect
bisect-turn at fuel low top mid x hm t = rw (t, hm) refl

bisect_none :
    (at : ℕ → Option ℤ) (fuel low top : ℕ) (x : ℤ)
    → ltb low top ≡ false
    → bisect at (suc fuel) low top x ≡ some (negsuc 0)
unfolding bisect
bisect_none at fuel low top x f = rw f refl

-- The loop depends on the reads below `top` only.
bisect_same :
    (at at' : ℕ → Option ℤ) (n fuel low top : ℕ) (x : ℤ)
    → ((i : ℕ) → i < n → at i ≡ at' i)
    → top ≤ n
    → bisect at fuel low top x ≡ bisect at' fuel low top x
unfolding bisect
bisect_same at at' n zero low top x h l = refl
bisect_same at at' n (suc fuel) low top x h l = elim (Bool-cases (ltb low top)) [
  | inl t ↦
      let mid = low + (top - 1 - low) / 2 in
      let inside : mid < top = omega (arith, ltb→lt low top t) in
      bisect-turn at fuel low top mid x refl t
      ∙ ap (λ o. turn o mid x (bisect at fuel (mid + 1) top x) (bisect at fuel low mid x))
          (h mid (omega (arith, inside, l)))
      ∙ ap (λ r. turn (at' mid) mid x r (bisect at fuel low mid x))
          (bisect_same at at' n fuel (mid + 1) top x h l)
      ∙ ap (turn (at' mid) mid x (bisect at' fuel (mid + 1) top x))
          (bisect_same at at' n fuel low mid x h (omega (arith, inside, l)))
      ∙ sym (bisect-turn at' fuel low top mid x refl t)
  | inr f ↦ bisect_none at fuel low top x f ∙ sym (bisect_none at' fuel low top x f)
]

pub search_matrix-binary_search :
    (mat : List (List ℤ)) (cols : ℕ) (value : ℤ)
    → 0 < cols
    → HaveLength mat cols
    → search_matrix mat (length mat) cols value
      ≡ binary_search (flattened mat) (length mat * cols) value
unfolding search_matrix binary_search
search_matrix-binary_search mat cols value p r =
    let n = length mat * cols in
    bisect_same (read_cell mat cols) (read (flattened mat)) n (n + 1) 0 n value
      (λ i l. read_cell-flattened mat cols i p r l) (omega arith)
