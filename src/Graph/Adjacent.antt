-- ===== src/Graph/Adjacent.antt =====
-- The edges and the flags of a graph, and the search for a vertex that is not visited.
use diversity.Prelude.Int.{ℤ, pos}
use diversity.Prelude.Int.{negsuc}
use diversity.Prelude.{
  ℕ, zero, suc, ◌+◌, ◌≤◌, ◌<◌, ◌≡◌, refl, sym, ◌∙◌, subst, ◌⊎◌, inl, inr, Bool, true, false, ◌&&◌,
  not, Option, some, List, [], ◌∷◌, arith, if◌then◌else◌, Bool-cases, length, get_or,
  get_elem?-eq-get_or,
}
use diversity.Searching.{eq_ℤ}
use diversity.Graph.{Vertex, Graph, adjacent_from, get_adj_unvisited_vertex}

-- The arrays have the sizes that were allocated, and the vertices fit.
abbrev pub Rows : ℕ → List (List ℤ) → Type 0
Rows n [] = Unit
Rows n (row ∷ rows) = (length row ≡ n) × Rows n rows

abbrev pub IsGraph : Graph → Type 0
IsGraph g =
    g.vertex_count ≤ g.capacity
    × (length g.vertices ≡ g.capacity)
    × (length g.adj_matrix ≡ g.capacity)
    × Rows g.capacity g.adj_matrix

abbrev pub cell : List (List ℤ) → ℕ → ℕ → ℤ
cell rows i j = get_or (get_or rows i []) j (pos 0)

-- Whether the loop takes `j` for adjacent to `i`.
abbrev pub edge : Graph → ℕ → ℕ → Bool
edge g i j = eq_ℤ (cell g.adj_matrix i j) (pos 1)

abbrev pub flag : List Vertex → ℕ → Bool
flag vs i = (get_or vs i (record { label = 0; visited = false })).visited

Rows-length :
    (n i : ℕ) (rows : List (List ℤ)) → Rows n rows → i < length rows → length (get_or rows i []) ≡ n
Rows-length n i [] r h = absurd (omega (arith, h))
Rows-length n zero (row ∷ rows) r h = r.0
Rows-length n (suc i) (row ∷ rows) r h = Rows-length n i rows r.1 (omega (arith, h))

adjacent_step :
    (k i vertex : ℕ) (g : Graph)
    → IsGraph g
    → vertex < g.capacity
    → i < g.capacity
    → adjacent_from (suc k) i g vertex ≡ (
        if edge g vertex i && not (flag g.vertices i)
        then some (pos i)
        else adjacent_from k (i + 1) g vertex)
unfolding adjacent_from
adjacent_step k i vertex g (_, lv, lm, lr) hv hi =
    rw
      (
        get_elem?-eq-get_or g.adj_matrix vertex [] (omega (arith, hv, lm)),
        get_elem?-eq-get_or (get_or g.adj_matrix vertex []) i (pos 0) (
            omega
              (arith, hi, Rows-length g.capacity vertex g.adj_matrix lr (omega (arith, hv, lm)))),
        get_elem?-eq-get_or g.vertices i (record { label = 0; visited = false })
            (omega (arith, hi, lv)),
      )
      refl

-- An adjacent vertex that is not visited, or none.
abbrev pub Adjacent : Graph → ℕ → Option ℤ → Type 0
Adjacent g vertex o =
    ((j : ℕ) × (o ≡ some (pos j))
      × j < g.vertex_count
      × (edge g vertex j ≡ true)
      × (flag g.vertices j ≡ false))
    ⊎ ((o ≡ some (negsuc 0))
        × ((j : ℕ) → j < g.vertex_count → edge g vertex j ≡ true → flag g.vertices j ≡ true))

adjacent_from-Adjacent :
    (k i vertex : ℕ) (g : Graph)
    → IsGraph g
    → vertex < g.capacity
    → g.vertex_count ≡ i + k
    → ((j : ℕ) → j < i → edge g vertex j ≡ true → flag g.vertices j ≡ true)
    → Adjacent g vertex (adjacent_from k i g vertex)
unfolding adjacent_from
adjacent_from-Adjacent zero i vertex g s hv h before =
    inr (refl, λ j l. before j (omega (arith, h, l)))
adjacent_from-Adjacent (suc k) i vertex g s hv h before =
    let step = adjacent_step k i vertex g s hv (omega (arith, h, s.0)) in
    elim (Bool-cases (edge g vertex i && not (flag g.vertices i))) [
      | inl t ↦
          let (e, f) = both_true (edge g vertex i) (flag g.vertices i) t in
          inl (i, step ∙ rw t refl, omega (arith, h), e, f)
      | inr n ↦ subst (Adjacent g vertex) (sym (step ∙ rw n refl)) (
          adjacent_from-Adjacent k (i + 1) vertex g s hv (omega (arith, h)) (λ j l.
            elim (lt_or_eq j i (omega (arith, l))) [
              | inl lt ↦ before j lt
              | inr e ↦
                  subst (λ m. edge g vertex m ≡ true → flag g.vertices m ≡ true) (sym e)
                    (not_both (edge g vertex i) (flag g.vertices i) n)
            ]))
    ]
  where
    both_true : (a b : Bool) → (a && not b) ≡ true → (a ≡ true) × (b ≡ false)
    both_true true true t = cc
    both_true true false t = (refl, refl)
    both_true false b t = cc

    not_both : (a b : Bool) → (a && not b) ≡ false → a ≡ true → b ≡ true
    not_both true true n e = refl
    not_both true false n e = cc
    not_both false b n e = cc

    lt_or_eq : (a b : ℕ) → a ≤ b → (a < b) ⊎ (a ≡ b)
    lt_or_eq a b h = ground (arith, h)

pub get_adj-Adjacent :
    (g : Graph) (vertex : ℕ)
    → IsGraph g
    → vertex < g.capacity
    → Adjacent g vertex (get_adj_unvisited_vertex g vertex)
unfolding get_adj_unvisited_vertex
get_adj-Adjacent g vertex s hv =
    adjacent_from-Adjacent g.vertex_count 0 vertex g s hv (omega arith)
      (λ j l. absurd (omega (arith, l)))
