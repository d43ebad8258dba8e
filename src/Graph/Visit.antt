-- ===== src/Graph/Visit.antt =====
-- `visit` and the flags.
use diversity.Prelude.{
  ℕ, zero, suc, ◌+◌, ◌<◌, ◌≡◌, refl, sym, ap, ◌∙◌, subst, ◌≢◌, ◌⊎◌, inl, inr, true, false, some,
  List, [], ◌∷◌, arith, ◌==◌, if◌then◌else◌, lt→ltb, ==_iff, Bool-cases, length, get_or, set,
  length-set, get_elem?-eq-get_or, get_or-set_self, get_or-set_ne,
}
use diversity.Prelude.Arrays.{write}
use diversity.Graph.{Vertex, Graph, visit}
use diversity.Graph.Adjacent.{IsGraph, flag}

abbrev pub unset : Vertex
unset = record { label = 0; visited = false }

abbrev pub marked : ℕ → List Vertex → List Vertex
marked j vs = set vs j (record (get_or vs j unset) { visited = true })

abbrev pub label_of : List Vertex → ℕ → ℕ
label_of vs j = (get_or vs j unset).label

abbrev pub unvisited : List Vertex → ℕ
unvisited [] = 0
unvisited (v ∷ vs) = (if v.visited then 0 else 1) + unvisited vs

write_in :
    (vs : List Vertex) (j : ℕ) (v : Vertex) → j < length vs → write vs j v ≡ some (set vs j v)
write_in vs j v h = rw (lt→ltb j (length vs) h) refl

pub visit-marked :
    (j : ℕ) (g : Graph)
    → j < length g.vertices
    → visit j g ≡ some (record g { vertices = marked j g.vertices }, label_of g.vertices j)
unfolding visit
visit-marked j g h =
    rw
      (
        get_elem?-eq-get_or g.vertices j unset h,
        write_in g.vertices j (record (get_or g.vertices j unset) { visited = true }) h,
      )
      refl

pub flag-marked_self : (vs : List Vertex) (j : ℕ) → j < length vs → flag (marked j vs) j ≡ true
flag-marked_self vs j h = ap (λ (v : Vertex). v.visited) (get_or-set_self vs j _ unset h)

pub flag-marked_other : (vs : List Vertex) (j v : ℕ) → v ≢ j → flag (marked j vs) v ≡ flag vs v
flag-marked_other vs j v h =
    ap (λ (u : Vertex). u.visited) (get_or-set_ne vs j v _ unset (λ e. h (sym e)))

label_of-marked_self : (vs : List Vertex) (j : ℕ) → label_of (marked j vs) j ≡ label_of vs j
label_of-marked_self [] j = refl
label_of-marked_self (v ∷ vs) zero = refl
label_of-marked_self (v ∷ vs) (suc j) = label_of-marked_self vs j

pub label_of-marked : (vs : List Vertex) (j v : ℕ) → label_of (marked j vs) v ≡ label_of vs v
label_of-marked [] j v = refl
label_of-marked (u ∷ vs) zero zero = refl
label_of-marked (u ∷ vs) zero (suc v) = refl
label_of-marked (u ∷ vs) (suc j) zero = refl
label_of-marked (u ∷ vs) (suc j) (suc v) = label_of-marked vs j v

unvisited_head :
    (v : Vertex) (vs : List Vertex) → v.visited ≡ false → unvisited (v ∷ vs) ≡ 1 + unvisited vs
unvisited_head v vs e = rw e refl

-- One vertex less is left.
pub unvisited-marked :
    (vs : List Vertex) (j : ℕ)
    → j < length vs
    → flag vs j ≡ false
    → unvisited (marked j vs) + 1 ≡ unvisited vs
unvisited-marked [] j h f = absurd (omega (arith, h))
unvisited-marked (v ∷ vs) zero h f = omega (arith, unvisited_head v vs f)
unvisited-marked (v ∷ vs) (suc j) h f = omega (arith, unvisited-marked vs j (omega (arith, h)) f)

pub IsGraph-marked :
    (j : ℕ) (g : Graph) → IsGraph g → IsGraph (record g { vertices = marked j g.vertices })
IsGraph-marked j g (a, b, c, d) = (a, length-set g.vertices j _ ∙ b, c, d)

pub same_or_other : (v j : ℕ) → (v ≡ j) ⊎ (v ≢ j)
same_or_other v j = elim (Bool-cases (v == j)) [
  | inl t ↦ inl ((==_iff v j).0 t)
  | inr f ↦ inr (λ e. let t = (==_iff v j).1 e in cc)
]

-- A vertex that is visited stays visited.
pub visited-marked :
    (vs : List Vertex) (j v : ℕ) → j < length vs → flag vs v ≡ true → flag (marked j vs) v ≡ true
visited-marked vs j v h f = elim (same_or_other v j) [
  | inl e ↦ subst (λ u. flag (marked j vs) u ≡ true) (sym e) (flag-marked_self vs j h)
  | inr n ↦ flag-marked_other vs j v n ∙ f
]
