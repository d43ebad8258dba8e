-- ===== src/Graph/Loop.antt =====
-- The loop of the searches over any worklist: what holds before a turn, and what the search leaves.
use diversity.Graph.Visit.{same_or_other}
use diversity.Graph.Visit.{same_or_other}
use diversity.Graph.Visit.{same_or_other}
use diversity.Graph.Visit.{same_or_other}
use diversity.Graph.Visit.{same_or_other}
use diversity.Graph.Visit.{same_or_other}
use diversity.Graph.Visit.{same_or_other}
use diversity.Graph.Visit.{same_or_other}
use diversity.Graph.Visit.{same_or_other}
use diversity.Prelude.{
  ℕ, suc, ◌+◌, ◌≤◌, ◌<◌, ◌≡◌, refl, sym, ◌∙◌, subst, ◌⊎◌, inl, inr, true, false, List, [], ◌∷◌,
  arith, Bool-cases, length,
}
use diversity.Graph.{Graph}
use diversity.Graph.Reach.{Reach}
use diversity.Graph.Adjacent.{IsGraph, edge, flag}
use diversity.Graph.Worklist.{In}
use diversity.Graph.Visit.{
  marked, label_of, unvisited, flag-marked_self, flag-marked_other, label_of-marked,
  unvisited-marked, IsGraph-marked, visited-marked, same_or_other,
}

abbrev pub Distinct : List ℕ → Type 0
Distinct [] = Unit
Distinct (x ∷ xs) = (In x xs → ⊥) × Distinct xs

-- The vertices adjacent to `v` are visited.
abbrev pub Closed : Graph → ℕ → Type 0
Closed g v = (j : ℕ) → j < g.vertex_count → edge g v j ≡ true → flag g.vertices j ≡ true

abbrev pub Reached : Graph → ℕ → Type 0
Reached g v = Reach g.vertex_count (edge g) v

-- Before a turn, with the vertices `xs` on the worklist.
abbrev pub Inv : Graph → List ℕ → (ℕ → ℕ) → Type 0
Inv g xs lab =
    IsGraph g
    × ((v : ℕ) → flag g.vertices v ≡ true → Reached g v)
    × ((v : ℕ) → In v xs → flag g.vertices v ≡ true × v < g.vertex_count)
    × ((v : ℕ) → flag g.vertices v ≡ true → In v xs ⊎ Closed g v)
    × length xs + unvisited g.vertices ≤ g.capacity
    × ((v : ℕ) → label_of g.vertices v ≡ lab v)

-- The graph `g'` that the search leaves of `g`, having visited the vertices `order`.
abbrev pub Finished : Graph → Graph → List ℕ → Type 0
Finished g g' order =
    ((v : ℕ) → flag g'.vertices v ≡ true → Reached g v)
    × ((v : ℕ)
        → flag g'.vertices v ≡ true
        → (j : ℕ) → j < g.vertex_count
        → edge g v j ≡ true
        → flag g'.vertices j ≡ true)
    × ((v : ℕ) → flag g.vertices v ≡ true → flag g'.vertices v ≡ true)
    × Distinct order
    × ((v : ℕ) → In v order → (flag g.vertices v ≡ false) × (flag g'.vertices v ≡ true))
    × ((v : ℕ) → flag g.vertices v ≡ false → flag g'.vertices v ≡ true → In v order)

-- Nothing is left on the worklist.
pub Finished-none : (g : Graph) (lab : ℕ → ℕ) → Inv g [] lab → Finished g g []
Finished-none g lab (s, r, w, c, n, l) = (
  r,
  λ v f. elim (c v f) [ inl i ↦ absurd i | inr k ↦ k ],
  λ v f. f,
  tt,
  λ v i. absurd i,
  λ v f t. let e = sym f ∙ t in cc,
)

-- The vertex `x` has no adjacent vertex left.
pub Inv-pop :
    (g : Graph) (x : ℕ) (xs : List ℕ) (lab : ℕ → ℕ) → Inv g (x ∷ xs) lab → Closed g x → Inv g xs lab
Inv-pop g x xs lab (s, r, w, c, n, l) k = (
  s,
  r,
  λ v i. w v (inr i),
  λ v f. elim (c v f) [
    | inl (inl e) ↦ inr (subst (Closed g) (sym e) k)
    | inl (inr i) ↦ inl i
    | inr d ↦ inr d
  ],
  omega (arith, n),
  l,
)

module _ (g : Graph) (x j : ℕ) (xs ys : List ℕ) (lab : ℕ → ℕ) (inv : Inv g (x ∷ xs) lab)
    (hj : j < g.vertex_count) (he : edge g x j ≡ true) (hf : flag g.vertices j ≡ false)
    (size : length ys ≡ suc (length (x ∷ xs)))
    (from_ys : (v : ℕ) → In v ys → (v ≡ j) ⊎ In v (x ∷ xs))
    (to_ys : (v : ℕ) → (v ≡ j) ⊎ In v (x ∷ xs) → In v ys) where
  abbrev pub g1 : Graph
  g1 = record g { vertices = marked j g.vertices }

  inside : j < length g.vertices
  inside = omega (arith, hj, inv.0.0, inv.0.1)

  -- The adjacent vertex `j` is visited and joins the worklist.
  pub Inv-push : Inv g1 ys lab
  Inv-push = (
    IsGraph-marked j g inv.0,
    λ v f. elim (same_or_other v j) [
      | inl e ↦ subst (Reached g) (sym e) (Reach.along (inv.1 x (inv.2 x (inl refl)).0) hj he)
      | inr n ↦ inv.1 v (sym (flag-marked_other g.vertices j v n) ∙ f)
    ],
    λ v i. elim (from_ys v i) [
      | inl e ↦
          subst (λ u. flag (marked j g.vertices) u ≡ true × u < g.vertex_count) (sym e)
            (flag-marked_self g.vertices j inside, hj)
      | inr k ↦ let (f, l) = inv.2 v k in (visited-marked g.vertices j v inside f, l)
    ],
    λ v f. elim (same_or_other v j) [
      | inl e ↦ inl (to_ys v (inl e))
      | inr n ↦ elim (inv.3 v (sym (flag-marked_other g.vertices j v n) ∙ f)) [
        | inl k ↦ inl (to_ys v (inr k))
        | inr c ↦ inr (λ u l e. visited-marked g.vertices j u inside (c u l e))
      ]
    ],
    omega (arith, inv.4, size, unvisited-marked g.vertices j inside hf),
    λ v. label_of-marked g.vertices j v ∙ inv.5 v,
  )

  -- What is visited after it, and `j`.
  pub Finished-push :
      (g' : Graph) (order : List ℕ) → Finished g1 g' order → Finished g g' (j ∷ order)
  Finished-push g' order (r, c, m, d, o, p) = (
    r,
    c,
    λ v f. m v (visited-marked g.vertices j v inside f),
    (λ i. let e = sym (o j i).0 ∙ flag-marked_self g.vertices j inside in cc, d),
    λ v i. elim i [
      | inl e ↦
          subst (λ u. (flag g.vertices u ≡ false) × (flag g'.vertices u ≡ true)) (sym e)
            (hf, m j (flag-marked_self g.vertices j inside))
      | inr k ↦ (not_before v (o v k).0, (o v k).1)
    ],
    λ v f t. elim (same_or_other v j) [
      | inl e ↦ inl e
      | inr n ↦ inr (p v (flag-marked_other g.vertices j v n ∙ f) t)
    ],
  )
    where
      not_before : (v : ℕ) → flag (marked j g.vertices) v ≡ false → flag g.vertices v ≡ false
      not_before v f = elim (Bool-cases (flag g.vertices v)) [
        | inl t ↦ let e = sym f ∙ visited-marked g.vertices j v inside t in cc
        | inr n ↦ n
      ]
