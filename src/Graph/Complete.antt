-- ===== src/Graph/Complete.antt =====
-- Both searches from a graph with no vertex visited.
use diversity.Prelude.Int.{pos}
use diversity.Graph.Search.{depth_first_search, breadth_first_search}
use diversity.Graph.{visit}
use diversity.Graph.Adjacent.{edge}
use diversity.Graph.Queue.{new_queue}
use diversity.Stacks.{new_stack}
use diversity.Graph.Search.{search_loop}
use diversity.Prelude.Int.{ℤ}
use diversity.Graph.Search.{stack_work, queue_work}
use diversity.Graph.Laws.{HoldsStack, HoldsQueue}
use diversity.Graph.Laws.{queue-Laws, stack-Laws}
use diversity.Prelude.{
  ℕ, suc, ◌+◌, ◌≤◌, ◌<◌, ◌≡◌, refl, sym, ◌∙◌, subst, ◌⊎◌, inl, inr, Bool, true, false, Option, some,
  List, [], ◌∷◌, map, arith, if◌then◌else◌, length,
}
use diversity.Graph.{Vertex, Graph}
use diversity.Graph.Reach.{Reach}
use diversity.Graph.Adjacent.{IsGraph, flag}
use diversity.Graph.Worklist.{Worklist, In, Laws}
use diversity.Graph.Search.{Shown, search_from}
use diversity.Graph.Visit.{
  marked, label_of, unvisited, visit-marked, flag-marked_self, flag-marked_other, label_of-marked,
  unvisited-marked, IsGraph-marked, same_or_other,
}
use diversity.Graph.Loop.{Distinct, Reached, Inv, Finished, g1}
use diversity.Graph.Found.{search_loop-Returns}

-- The search prints the labels of the vertices that can be reached from the vertex 0, each once.
abbrev pub Displays : Graph → Option Shown → Type 0
Displays g o =
    (g' : Graph) × (order : List ℕ) × (o ≡ some (g', map (label_of g.vertices) order))
    × (Distinct order × ((v : ℕ) → In v order → Reached g v) × ((v : ℕ) → Reached g v → In v order))

-- No vertex is visited.
abbrev pub Unvisited : Graph → Type 0
Unvisited g = (v : ℕ) → flag g.vertices v ≡ false

unvisited-length : (vs : List Vertex) → unvisited vs ≤ length vs
unvisited-length [] = omega arith
unvisited-length (v ∷ vs) = bounded_by v.visited (unvisited-length vs)
  where
    bounded_by : (b : Bool) {m n : ℕ} → m ≤ n → (if b then 0 else 1) + m ≤ suc n
    bounded_by true h = omega (arith, h)
    bounded_by false h = omega (arith, h)

Reached-flag :
    (g g' : Graph) (v : ℕ)
    → ((v : ℕ)
        → flag g'.vertices v ≡ true
        → (j : ℕ) → j < g.vertex_count
        → edge g v j ≡ true
        → flag g'.vertices j ≡ true)
    → flag g'.vertices 0 ≡ true
    → Reached g v
    → flag g'.vertices v ≡ true
Reached-flag g g' v c z Reach.start = z
Reached-flag g g' v c z (Reach.along {i} {j} r l e) = c i (Reached-flag g g' i c z r) j l e

module _ (g : Graph) (none_yet : Unvisited g) (inside : 0 < length g.vertices) where
  abbrev started : Graph
  started = record g { vertices = marked 0 g.vertices }

  only_first : (v : ℕ) → flag (marked 0 g.vertices) v ≡ true → v ≡ 0
  only_first v f = elim (same_or_other v 0) [
    | inl e ↦ e
    | inr n ↦ let e = sym (none_yet v) ∙ sym (flag-marked_other g.vertices 0 v n) ∙ f in cc
  ]

  -- Before the loop.
  started-Inv :
      (ys : List ℕ)
      → IsGraph g
      → 0 < g.vertex_count
      → ((v : ℕ) → In v ys → (v ≡ 0) ⊎ ⊥)
      → ((v : ℕ) → (v ≡ 0) ⊎ ⊥ → In v ys)
      → length ys + unvisited (marked 0 g.vertices) ≤ g.capacity
      → Inv started ys (label_of g.vertices)
  started-Inv ys is p from_ys to_ys room = (
    IsGraph-marked 0 g is,
    λ v f. subst (Reached g) (sym (only_first v f)) Reach.start,
    λ v i. elim (from_ys v i) [
      | inl e ↦
          subst (λ u. flag (marked 0 g.vertices) u ≡ true × u < g.vertex_count) (sym e)
            (flag-marked_self g.vertices 0 inside, p)
      | inr b ↦ absurd b
    ],
    λ v f. inl (to_ys v (inl (only_first v f))),
    room,
    λ v. label_of-marked g.vertices 0 v,
  )

  -- After it.
  finished :
      (g' : Graph) (order : List ℕ)
      → Finished started g' order
      → Distinct (0 ∷ order)
        × ((v : ℕ) → In v (0 ∷ order) → Reached g v)
        × ((v : ℕ) → Reached g v → In v (0 ∷ order))
  finished g' order (r, c, m, d, o, p) =
      let zero_flag = m 0 (flag-marked_self g.vertices 0 inside) in
      (
        (λ i. let e = sym (o 0 i).0 ∙ flag-marked_self g.vertices 0 inside in cc, d),
        λ v i. elim i [ inl e ↦ subst (Reached g) (sym e) Reach.start | inr k ↦ r v (o v k).1 ],
        λ v reached. elim (same_or_other v 0) [
          | inl e ↦ inl e
          | inr n ↦ inr (
              p v (flag-marked_other g.vertices 0 v n ∙ none_yet v)
                (Reached-flag g g' v c zero_flag reached))
        ],
      )

module _ {S : Type 0} (w : Worklist S) (room : ℕ) (Holds : S → List ℕ → Type 0)
    (laws : Laws S w room Holds) where
  search_from_known :
      (fuel : ℕ) (s s' : S) (g g1 g' : Graph) (label : ℕ) (labels : List ℕ)
      → visit 0 g ≡ some (g1, label)
      → w.push (pos 0) s ≡ some s'
      → search_loop w fuel s' g1 ≡ some (g', labels)
      → search_from w fuel s g ≡ some (g', label ∷ labels)
  unfolding search_from
  search_from_known fuel s s' g g1 g' label labels v q r = rw (v, q, r) refl

  search_from-Displays :
      (fuel : ℕ) (s : S) (g : Graph)
      → g.capacity ≡ room
      → Holds s []
      → IsGraph g
      → Unvisited g
      → 0 < g.vertex_count
      → g.capacity + g.capacity ≤ fuel
      → Displays g (search_from w fuel s g)
  unfolding search_from
  search_from-Displays fuel s g hr h is none_yet p f =
      let inside : 0 < length g.vertices = omega (arith, p, is.0, is.1) in
      let less = unvisited-marked g.vertices 0 inside (none_yet 0) in
      let all = unvisited-length g.vertices in
      let (s', ys, q, hy, size, from_ys, to_ys) =
        laws.push-added s 0 [] h (omega (arith, hr, p, is.0)) in
      let (g', order, r, done) =
        search_loop-Returns w room Holds laws fuel s' ys (started g none_yet inside)
          (label_of g.vertices) hr hy
          (started-Inv g none_yet inside ys is p from_ys to_ys
            (omega (arith, all, less, size, is.1)))
          (omega (arith, all, less, size, f, is.1)) in
      (
        g',
        0 ∷ order,
        search_from_known fuel s s' g (started g none_yet inside) g' (label_of g.vertices 0)
            (map (label_of g.vertices) order) (visit-marked 0 g inside) q r,
        finished g none_yet inside g' order done,
      )

-- In a graph with a vertex 0, arrays of its capacity and no vertex visited, depthFirstSearch and breadthFirstSearch end, within
-- twice as many turns as the capacity, with no access outside an array. Each
-- displays the labels of the vertices that edges lead to from the vertex 0, all of them, each once, and no others.
pub searches-Displays :
    (fuel : ℕ) (cells : List ℤ) (g : Graph)
    → IsGraph g
    → Unvisited g
    → 0 < g.vertex_count
    → length cells ≡ g.capacity
    → g.capacity + g.capacity ≤ fuel
    → Displays g (depth_first_search fuel cells g) × Displays g (breadth_first_search fuel cells g)
unfolding depth_first_search breadth_first_search new_stack new_queue
searches-Displays fuel cells g is none_yet p l f = (
  search_from-Displays stack_work g.capacity (HoldsStack g.capacity) (stack-Laws g.capacity) fuel
      (new_stack g.capacity cells 0) g refl ((omega arith, l), refl, refl) is none_yet p f,
  search_from-Displays queue_work g.capacity (HoldsQueue g.capacity) (queue-Laws g.capacity) fuel
      (new_queue g.capacity cells) g refl ((omega arith, l), refl, refl) is none_yet p f,
)
