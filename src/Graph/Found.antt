-- ===== src/Graph/Found.antt =====
-- A search over any worklist that keeps its laws finds the vertices that edges lead to.
use diversity.Prelude.Int.{pos}
use diversity.Prelude.Int.{negsuc}
use diversity.Prelude.{
  ℕ, zero, suc, ◌+◌, ◌<◌, ◌≡◌, refl, sym, ap, ◌∙◌, subst, inl, inr, true, false, Option, some, List,
  [], ◌∷◌, map, arith, length,
}
use diversity.Graph.{Graph, get_adj_unvisited_vertex, visit}
use diversity.Graph.Adjacent.{get_adj-Adjacent}
use diversity.Graph.Worklist.{Worklist, Laws}
use diversity.Graph.Search.{Shown, search_loop}
use diversity.Graph.Visit.{marked, label_of, unvisited, visit-marked, unvisited-marked}
use diversity.Graph.Loop.{Inv, Finished, Finished-none, Inv-pop, g1, Inv-push, Finished-push}

-- What the loop returns.
abbrev Returns : Graph → (ℕ → ℕ) → Option Shown → Type 0
Returns g lab o =
    (g' : Graph) × (order : List ℕ) × (o ≡ some (g', map lab order)) × Finished g g' order

module _ {S : Type 0} (w : Worklist S) where
  loop_stop :
      (fuel : ℕ) (s : S) (g : Graph)
      → w.is_empty s ≡ true
      → search_loop w (suc fuel) s g ≡ some (g, [])
  unfolding search_loop
  loop_stop fuel s g e = rw e refl

  loop_pop :
      (fuel x : ℕ) (s s' : S) (g : Graph)
      → w.is_empty s ≡ false
      → w.peek s ≡ some (pos x)
      → get_adj_unvisited_vertex g x ≡ some (negsuc 0)
      → w.pop s ≡ some s'
      → search_loop w (suc fuel) s g ≡ search_loop w fuel s' g
  unfolding search_loop
  loop_pop fuel x s s' g e p a q = rw (e, p, a, q) refl

  loop_push :
      (fuel x j label : ℕ) (s s' : S) (g g1 g' : Graph) (labels : List ℕ)
      → w.is_empty s ≡ false
      → w.peek s ≡ some (pos x)
      → get_adj_unvisited_vertex g x ≡ some (pos j)
      → visit j g ≡ some (g1, label)
      → w.push (pos j) s ≡ some s'
      → search_loop w fuel s' g1 ≡ some (g', labels)
      → search_loop w (suc fuel) s g ≡ some (g', label ∷ labels)
  unfolding search_loop
  loop_push fuel x j label s s' g g1 g' labels e p a v q r = rw (e, p, a, v, q, r) refl

module _ {S : Type 0} (w : Worklist S) (room : ℕ) (Holds : S → List ℕ → Type 0)
    (laws : Laws S w room Holds) where
  pub search_loop-Returns :
      (fuel : ℕ) (s : S) (xs : List ℕ) (g : Graph) (lab : ℕ → ℕ)
      → g.capacity ≡ room
      → Holds s xs
      → Inv g xs lab
      → unvisited g.vertices + unvisited g.vertices + length xs < fuel
      → Returns g lab (search_loop w fuel s g)
  search_loop-Returns zero s xs g lab hr h inv f = absurd (omega (arith, f))
  search_loop-Returns (suc fuel) s [] g lab hr h inv f =
      (g, [], loop_stop w fuel s g (laws.none_left s h), Finished-none g lab inv)
  search_loop-Returns (suc fuel) s (x ∷ xs) g lab hr h inv f =
      let next = (inv.2 x (inl refl)).1 in
      let e = laws.some_left s x xs h in
      let p = laws.peek-next s x xs h in
      elim (get_adj-Adjacent g x inv.0 (omega (arith, next, inv.0.0))) [
        | inr (a, closed) ↦
            let (s', q, h') = laws.pop-next s x xs h in
            subst (Returns g lab) (sym (loop_pop w fuel x s s' g e p a q)) (
              search_loop-Returns fuel s' xs g lab hr h' (Inv-pop g x xs lab inv closed)
                (omega (arith, f)))
        | inl (j, a, hj, he, hf) ↦
            let inside : j < length g.vertices = omega (arith, hj, inv.0.0, inv.0.1) in
            let less = unvisited-marked g.vertices j inside hf in
            let (s', ys, q, hy, size, from_ys, to_ys) =
              laws.push-added s j (x ∷ xs) h (omega (arith, hr, inv.4, less)) in
            let g1 : Graph = record g { vertices = marked j g.vertices } in
            let (g', order, r, done) =
              search_loop-Returns fuel s' ys g1 lab hr hy
                (Inv-push g x j xs ys lab inv hj he hf size from_ys to_ys)
                (omega (arith, f, less, size)) in
            (
              g',
              j ∷ order,
              loop_push w fuel x j (label_of g.vertices j) s s' g g1 g' (map lab order) e p a
                    (visit-marked j g inside) q r
                  ∙ ap (λ n. some (g', n ∷ map lab order)) (inv.5 j),
              Finished-push g x j xs ys lab inv hj he hf size from_ys to_ys g' order done,
            )
      ]
