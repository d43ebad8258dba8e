-- ===== src/Graph/Tests.antt =====
-- The graph of `main`, built and searched, and the theorem on a smaller one.
use diversity.Prelude.Int.{ℤ, pos}
use diversity.Prelude.{
  ℕ, zero, suc, ◌≡◌, refl, false, Option, none, some, List, [], ◌∷◌, arith, ◌>>=◌, replicate,
}
use diversity.Stacks.{new_stack}
use diversity.Stacks
use diversity.Graph.{Graph, add_vertex, add_edge, adjacent_from, get_adj_unvisited_vertex, visit}
use diversity.Graph.Queue
use diversity.Graph.Queue.{Queue, new_queue, is_full, is_empty, enqueue, move_up, dequeue, peek}
use diversity.Graph.Search.{
  Shown, search_loop, search_from, depth_first_search, breadth_first_search,
}
use diversity.Graph.Complete.{Displays, Unvisited, searches-Displays}

abbrev zeros : ℕ → List ℤ
zeros n = replicate n (pos 0)

abbrev empty_graph : ℕ → Graph
empty_graph n = record {
  vertices = replicate n (record { label = 0; visited = false });
  adj_matrix = replicate n (zeros n);
  vertex_count = 0;
  capacity = n;
}

-- S, A, B, C and D, and their edges.
abbrev main_graph : Option Graph
main_graph = do
  g1 ← add_vertex 83 (empty_graph 5)
  g2 ← add_vertex 65 g1
  g3 ← add_vertex 66 g2
  g4 ← add_vertex 67 g3
  g5 ← add_vertex 68 g4
  e1 ← add_edge 0 1 g5
  e2 ← add_edge 0 2 e1
  e3 ← add_edge 0 3 e2
  e4 ← add_edge 1 4 e3
  e5 ← add_edge 2 4 e4
  add_edge 3 4 e5

abbrev labels : Option Shown → List ℕ
labels none = []
labels (some r) = r.1

main_depth : labels (main_graph >>= depth_first_search 10 (zeros 5)) ≡ 83 ∷ 65 ∷ 68 ∷ 66 ∷ 67 ∷ []
unfolding add_vertex add_edge depth_first_search search_from search_loop get_adj_unvisited_vertex
    adjacent_from visit new_stack Stacks.push Stacks.pop Stacks.peek Stacks.is_empty
main_depth = refl

main_breadth :
    labels (main_graph >>= breadth_first_search 10 (zeros 5)) ≡ 83 ∷ 65 ∷ 66 ∷ 67 ∷ 68 ∷ []
unfolding add_vertex add_edge breadth_first_search search_from search_loop get_adj_unvisited_vertex
    adjacent_from visit new_queue enqueue dequeue move_up Queue.peek Queue.is_empty is_full
main_breadth = refl

-- Two vertices with an edge, and one that no edge leads to.
abbrev small_graph : Graph
small_graph = record {
  vertices =
      record { label = 83; visited = false }
      ∷ record { label = 65; visited = false }
      ∷ record { label = 66; visited = false }
      ∷ [];
  adj_matrix =
      (pos 0 ∷ pos 1 ∷ pos 0 ∷ [])
      ∷ (pos 1 ∷ pos 0 ∷ pos 0 ∷ [])
      ∷ (pos 0 ∷ pos 0 ∷ pos 0 ∷ [])
      ∷ [];
  vertex_count = 3;
  capacity = 3;
}

small-Unvisited : Unvisited small_graph
small-Unvisited zero = refl
small-Unvisited (suc zero) = refl
small-Unvisited (suc (suc zero)) = refl
small-Unvisited (suc (suc (suc v))) = refl

searches-Displays_example :
    Displays small_graph (depth_first_search 6 (zeros 3) small_graph)
    × Displays small_graph (breadth_first_search 6 (zeros 3) small_graph)
searches-Displays_example =
    searches-Displays 6 (zeros 3) small_graph (omega arith, refl, refl, (refl, (refl, (refl, tt))))
      small-Unvisited (omega arith) refl (omega arith)
