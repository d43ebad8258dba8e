-- ===== src/Graph.antt =====
-- c++/src/graph.cpp: a graph as a matrix, and the searches that print the labels of the vertices. `none` is an access
-- outside an array, or fuel that ran out.
pub mod Queue
pub mod Worklist
pub mod Reach
pub mod Adjacent
pub mod Search
pub mod Visit
pub mod Loop
pub mod Found
pub mod Laws
pub mod Complete
mod Tests
use diversity.Prelude.Int.{ℤ, pos}
use diversity.Prelude.Int.{negsuc}
use diversity.Prelude.{
  ℕ, zero, suc, ◌+◌, Bool, true, false, ◌&&◌, not, Option, none, some, List, if◌then◌else◌, ◌>>=◌,
}
use diversity.Prelude.Arrays.{read, write}
use diversity.Searching.{eq_ℤ}

pub record Vertex : Type 0 where
  pub label : ℕ
  pub visited : Bool

pub record Graph : Type 0 where
  pub vertices : List Vertex
  pub adj_matrix : List (List ℤ)
  pub vertex_count : ℕ
  pub capacity : ℕ

-- `vertices` and `rows` are what the arrays that are allocated hold; the matrix is not cleared.
unfoldable pub new_graph : ℕ → List Vertex → List (List ℤ) → Graph
new_graph n vertices rows = record {
  vertices = vertices;
  adj_matrix = rows;
  vertex_count = 0;
  capacity = n;
}

unfoldable pub add_vertex : ℕ → Graph → Option Graph
add_vertex label g = do
  vs ← write g.vertices g.vertex_count (record { label = label; visited = false })
  some (record g { vertices = vs; vertex_count = g.vertex_count + 1 })

abbrev pub write_cell : List (List ℤ) → ℕ → ℕ → ℤ → Option (List (List ℤ))
write_cell rows i j v = do row ← read rows i; row' ← write row j v; write rows i row'

unfoldable pub add_edge : ℕ → ℕ → Graph → Option Graph
add_edge start end' g = do
  rows ← write_cell g.adj_matrix start end' (pos 1)
  rows' ← write_cell rows end' start (pos 1)
  some (record g { adj_matrix = rows' })

-- The loop from `i` on, with `k` turns left.
unfoldable pub adjacent_from : ℕ → ℕ → Graph → ℕ → Option ℤ
adjacent_from zero i g vertex = some (negsuc 0)
adjacent_from (suc k) i g vertex = do
  row ← read g.adj_matrix vertex
  e ← read row i
  v ← read g.vertices i
  (let rest = adjacent_from k (i + 1) g vertex in
      if eq_ℤ e (pos 1) && not v.visited then some (pos i) else rest)

unfoldable pub get_adj_unvisited_vertex : Graph → ℕ → Option ℤ
get_adj_unvisited_vertex g vertex = adjacent_from g.vertex_count 0 g vertex

-- `vertices[j].visited = true`, and the label that is displayed
unfoldable pub visit : ℕ → Graph → Option (Graph × ℕ)
visit j g = do
  v ← read g.vertices j
  vs ← write g.vertices j (record v { visited = true })
  some (record g { vertices = vs }, v.label)

-- An int as an index.
abbrev pub index : ℤ → Option ℕ
index (pos n) = some n
index (negsuc n) = none
