-- ===== src/Graph/Search.antt =====
-- `depthFirstSearch` and `breadthFirstSearch`: the same loop over a stack and over a queue.
use diversity.Prelude.Int.{ℤ, pos}
use diversity.Graph.{negsuc}
use diversity.Prelude.{ℕ, zero, suc, Option, none, some, List, [], ◌∷◌, if◌then◌else◌, ◌>>=◌}
use diversity.Stacks
use diversity.Stacks.{Stack, new_stack}
use diversity.Graph.{Graph, get_adj_unvisited_vertex, visit, index}
use diversity.Graph.Queue
use diversity.Graph.Queue.{Queue, new_queue, enqueue, dequeue}
use diversity.Graph.Worklist.{Worklist}

abbrev pub stack_work : Worklist Stack
stack_work = record {
  is_empty = Stacks.is_empty;
  peek = Stacks.peek;
  push = Stacks.push;
  pop = λ s. (do r ← Stacks.pop s; some r.1);
}

abbrev pub queue_work : Worklist Queue
queue_work = record {
  is_empty = Queue.is_empty;
  peek = Queue.peek;
  push = enqueue;
  pop = λ q. (do r ← dequeue q; some r.1);
}

-- The graph with its flags, and the labels that are displayed.
abbrev pub Shown : Type 0
Shown = Graph × List ℕ

module _ {S : Type 0} (w : Worklist S) where
  unfoldable pub search_loop : ℕ → S → Graph → Option Shown
  search_loop zero s g = none
  search_loop (suc fuel) s g =
      let turn = (do
        top ← w.peek s
        i ← index top
        j ← get_adj_unvisited_vertex g i
        elim j [
          | pos n ↦ do
            (g', label) ← visit n g
            s' ← w.push (pos n) s
            (g'', labels) ← search_loop fuel s' g'
            some (g'', label ∷ labels)
          | negsuc n ↦ do s' ← w.pop s; search_loop fuel s' g
        ]) in
      if w.is_empty s then some (g, []) else turn

  -- From the vertex 0, on an empty `s`.
  unfoldable pub search_from : ℕ → S → Graph → Option Shown
  search_from fuel s g = do
    (g', label) ← visit 0 g
    s' ← w.push (pos 0) s
    (g'', labels) ← search_loop fuel s' g'
    some (g'', label ∷ labels)

-- `cells` is what the array of the stack or the queue holds when it is allocated.
unfoldable pub depth_first_search : ℕ → List ℤ → Graph → Option Shown
depth_first_search fuel cells g = search_from stack_work fuel (new_stack g.capacity cells 0) g

unfoldable pub breadth_first_search : ℕ → List ℤ → Graph → Option Shown
breadth_first_search fuel cells g = search_from queue_work fuel (new_queue g.capacity cells) g
