-- ===== src/Tests/Analysis.antt =====
-- pkg/analysis at the shared graph.
use graph_context.Base.{
  ◌≡◌, refl, ◌↔◌, List, [], ◌∷◌, Str, bytes, str_eq, true, false, some, none, map, keep, lookup,
  get_list, length, IsSortedBy, Memᴰ,
}
use graph_context.Store.Types.{Node}
use graph_context.Analysis.Graph.{new_graph, edge_count}
use graph_context.Analysis.Graph.Laws.{from, into, last_with, new_graph_lem, edge_count-new_graph}
use graph_context.Analysis.Reach.{Reached, reverse_reach, forward_reach, callers_view, callees_view}
use graph_context.Analysis.Reach.Levels.{Outcome}
use graph_context.Analysis.Reach.Correct.{reverse_reach-Outcome, forward_reach-Outcome}
use graph_context.Analysis.DeadCode.{roots, id_less, dead_candidates}
use graph_context.Analysis.DeadCode.Correct.{IsDead, dead_candidates_lem}
use graph_context.Analysis.Paths.{paths_between}
use graph_context.Analysis.Paths.Correct.{PathsOutcome, paths_between-PathsOutcome}
use graph_context.Base.{◌⊎◌, ◌≤◌, ◌<◌}
use graph_context.Analysis.Trace.{trace}
use graph_context.Analysis.Trace.Reference.{whole_trace, call_count}
use graph_context.Analysis.Trace.Correct.{trace-whole_trace}
use graph_context.Analysis.Neighborhood.{neighborhood}
use graph_context.Analysis.Neighborhood.Correct.{Subgraph, neighborhood-Subgraph}
use graph_context.Analysis.Condense.{weight_of, weigh_all, module_edges}
use graph_context.Analysis.Condense.Weights.{edges_of, edge_crosses, weight_of-weigh_all}
use graph_context.Tests.Data.{unused, some_nodes, some_edges}

abbrev node_ids : List Reached → List Str
node_ids rs = map (λ r. r.node.id) rs

calls_from_main :
    (node_ids (forward_reach (new_graph some_nodes some_edges) (bytes "main") (λ _. true) 5 9).0)
    ≡ bytes "helper" ∷ bytes "leaf" ∷ []
unfolding forward_reach new_graph
calls_from_main = refl

nothing_calls_unused : dead_candidates (new_graph some_nodes some_edges) ≡ some (1, unused ∷ [])
unfolding dead_candidates new_graph
nothing_calls_unused = refl

new_graph_lem_example :
    (get_list (bytes "helper") (new_graph some_nodes some_edges).out
      ≡ keep (from (bytes "helper")) some_edges)
    × (get_list (bytes "helper") (new_graph some_nodes some_edges).in_edges
        ≡ keep (into (bytes "helper")) some_edges)
    × (lookup (bytes "helper") (new_graph some_nodes some_edges).nodes
        ≡ last_with (bytes "helper") some_nodes none)
new_graph_lem_example = new_graph_lem (bytes "helper") some_nodes some_edges

edge_count-new_graph_example : edge_count (new_graph some_nodes some_edges) ≡ length some_edges
edge_count-new_graph_example = edge_count-new_graph some_nodes some_edges

reverse_reach-Outcome_example :
    Outcome
      (callers_view (new_graph some_nodes some_edges) (λ _. true) 9)
      (bytes "leaf")
      3
      (reverse_reach (new_graph some_nodes some_edges) (bytes "leaf") (λ _. true) 3 9)
reverse_reach-Outcome_example =
    reverse_reach-Outcome (new_graph some_nodes some_edges) (bytes "leaf") (λ _. true) 3 9

forward_reach-Outcome_example :
    Outcome
      (callees_view (new_graph some_nodes some_edges) (λ _. true) 1)
      (bytes "main")
      3
      (forward_reach (new_graph some_nodes some_edges) (bytes "main") (λ _. true) 3 1)
forward_reach-Outcome_example =
    forward_reach-Outcome (new_graph some_nodes some_edges) (bytes "main") (λ _. true) 3 1

dead_candidates_lem_example :
    (dead : List Node) × (dead_candidates (new_graph some_nodes some_edges)
      ≡ some (length (roots (new_graph some_nodes some_edges).nodes), dead))
    × ((n : Node) → Memᴰ n dead ↔ IsDead (new_graph some_nodes some_edges) n)
    × IsSortedBy id_less dead
dead_candidates_lem_example = dead_candidates_lem (new_graph some_nodes some_edges)

paths_between-PathsOutcome_example :
    PathsOutcome
      (new_graph some_nodes some_edges)
      (bytes "main")
      (bytes "leaf")
      4
      5
      (paths_between (new_graph some_nodes some_edges) (bytes "main") (bytes "leaf") 4 5)
paths_between-PathsOutcome_example =
    paths_between-PathsOutcome (new_graph some_nodes some_edges) (bytes "main") (bytes "leaf") 4 5

one_path :
    paths_between (new_graph some_nodes some_edges) (bytes "main") (bytes "leaf") 4 5
    ≡ ((bytes "main" ∷ bytes "helper" ∷ bytes "leaf" ∷ []) ∷ [], false)
unfolding paths_between new_graph
one_path = refl

trace-whole_trace_example :
    let whole = whole_trace (new_graph some_nodes some_edges) 5 [] (bytes "main") 0 in
    (((trace (new_graph some_nodes some_edges) (bytes "main") 5 2 ≡ (whole, false))
        × (call_count whole ≤ 2))
      ⊎ (((trace (new_graph some_nodes some_edges) (bytes "main") 5 2).1 ≡ true)
          × (2 < call_count whole)
          × (call_count (trace (new_graph some_nodes some_edges) (bytes "main") 5 2).0 ≡ 2)))
trace-whole_trace_example = trace-whole_trace (new_graph some_nodes some_edges) (bytes "main") 5 2

-- Main calls helper, and helper calls itself and leaf: the third call is over the limit.
third_call_cut : (trace (new_graph some_nodes some_edges) (bytes "main") 5 2).1 ≡ true
unfolding trace new_graph
third_call_cut = refl

neighborhood-Subgraph_example :
    Subgraph
      (new_graph some_nodes some_edges)
      (bytes "leaf")
      2
      3
      (neighborhood (new_graph some_nodes some_edges) (bytes "leaf") 2 3)
neighborhood-Subgraph_example =
    neighborhood-Subgraph (new_graph some_nodes some_edges) (bytes "leaf") 2 3

-- Leaf, helper that calls it, and main.
two_steps : length (neighborhood (new_graph some_nodes some_edges) (bytes "leaf") 2 3).nodes ≡ 3
unfolding neighborhood new_graph
two_steps = refl

weight_of-weigh_all_example :
    weight_of (bytes "main") (bytes "helper") (
      weigh_all
        (λ n. n.name)
        (new_graph some_nodes some_edges)
        (new_graph some_nodes some_edges).out
        [])
    ≡ length (
        keep
          (edge_crosses
            (λ n. n.name)
            (bytes "main")
            (bytes "helper")
            (new_graph some_nodes some_edges))
          (edges_of (new_graph some_nodes some_edges).out))
weight_of-weigh_all_example =
    weight_of-weigh_all (λ n. n.name) (bytes "main") (bytes "helper")
      (new_graph some_nodes some_edges)

two_module_edges : length (module_edges (λ n. n.name) (new_graph some_nodes some_edges)) ≡ 2
unfolding module_edges new_graph
two_module_edges = refl
