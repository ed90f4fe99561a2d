-- ===== src/Analysis/Trace/Reference.antt =====
-- The whole tree of the calls to a depth, with no limit on their number.
use graph_context.Base.{
  ℕ, zero, suc, ◌+◌, List, [], ◌∷◌, Str, str_eq, Bool, contains, lookup, get_list, keep, map,
  if◌then◌else◌, ◌==◌, sort_by,
}
use graph_context.Store.Types.{Edge, edge_calls, edge_kind_eq}
use graph_context.Analysis.Graph.{Graph}
use graph_context.Analysis.Trace.{
  TraceNode, trace_node, TraceNodes, no_calls, call_then, label_of, call_less,
}

abbrev pub of_list : List TraceNode → TraceNodes
of_list [] = no_calls
of_list (t ∷ ts) = call_then t (of_list ts)

abbrev pub is_call : Edge → Bool
is_call e = e.kind == edge_calls

-- A vertex that stands on the path to it is marked and not followed; any other has its calls, by
-- line and target, as long as there is depth.
abbrev pub whole_trace : Graph → ℕ → List Str → Str → ℕ → TraceNode
whole_trace g zero path id line =
    trace_node (label_of (lookup id g.nodes) id line (contains path id)) no_calls
whole_trace g (suc left) path id line =
    let calls = of_list (
      map (λ e. whole_trace g left (id ∷ path) e.target_id e.line)
        (keep is_call (sort_by call_less (get_list id g.out)))) in
    trace_node (label_of (lookup id g.nodes) id line (contains path id))
      (if contains path id then no_calls else calls)

unfoldable mutual
  -- The number of the calls in a tree.
  pub call_count : TraceNode → ℕ
  call_count (trace_node l ts) = call_count_all ts

  pub call_count_all : TraceNodes → ℕ
  call_count_all no_calls = 0
  call_count_all (call_then t ts) = suc (call_count t + call_count_all ts)
