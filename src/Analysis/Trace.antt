-- ===== src/Analysis/Trace.antt =====
-- pkg/analysis/algorithms.go: Trace, the tree of the calls from an entry. `path` of the source holds
-- the IDs from the entry down to the vertex, and is handed down here. A negative depth or limit acts
-- as 0.
pub mod Reference
pub mod Budget
pub mod Correct
use graph_context.Base.{
  ℕ, zero, suc, ◌-◌, List, [], ◌∷◌, Str, str_eq, str_lt, Bool, true, false, not, Option, none, some,
  ltb, nat_beq, contains, lookup, get_list, if◌then◌else◌, ◌==◌, sort_by,
}
use graph_context.Store.Types.{Node, NodeKind, Edge, edge_calls, edge_kind_eq}
use graph_context.Analysis.Graph.{Graph}

-- What a node of the tree says of itself; the kind of an unknown ID is empty.
pub record Label : Type 0 where
  pub id : Str
  pub name : Str
  pub kind : Option NodeKind
  pub file : Str
  pub call_line : ℕ
  pub cycle : Bool

mutual
  pub data TraceNode : Type 0 where
    trace_node : Label → TraceNodes → TraceNode

  pub data TraceNodes : Type 0 where
    no_calls : TraceNodes
    call_then : TraceNode → TraceNodes → TraceNodes

-- The calls that are left to be listed, and whether one was left out.
pub record Purse : Type 0 where
  pub budget : ℕ
  pub truncated : Bool

abbrev pub label_of : Option Node → Str → ℕ → Bool → Label
label_of none id line cycle = record {
  id = id;
  name = [];
  kind = none;
  file = [];
  call_line = line;
  cycle = cycle;
}
label_of (some n) id line cycle = record {
  id = id;
  name = n.name;
  kind = some n.kind;
  file = n.file_path;
  call_line = line;
  cycle = cycle;
}

abbrev pub call_less : Edge → Edge → Bool
call_less a b = if nat_beq a.line b.line then str_lt a.target_id b.target_id else ltb a.line b.line

-- The loop over the edges, with the call of `walk` for an edge.
unfoldable pub visit_calls :
    (Edge → Purse → TraceNode × Purse) → List Edge → Purse → TraceNodes × Purse
visit_calls walk [] s = (no_calls, s)
visit_calls walk (e ∷ es) s =
    let skipped = visit_calls walk es s in
    let child = walk e (record s { budget = s.budget - 1 }) in
    let rest = visit_calls walk es child.1 in
    if not (e.kind == edge_calls)
    then skipped
    else if nat_beq s.budget 0
    then (no_calls, record s { truncated = true })
    else (call_then child.0 rest.0, rest.1)

-- `walk`, with the depth that is left.
unfoldable pub walk : Graph → ℕ → List Str → Str → ℕ → Purse → TraceNode × Purse
unfolding visit_calls
walk g zero path id line s =
    (trace_node (label_of (lookup id g.nodes) id line (contains path id)) no_calls, s)
walk g (suc left) path id line s =
    let calls =
      visit_calls (λ e. walk g left (id ∷ path) e.target_id e.line)
        (sort_by call_less (get_list id g.out)) s in
    let label = label_of (lookup id g.nodes) id line (contains path id) in
    if contains path id then (trace_node label no_calls, s) else (trace_node label calls.0, calls.1)

unfoldable pub trace : Graph → Str → ℕ → ℕ → TraceNode × Bool
unfolding walk
trace g entry max_depth limit =
    let r = walk g max_depth [] entry 0 (record { budget = limit; truncated = false }) in
    (r.0, r.1.truncated)
