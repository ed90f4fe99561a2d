-- ===== src/Analysis/DeadCode.antt =====
-- pkg/analysis/deadcode.go: functions and methods that no root reaches by calls.
pub mod Rounds
pub mod Closure
pub mod Members
pub mod Correct
use graph_context.Base.{
  ℕ, zero, suc, ◌+◌, List, [], ◌∷◌, ◌++◌, Str, Bool, true, false, not, ◌&&◌, ◌||◌, Option, none,
  some, bytes, has_prefix, str_eq, contains, get_list, length, if◌then◌else◌, ◌==◌, str_lt, sort_by,
}
use graph_context.Store.Types.{
  Node, Edge, EdgeKind, edge_calls, edge_kind_eq, NodeKind, kind_file, kind_function, kind_method,
  EntrypointKind, entry_none,
}
use graph_context.Analysis.Graph.{Graph, edge_count}

abbrev is_file : NodeKind → Bool
is_file kind_file = true
is_file _ = false

abbrev has_entrypoint_kind : EntrypointKind → Bool
has_entrypoint_kind entry_none = false
has_entrypoint_kind _ = true

unfoldable pub is_root : Node → Bool
is_root n =
    if is_file n.kind
    then true
    else if n.is_entrypoint || n.is_test || has_entrypoint_kind n.entrypoint_kind
    then true
    else n.name == bytes "main"
      || has_prefix (bytes "Test") n.name
      || has_prefix (bytes "test_") n.name
      || has_prefix (bytes "__") n.name

abbrev pub is_callable : NodeKind → Bool
is_callable kind_function = true
is_callable kind_method = true
is_callable _ = false

-- The set of visited IDs and the next frontier.
pub record Sweep : Type 0 where
  pub visited : List Str
  pub next : List Str

-- The body of the innermost loop.
unfoldable pub visit : Sweep → Edge → Sweep
visit s e =
    if not (e.kind == edge_calls) || contains s.visited e.target_id
    then s
    else record { visited = e.target_id ∷ s.visited; next = s.next ++ e.target_id ∷ [] }

unfoldable pub sweep_edges : Sweep → List Edge → Sweep
unfolding visit
sweep_edges s [] = s
sweep_edges s (e ∷ es) = sweep_edges (visit s e) es

unfoldable pub sweep : Graph → Sweep → List Str → Sweep
unfolding sweep_edges
sweep g s [] = s
sweep g s (id ∷ ids) = sweep g (sweep_edges s (get_list id g.out)) ids

-- `for len(frontier) > 0`, on fuel; `none` means that the fuel ran out.
unfoldable pub close : Graph → ℕ → List Str → List Str → Option (List Str)
unfolding sweep
close g fuel visited [] = some visited
close g zero visited (id ∷ ids) = none
close g (suc fuel) visited (id ∷ ids) =
    let s = sweep g (record { visited = visited; next = [] }) (id ∷ ids) in
    close g fuel s.visited s.next

unfoldable pub roots : List (Str × Node) → List Str
unfolding is_root
roots [] = []
roots ((id, n) ∷ m) = let rest = roots m in if is_root n then id ∷ rest else rest

unfoldable pub unreached : List Str → List (Str × Node) → List Node
unreached visited [] = []
unreached visited ((id, n) ∷ m) =
    let rest = unreached visited m in
    if is_callable n.kind && not (contains visited id) then n ∷ rest else rest

abbrev pub id_less : Node → Node → Bool
id_less a b = str_lt a.id b.id

-- Each round but the last visits a target of some edge for the first time.
abbrev pub rounds : Graph → ℕ
rounds g = suc (edge_count g)

unfoldable pub dead_candidates : Graph → Option (ℕ × List Node)
unfolding roots close unreached edge_count
dead_candidates g =
    let start = roots g.nodes in
    elim (close g (rounds g) start start) [
      | none ↦ none
      | some visited ↦ some (length start, sort_by id_less (unreached visited g.nodes))
    ]
