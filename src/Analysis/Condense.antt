-- ===== src/Analysis/Condense.antt =====
-- pkg/analysis/condense.go: the modules of a graph and the edges between them, by the group of a
-- node. The text that draws them is not modelled.
pub mod Weights
use graph_context.Base.{
  ℕ, suc, List, [], ◌∷◌, ◌++◌, Str, str_eq, str_lt, Bool, true, false, ◌||◌, Option, none, some,
  ltb, nat_beq, contains, lookup, insert, if◌then◌else◌, ◌==◌, sort_by,
}
use graph_context.Store.Types.{Node, Edge}
use graph_context.Analysis.Graph.{Graph}

pub record ModuleEdge : Type 0 where
  pub from : Str
  pub to : Str
  pub weight : ℕ

-- weights[from] and weights[from][to], as a missing key reads
abbrev pub row_of : Option (List (Str × ℕ)) → List (Str × ℕ)
row_of none = []
row_of (some row) = row

abbrev pub count_of : Option ℕ → ℕ
count_of none = 0
count_of (some n) = n

abbrev pub weight_of : Str → Str → List (Str × List (Str × ℕ)) → ℕ
weight_of from to ws = count_of (lookup to (row_of (lookup from ws)))

-- weights[from][to]++
unfoldable pub bump : Str → Str → List (Str × List (Str × ℕ)) → List (Str × List (Str × ℕ))
bump from to ws = insert from (insert to (suc (weight_of from to ws)) (row_of (lookup from ws))) ws

abbrev pub is_blank : Str → Bool
is_blank [] = true
is_blank (_ ∷ _) = false

module _ (group_of : Node → Str) where
  abbrev pub joins : Str → Str → Bool
  joins from to = is_blank from || is_blank to || from == to

  -- The ends of an edge that both have nodes; an edge within a module or outside all is passed over.
  unfoldable pub weigh :
      Option Node → Option Node → List (Str × List (Str × ℕ)) → List (Str × List (Str × ℕ))
  unfolding bump
  weigh (some s) (some t) ws =
      if joins (group_of s) (group_of t) then ws else bump (group_of s) (group_of t) ws
  weigh _ _ ws = ws

  unfoldable pub weigh_edges :
      Graph → List Edge → List (Str × List (Str × ℕ)) → List (Str × List (Str × ℕ))
  unfolding weigh
  weigh_edges g [] ws = ws
  weigh_edges g (e ∷ es) ws =
      weigh_edges g es (weigh (lookup e.source_id g.nodes) (lookup e.target_id g.nodes) ws)

  unfoldable pub weigh_all :
      Graph → List (Str × List Edge) → List (Str × List (Str × ℕ)) → List (Str × List (Str × ℕ))
  unfolding weigh_edges
  weigh_all g [] ws = ws
  weigh_all g ((_, es) ∷ m) ws = weigh_all g m (weigh_edges g es ws)

  -- The loop over the nodes.
  unfoldable pub collect_modules : List (Str × Node) → List Str → List Str
  collect_modules [] set = set
  collect_modules ((_, n) ∷ m) set =
      let named = if contains set (group_of n) then set else group_of n ∷ set in
      collect_modules m (if is_blank (group_of n) then set else named)

  unfoldable pub modules : Graph → List Str
  unfolding collect_modules
  modules g = sort_by str_lt (collect_modules g.nodes [])

abbrev pub row_edges : Str → List (Str × ℕ) → List ModuleEdge
row_edges from [] = []
row_edges from ((to, n) ∷ row) = record { from = from; to = to; weight = n } ∷ row_edges from row

abbrev pub flatten : List (Str × List (Str × ℕ)) → List ModuleEdge
flatten [] = []
flatten ((from, row) ∷ ws) = row_edges from row ++ flatten ws

-- Heavier edges first, then by name.
abbrev pub module_edge_less : ModuleEdge → ModuleEdge → Bool
module_edge_less a b =
    if nat_beq a.weight b.weight
    then if a.from == b.from then str_lt a.to b.to else str_lt a.from b.from
    else ltb b.weight a.weight

unfoldable pub module_edges : (Node → Str) → Graph → List ModuleEdge
unfolding weigh_all
module_edges group_of g = sort_by module_edge_less (flatten (weigh_all group_of g g.out []))
