-- ===== src/Analysis/Neighborhood.antt =====
-- pkg/analysis/algorithms.go: Neighborhood, the subgraph within a radius of a vertex, whichever way
-- the edges run. A negative radius or limit acts as 0.
pub mod Ball
pub mod Rounds
pub mod Parts
pub mod Correct
use graph_context.Base.{
  ℕ, zero, suc, List, [], ◌∷◌, ◌++◌, Str, str_eq, str_lt, Bool, true, false, Option, none, some,
  ltb, leb, contains, lookup, get_list, keep, map, length, if◌then◌else◌, ◌==◌, sort_by,
}
use graph_context.Store.Types.{Node, node_id, Edge}
use graph_context.Analysis.Graph.{Graph}

-- The variables of a round.
pub record Ring : Type 0 where
  pub visited : List Str
  pub ids : List Str
  pub next : List Str

-- `if !visited[v] { ... }`
unfoldable pub meet : Ring → Str → Ring
meet s v =
    if contains s.visited v
    then s
    else record { visited = v ∷ s.visited; ids = s.ids ++ v ∷ []; next = s.next ++ v ∷ [] }

unfoldable pub meet_all : Ring → List Str → Ring
unfolding meet
meet_all s [] = s
meet_all s (v ∷ vs) = meet_all (meet s v) vs

abbrev pub target_of : Edge → Str
target_of e = e.target_id

abbrev pub source_of : Edge → Str
source_of e = e.source_id

-- `for _, id := range frontier`
unfoldable pub spread : Graph → Ring → List Str → Ring
unfolding meet_all
spread g s [] = s
spread g s (id ∷ ids) =
    spread g
      (meet_all (meet_all s (map target_of (get_list id g.out)))
        (map source_of (get_list id g.in_edges)))
      ids

-- The rounds that the radius leaves; the IDs in the order in which they were met.
unfoldable pub ball : Graph → ℕ → List Str → List Str → List Str → List Str
unfolding spread
ball g zero visited ids frontier = ids
ball g (suc rounds) visited ids [] = ids
ball g (suc rounds) visited ids (id ∷ rest) =
    let s = spread g (record { visited = visited; ids = ids; next = [] }) (id ∷ rest) in
    ball g rounds s.visited s.ids s.next

abbrev pub seed_ids : Option Node → Str → List Str
seed_ids none seed = []
seed_ids (some n) seed = seed ∷ []

abbrev pub add_node : List Node → Option Node → List Node
add_node found none = found
add_node found (some n) = found ++ n ∷ []

-- `for _, id := range nodeIDs`, until the limit
unfoldable pub take_nodes : Graph → ℕ → List Node → List Str → List Node × Bool
take_nodes g limit found [] = (found, false)
take_nodes g limit found (id ∷ ids) =
    let rest = take_nodes g limit (add_node found (lookup id g.nodes)) ids in
    if leb limit (length found) then (found, true) else rest

-- The edges from the nodes to one another.
unfoldable pub inner_edges : Graph → List Str → List Node → List Edge
inner_edges g set [] = []
inner_edges g set (n ∷ ns) =
    keep (λ e. contains set e.target_id) (get_list n.id g.out) ++ inner_edges g set ns

abbrev pub node_less : Node → Node → Bool
node_less a b = str_lt a.id b.id

abbrev pub inner_less : Edge → Edge → Bool
inner_less a b =
    if a.source_id == b.source_id
    then if a.target_id == b.target_id then ltb a.line b.line else str_lt a.target_id b.target_id
    else str_lt a.source_id b.source_id

pub record NeighborhoodResult : Type 0 where
  pub nodes : List Node
  pub edges : List Edge
  pub truncated : Bool

unfoldable pub neighborhood : Graph → Str → ℕ → ℕ → NeighborhoodResult
unfolding ball take_nodes inner_edges
neighborhood g seed radius limit =
    let ids = ball g radius (seed ∷ []) (seed_ids (lookup seed g.nodes) seed) (seed ∷ []) in
    let taken = take_nodes g limit [] ids in
    record {
      nodes = sort_by node_less taken.0;
      edges = sort_by inner_less (inner_edges g (map node_id taken.0) taken.0);
      truncated = taken.1;
    }
