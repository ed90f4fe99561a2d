-- ===== src/Indexer/Diff.antt =====
-- pkg/indexer/diff.go: only the difference between the resolved graph and the stored one is queued.
pub mod Entries
pub mod Queue
pub mod Fits
pub mod Cleared
pub mod Refresh
use graph_context.Base.{
  ℕ, List, [], ◌∷◌, ◌++◌, Str, Bool, true, false, Option, none, some, str_eq, nat_beq, lookup,
  insert, map, Comparable, ◌≡◌, if◌then◌else◌,
}
use graph_context.Store.Types.{
  Node, node_id, Edge, EdgeKey, key_of, edge_key_eq, Node-discrete, Edge-discrete,
}
use graph_context.Store.Db.{Db, Batch}
use graph_context.Store.Query.{all_nodes, all_edges}

-- The graph that the resolver produced.
pub record Resolution : Type 0 where
  pub nodes : List Node
  pub edges : List Edge

-- normalizeEdge: the default that the store applies on write.
unfoldable pub normalize_edge : Edge → Edge
normalize_edge e = if nat_beq e.candidate_count 0 then record e { candidate_count = 1 } else e

unfoldable pub queue_unless : {V : Type 0} {old v : V} → Dec (old ≡ v) → List V
queue_unless (yes _) = []
queue_unless {v} (no _) = v ∷ []

-- The loops over the nodes and over the edges are the same but for the key.
module _ {K V : Type 0} ⦃e : Comparable K⦄ (key : V → K) where
  -- The map of a slice: a later entry takes the place of an earlier one with its key.
  unfoldable pub index_by : List V → List (K × V) → List (K × V)
  index_by [] m = m
  index_by (v ∷ vs) m = index_by vs (insert (key v) v m)

  -- The stored entries that the new graph lacks.
  unfoldable pub gone : List (K × V) → List V → List V
  gone new [] = []
  gone new (v ∷ vs) =
      let rest = gone new vs in elim (lookup (key v) new) [ none ↦ v ∷ rest | some _ ↦ rest ]

  -- `if old, ok := stored[k]; !ok || old != new[k]`: then what the new map holds is queued.
  unfoldable pub changed_one : Discrete V → Option V → Option V → List V
  unfolding queue_unless
  changed_one dec old none = []
  changed_one dec none (some v) = v ∷ []
  changed_one dec (some old) (some v) = queue_unless (dec old v)

  -- In the order of the resolver's slice, to keep the write order stable.
  unfoldable pub changed : Discrete V → List (K × V) → List (K × V) → List V → List V
  unfolding changed_one
  changed dec stored new [] = []
  changed dec stored new (v ∷ vs) =
      changed_one dec (lookup (key v) stored) (lookup (key v) new) ++ changed dec stored new vs

unfoldable pub queue_graph_diff : Db → Batch → Resolution → Batch
unfolding normalize_edge index_by gone changed all_nodes all_edges
queue_graph_diff db b res =
    let old_nodes = all_nodes db in
    let old_edges = all_edges db in
    let new_nodes = index_by node_id res.nodes [] in
    let new_edges = index_by key_of (map normalize_edge res.edges) [] in
    let stored_nodes = index_by node_id old_nodes [] in
    let stored_edges = index_by key_of old_edges [] in
    record b {
      deleted_nodes = b.deleted_nodes ++ map node_id (gone node_id new_nodes old_nodes);
      deleted_edges = b.deleted_edges ++ gone key_of new_edges old_edges;
      nodes = b.nodes ++ changed node_id Node-discrete stored_nodes new_nodes res.nodes;
      edges = b.edges ++ changed key_of Edge-discrete stored_edges new_edges res.edges;
    }
