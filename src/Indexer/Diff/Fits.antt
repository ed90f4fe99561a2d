-- ===== src/Indexer/Diff/Fits.antt =====
-- pkg/indexer/diff.go: what the resolved graph has to meet, and what its difference deletes.
use graph_context.Base.{
  ◌≡◌, refl, List, [], ◌∷◌, Str, false, some, str_eq, lookup, map, contains, Memᴰ, arith, sort_by,
  values,
}
use graph_context.Store.Types.{
  Node, node_id, Edge, EdgeKey, key_of, edge_key_eq, FileRecord, FileIr,
}
use graph_context.Store.Db.{
  Db, Batch, new_batch, delete_edges, delete_nodes, remove_files, with_count,
}
use graph_context.Store.Query.{node_id_less, edge_less}
use graph_context.Indexer.Diff.{Resolution, normalize_edge, index_by, gone}

-- The nodes of a graph by ID, and its edges by key as the store keeps them.
abbrev pub node_map : Resolution → List (Str × Node)
node_map res = index_by node_id res.nodes []

abbrev pub edge_map : Resolution → List (EdgeKey × Edge)
edge_map res = index_by key_of (map normalize_edge res.edges) []

-- What the resolved graph has to meet: its edges run between its nodes, and what the store holds
-- under the ID of one of its nodes does not lie in a file that is gone.
pub record Fits (db : Db) (res : Resolution) (removed : List Str) : Type 0 where
  pub source : (e : Edge) → Memᴰ e res.edges → (n : Node) × Memᴰ n res.nodes × (n.id ≡ e.source_id)
  pub target : (e : Edge) → Memᴰ e res.edges → (n : Node) × Memᴰ n res.nodes × (n.id ≡ e.target_id)
  pub outside :
      (old new : Node)
      → lookup new.id db.nodes ≡ some old
      → Memᴰ new res.nodes
      → contains removed old.file_path ≡ false

pub source-normalize_edge : (e : Edge) → e.source_id ≡ (normalize_edge e).source_id
unfolding normalize_edge
source-normalize_edge e = ground arith

pub target-normalize_edge : (e : Edge) → e.target_id ≡ (normalize_edge e).target_id
unfolding normalize_edge
target-normalize_edge e = ground arith

pub key-normalize_edge : (e : Edge) → key_of (normalize_edge e) ≡ key_of e
unfolding normalize_edge
key-normalize_edge e = ground arith

pub with_count-normalize_edge : (e : Edge) → with_count (normalize_edge e) ≡ normalize_edge e
unfolding normalize_edge
with_count-normalize_edge e = ground arith

pub map_same :
    (f : Edge → Edge) (es : List Edge) → ((e : Edge) → Memᴰ e es → f e ≡ e) → map f es ≡ es
map_same f [] h = refl
map_same f (e ∷ es) h = λ i. h e (Memᴰ.head refl) i ∷ map_same f es (λ d m. h d (Memᴰ.tail m)) i

-- What the difference deletes, and what is left of the store then and when the files that are gone
-- are purged.
abbrev pub old_nodes : Db → List Node
old_nodes db = sort_by node_id_less (values db.nodes)

abbrev pub old_edges : Db → List Edge
old_edges db = sort_by edge_less (values db.edges)

abbrev pub dead_nodes : Db → Resolution → List Str
dead_nodes db res = map node_id (gone node_id (node_map res) (old_nodes db))

abbrev pub dead_edges : Db → Resolution → List Edge
dead_edges db res = gone key_of (edge_map res) (old_edges db)

abbrev pub emptied : Db → Resolution → Db
emptied db res = delete_nodes (dead_nodes db res) (delete_edges (dead_edges db res) db)

abbrev pub cleared : Db → Resolution → List Str → Db
cleared db res removed = remove_files removed (emptied db res)

-- The batch as it is before the difference of the graph is queued.
abbrev pub batch_before : List Str → List FileRecord → List FileIr → Batch
batch_before removed recorded irs = record new_batch {
  removed = removed;
  recorded = recorded;
  irs = irs;
}
