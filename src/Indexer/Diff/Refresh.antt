-- ===== src/Indexer/Diff/Refresh.antt =====
-- pkg/indexer/diff.go with pkg/store/write.go: the queued difference turns the stored graph into the
-- resolved one.
use graph_context.Base.{
  ◌≡◌, sym, ap, ◌∙◌, subst, List, [], Str, true, some, str_eq, lookup, map, last_by, Memᴰ, arith,
}
use mathlib.Core.List.Memᴰ
use graph_context.Store.Types.{
  Node, node_id, Edge, EdgeKey, key_of, edge_key_eq, FileRecord, FileIr, Node-discrete,
  Edge-discrete,
}
use graph_context.Store.Db.{
  Db, purge_touched, insert_nodes, insert_edges, with_count, has_node, put_files, put_irs, clear,
  finish, commit,
}
use graph_context.Store.Db.Valid.{IsValid, commit-IsValid}
use graph_context.Store.Db.Write.{
  lookup-insert_nodes, edges-insert_nodes, insert_edges-returns, graph-put_files, graph-put_irs,
}
use graph_context.Store.Query.{node_id_less, edge_less}
use graph_context.Indexer.Diff.{Resolution, normalize_edge, index_by, changed, queue_graph_diff}
use graph_context.Indexer.Diff.Entries.{index_by-mem, lookup-rows}
use graph_context.Indexer.Diff.Queue.{mem-changed, changed-final, changed-map}
use graph_context.Indexer.Diff.Fits.{
  node_map, edge_map, Fits, key-normalize_edge, with_count-normalize_edge, map_same, batch_before,
  old_nodes, old_edges, cleared,
}
use graph_context.Indexer.Diff.Cleared.{
  nodes-agree, nodes-lack, source-new, target-new, edges-agree, edges-lack,
}

module _ (db : Db) (valid : IsValid db) (res : Resolution) (removed : List Str)
    (fits : Fits db res removed) where
  module _ (tokens : Node → Str) (recorded : List FileRecord) (irs : List FileIr) where
    abbrev new_rows : List Node
    new_rows =
        changed node_id Node-discrete (index_by node_id (old_nodes db) []) (node_map res) res.nodes

    abbrev new_links : List Edge
    new_links =
        changed key_of Edge-discrete (index_by key_of (old_edges db) []) (edge_map res)
          (map normalize_edge res.edges)

    abbrev filled : Db
    filled = insert_nodes tokens new_rows (cleared db res removed)

    nodes-filled : (k : Str) → lookup k filled.nodes ≡ lookup k (node_map res)
    nodes-filled k =
        lookup-insert_nodes tokens k new_rows (cleared db res removed)
        ∙ changed-final node_id Node-discrete (index_by node_id (old_nodes db) []) res.nodes k
            (lookup k (cleared db res removed).nodes) (nodes-lack db valid res removed fits k)
            (λ w q.
              nodes-agree db valid res removed fits k w q
              ∙ sym (lookup-rows node_id node_id_less db.nodes k valid.nodes_map valid.nodes_keyed))

    new_links-mem :
        (e : Edge)
        → Memᴰ e new_links
        → (lookup (key_of e) (edge_map res) ≡ some e) × (with_count e ≡ e)
    new_links-mem e m =
        let (v, _, q) =
          mem-changed key_of Edge-discrete (index_by key_of (old_edges db) []) (edge_map res) e
            (map normalize_edge res.edges) m in
        let (at, ev) = index_by-mem key_of (key_of v) (map normalize_edge res.edges) e q in
        let (d, _, de) = Memᴰ.of_map normalize_edge res.edges at in
        (
          subst (λ j. lookup j (edge_map res) ≡ some e) (sym ev) q,
          subst (λ x. with_count x ≡ x) de (with_count-normalize_edge d),
        )

    has-filled : (k : Str) (n : Node) → lookup k (node_map res) ≡ some n → has_node k filled ≡ true
    has-filled k n q = ground (arith, nodes-filled k)

    edges-filled :
        (k : EdgeKey)
        → last_by key_of k (map with_count new_links) (lookup k filled.edges)
          ≡ lookup k (edge_map res)
    edges-filled k = rw (map_same with_count new_links (λ e m. (new_links-mem e m).1)) (
        rw (edges-insert_nodes tokens new_rows (cleared db res removed)) (
          changed-final key_of Edge-discrete (index_by key_of (old_edges db) [])
            (map normalize_edge res.edges) k (lookup k (cleared db res removed).edges)
            (edges-lack db valid res removed fits k)
            (λ w q.
              edges-agree db valid res removed fits k w q
              ∙ sym (lookup-rows key_of edge_less db.edges k valid.edges_map valid.edges_keyed))))

    commit-new_links :
        (t : Db)
        → insert_edges new_links filled ≡ some t
        → commit tokens (queue_graph_diff db (batch_before removed recorded irs) res) db
          ≡ some (put_irs irs (put_files recorded t))
    unfolding commit finish queue_graph_diff clear purge_touched put_files
    commit-new_links t h =
        let same =
          changed-map key_of Edge-discrete normalize_edge key-normalize_edge
            (index_by key_of (old_edges db) []) (edge_map res) res.edges in
        ap (finish (queue_graph_diff db (batch_before removed recorded irs) res))
          (subst (λ es. insert_edges es filled ≡ some t) same h)

    pub refresh :
        (t : Db) × (commit tokens (queue_graph_diff db (batch_before removed recorded irs) res) db
          ≡ some t)
        × ((k : Str) → lookup k t.nodes ≡ lookup k (node_map res))
        × ((k : EdgeKey) → lookup k t.edges ≡ lookup k (edge_map res))
    refresh =
        let (t, done, nodes, edges) = insert_edges-returns new_links filled (λ e m.
          let q = (new_links-mem e m).0 in
          let (s, s_new) = source-new db valid res removed fits (key_of e) e q in
          let (x, x_new) = target-new db valid res removed fits (key_of e) e q in
          (has-filled e.source_id s s_new, has-filled e.target_id x x_new)) in
        let (fn, fe) = graph-put_files recorded t in
        let (rn, re) = graph-put_irs irs (put_files recorded t) in
        (
          put_irs irs (put_files recorded t),
          commit-new_links t done,
          λ k. ap (lookup k) (rn ∙ fn ∙ nodes) ∙ nodes-filled k,
          λ k. ap (lookup k) (re ∙ fe) ∙ edges k ∙ edges-filled k,
        )

-- When the stored graph meets the schema, and the edges of the resolved graph run between its nodes,
-- none of which the store holds in a file that is gone, the commit of the difference that is queued
-- succeeds. It leaves a graph that meets the schema and that is the resolved one: under every ID and
-- every edge key stands just what the resolved graph holds there, and nothing else.
pub commit-queue_graph_diff :
    (tokens : Node → Str) (db : Db) (res : Resolution) (removed : List Str)
    (recorded : List FileRecord) (irs : List FileIr)
    → IsValid db
    → Fits db res removed
    → (t : Db) × (commit tokens (queue_graph_diff db (batch_before removed recorded irs) res) db
        ≡ some t)
      × IsValid t
      × ((k : Str) → lookup k t.nodes ≡ lookup k (node_map res))
      × ((k : EdgeKey) → lookup k t.edges ≡ lookup k (edge_map res))
commit-queue_graph_diff tokens db res removed recorded irs valid fits =
    let (t, done, nodes, edges) = refresh db valid res removed fits tokens recorded irs in
    let queued = queue_graph_diff db (batch_before removed recorded irs) res in
    (t, done, commit-IsValid tokens queued db t valid done, nodes, edges)
