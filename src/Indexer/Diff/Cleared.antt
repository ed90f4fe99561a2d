-- ===== src/Indexer/Diff/Cleared.antt =====
-- pkg/indexer/diff.go with pkg/store/write.go: what is left of the stored graph once the difference
-- is deleted.
use graph_context.Base.{
  ◌≡◌, sym, ap, ◌∙◌, subst, List, Str, true, inl, inr, none, some, str_eq, lookup, map, contains,
  if◌then◌else◌, Bool-cases, Option-cases, arith, key_of_lookup,
}
use mathlib.Core.List.Memᴰ
use graph_context.Store.Types.{Node, node_id, Edge, EdgeKey, key_of, edge_key_eq}
use graph_context.Store.Db.{Db, delete_edges, has_node}
use graph_context.Store.Db.Valid.{IsValid}
use graph_context.Store.Db.Clear.{
  nodes-delete_edges, lookup-delete_edges, lookup-delete_nodes, delete_nodes-keeps,
  delete_nodes-lacks, IsOutside, remove_files-keeps_node, remove_files-lacks_node,
  remove_files-keeps_edge, remove_files-lacks_edge,
}
use graph_context.Store.Query.{node_id_less, edge_less}
use graph_context.Indexer.Diff.{Resolution, normalize_edge}
use graph_context.Indexer.Diff.Entries.{index_by-mem, index_by-has, rows-mem, gone-no, gone-yes}
use graph_context.Indexer.Diff.Fits.{
  node_map, edge_map, Fits, source-normalize_edge, target-normalize_edge, old_nodes, old_edges,
  dead_nodes, dead_edges, emptied, cleared,
}

module _ (db : Db) (valid : IsValid db) (res : Resolution) (removed : List Str)
    (fits : Fits db res removed) where
  pub lookup-emptied :
      (k : Str)
      → lookup k (emptied db res).nodes
        ≡ (if contains (dead_nodes db res) k then none else lookup k db.nodes)
  lookup-emptied k =
      lookup-delete_nodes k (dead_nodes db res) (delete_edges (dead_edges db res) db)
      ∙ ap (λ m. if contains (dead_nodes db res) k then none else lookup k m)
          (nodes-delete_edges (dead_edges db res) db)

  -- A stored node whose ID the new graph has is still there after the deletions.
  pub IsOutside-emptied :
      (k : Str) (new old : Node)
      → lookup k (node_map res) ≡ some new
      → lookup k db.nodes ≡ some old
      → IsOutside removed (emptied db res) k old
  IsOutside-emptied k new old q p =
      let (at, kn) = index_by-mem node_id k res.nodes new q in
      record {
        found = lookup-emptied k ∙ rw (gone-no node_id (node_map res) (old_nodes db) k new q) p;
        outside = fits.outside old new (subst (λ j. lookup j db.nodes ≡ some old) (sym kn) p) at;
      }

  pub nodes-agree :
      (k : Str) (new : Node)
      → lookup k (node_map res) ≡ some new
      → lookup k (cleared db res removed).nodes ≡ lookup k db.nodes
  nodes-agree k new q = elim (Option-cases (lookup k db.nodes)) [
    | inl p ↦
        remove_files-lacks_node removed k (emptied db res)
          (lookup-emptied k ∙ rw (gone-no node_id (node_map res) (old_nodes db) k new q) p)
        ∙ sym p
    | inr (old, p) ↦
        remove_files-keeps_node removed k old (emptied db res) (IsOutside-emptied k new old q p)
        ∙ sym p
  ]

  pub nodes-lack :
      (k : Str) → lookup k (node_map res) ≡ none → lookup k (cleared db res removed).nodes ≡ none
  nodes-lack k q = remove_files-lacks_node removed k (emptied db res) (lookup-emptied k ∙ empty)
    where
      empty : (if contains (dead_nodes db res) k then none else lookup k db.nodes) ≡ none
      empty = elim (Option-cases (lookup k db.nodes)) [
        | inl p ↦ elim (Bool-cases (contains (dead_nodes db res) k)) [
          | inl t ↦ rw t
          | inr f ↦ rw (f, p)
        ]
        | inr (old, p) ↦
            let kn : old.id ≡ k = key_of_lookup node_id k old db.nodes valid.nodes_keyed p in
            let t =
              gone-yes node_id (node_map res) (old_nodes db) old
                (rows-mem node_id node_id_less k old db.nodes p)
                (subst (λ j. lookup j (node_map res) ≡ none) (sym kn) q) in
            rw (subst (λ j. contains (dead_nodes db res) j ≡ true) kn t)
      ]

  -- The ends of an edge of the new graph are nodes of the new graph.
  pub source-new :
      (k : EdgeKey) (e : Edge)
      → lookup k (edge_map res) ≡ some e
      → (n : Node) × (lookup k.source (node_map res) ≡ some n)
  source-new k e q =
      let (at, ek) = index_by-mem key_of k (map normalize_edge res.edges) e q in
      let (d, there, de) = Memᴰ.of_map normalize_edge res.edges at in
      let (n, in_res, nd) = fits.source d there in
      let (m, found) = index_by-has node_id res.nodes in_res in
      let end : n.id ≡ k.source =
        nd
        ∙ source-normalize_edge d
        ∙ ap (λ (x : Edge). x.source_id) de
        ∙ ap (λ (x : EdgeKey). x.source) ek in
      (m, subst (λ j. lookup j (node_map res) ≡ some m) end found)

  pub target-new :
      (k : EdgeKey) (e : Edge)
      → lookup k (edge_map res) ≡ some e
      → (n : Node) × (lookup k.target (node_map res) ≡ some n)
  target-new k e q =
      let (at, ek) = index_by-mem key_of k (map normalize_edge res.edges) e q in
      let (d, there, de) = Memᴰ.of_map normalize_edge res.edges at in
      let (n, in_res, nd) = fits.target d there in
      let (m, found) = index_by-has node_id res.nodes in_res in
      let end : n.id ≡ k.target =
        nd
        ∙ target-normalize_edge d
        ∙ ap (λ (x : Edge). x.target_id) de
        ∙ ap (λ (x : EdgeKey). x.target) ek in
      (m, subst (λ j. lookup j (node_map res) ≡ some m) end found)

  pub edges-keep :
      (k : EdgeKey) (new old : Edge)
      → lookup k (edge_map res) ≡ some new
      → lookup k db.edges ≡ some old
      → lookup k (cleared db res removed).edges ≡ some old
  edges-keep k new old q p =
      let (s, s_new) = source-new k new q in
      let (t, t_new) = target-new k new q in
      let (s_has, t_has) = valid.ends k old p in
      let (s_old, s_found) = stored k.source s_has in
      let (t_old, t_found) = stored k.target t_has in
      remove_files-keeps_edge removed k old s_old t_old (emptied db res)
        (delete_nodes-keeps (dead_nodes db res) k old (delete_edges (dead_edges db res) db)
          (lookup-delete_edges k (dead_edges db res) db
            ∙ rw (gone-no key_of (edge_map res) (old_edges db) k new q) p)
          (gone-no node_id (node_map res) (old_nodes db) k.source s s_new)
          (gone-no node_id (node_map res) (old_nodes db) k.target t t_new))
        (IsOutside-emptied k.source s s_old s_new s_found)
        (IsOutside-emptied k.target t t_old t_new t_found)
    where
      stored : (j : Str) → has_node j db ≡ true → (n : Node) × (lookup j db.nodes ≡ some n)
      stored j h = elim (Option-cases (lookup j db.nodes)) [
        | inl p ↦ absurd (ground arith)
        | inr found ↦ found
      ]

  pub edges-absent :
      (k : EdgeKey)
      → lookup k (delete_edges (dead_edges db res) db).edges ≡ none
      → lookup k (cleared db res removed).edges ≡ none
  edges-absent k h =
      remove_files-lacks_edge removed k (emptied db res)
        (delete_nodes-lacks (dead_nodes db res) k (delete_edges (dead_edges db res) db) h)

  pub edges-agree :
      (k : EdgeKey) (new : Edge)
      → lookup k (edge_map res) ≡ some new
      → lookup k (cleared db res removed).edges ≡ lookup k db.edges
  edges-agree k new q = elim (Option-cases (lookup k db.edges)) [
    | inr (old, p) ↦ edges-keep k new old q p ∙ sym p
    | inl p ↦
        edges-absent k (
          lookup-delete_edges k (dead_edges db res) db
          ∙ rw (gone-no key_of (edge_map res) (old_edges db) k new q) p)
        ∙ sym p
  ]

  pub edges-lack :
      (k : EdgeKey)
      → lookup k (edge_map res) ≡ none
      → lookup k (cleared db res removed).edges ≡ none
  edges-lack k q = edges-absent k (lookup-delete_edges k (dead_edges db res) db ∙ empty)
    where
      empty :
          (if contains (map key_of (dead_edges db res)) k then none else lookup k db.edges) ≡ none
      empty = elim (Option-cases (lookup k db.edges)) [
        | inl p ↦ elim (Bool-cases (contains (map key_of (dead_edges db res)) k)) [
          | inl t ↦ rw t
          | inr f ↦ rw (f, p)
        ]
        | inr (old, p) ↦
            let ke : key_of old ≡ k = key_of_lookup key_of k old db.edges valid.edges_keyed p in
            let t =
              gone-yes key_of (edge_map res) (old_edges db) old
                (rows-mem key_of edge_less k old db.edges p)
                (subst (λ j. lookup j (edge_map res) ≡ none) (sym ke) q) in
            rw (subst (λ j. contains (map key_of (dead_edges db res)) j ≡ true) ke t)
      ]
