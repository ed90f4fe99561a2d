-- ===== src/Store/Db/Write.antt =====
-- pkg/store/write.go: what the inserts of a transaction put into the tables.
use graph_context.Base.{
  ◌≡◌, refl, ap, ◌∙◌, List, [], ◌∷◌, Str, true, some, str_eq, lookup, insert, lookup-insert, map,
  last_by, Memᴰ,
}
use graph_context.Store.Types.{
  Node, node_id, Edge, EdgeKey, key_of, edge_key_eq, FileRecord, FileIr,
}
use graph_context.Store.Db.{
  Db, insert_node, insert_nodes, with_count, has_node, insert_edges, put_files, put_irs,
}

module _ (tokens : Node → Str) where
  pub lookup-insert_nodes :
      (k : Str) (ns : List Node) (db : Db)
      → lookup k (insert_nodes tokens ns db).nodes ≡ last_by node_id k ns (lookup k db.nodes)
  unfolding insert_nodes
  lookup-insert_nodes k [] db = refl
  lookup-insert_nodes k (n ∷ ns) db =
      lookup-insert_nodes k ns (insert_node tokens n db)
      ∙ ap (last_by node_id k ns) (lookup-insert n.id k n db.nodes)

  pub edges-insert_nodes : (ns : List Node) (db : Db) → (insert_nodes tokens ns db).edges ≡ db.edges
  unfolding insert_nodes
  edges-insert_nodes [] db = refl
  edges-insert_nodes (n ∷ ns) db = edges-insert_nodes ns (insert_node tokens n db)

-- With a node at both ends of every edge the insert of the edges goes through.
pub insert_edges-returns :
    (es : List Edge) (db : Db)
    → ((e : Edge) → Memᴰ e es → (has_node e.source_id db ≡ true) × (has_node e.target_id db ≡ true))
    → (t : Db) × (insert_edges es db ≡ some t)
      × (t.nodes ≡ db.nodes)
      × ((k : EdgeKey)
          → lookup k t.edges ≡ last_by key_of k (map with_count es) (lookup k db.edges))
unfolding insert_edges
insert_edges-returns [] db h = (db, refl, refl, λ k. refl)
insert_edges-returns (e ∷ es) db h =
    let (hs, ht) = h e (Memᴰ.head refl) in
    let put : Db = record db { edges = insert (key_of e) (with_count e) db.edges } in
    let (t, done, same, found) = insert_edges-returns es put (λ d m. h d (Memᴰ.tail m)) in
    (
      t,
      rw (hs, ht) done,
      same,
      λ k.
          found k
          ∙ ap (last_by key_of k (map with_count es))
              (lookup-insert (key_of e) k (with_count e) db.edges),
    )

pub graph-put_files :
    (fs : List FileRecord) (db : Db)
    → ((put_files fs db).nodes ≡ db.nodes) × ((put_files fs db).edges ≡ db.edges)
unfolding put_files
graph-put_files [] db = (refl, refl)
graph-put_files (f ∷ fs) db = graph-put_files fs (record db { files = insert f.path f db.files })

pub graph-put_irs :
    (rs : List FileIr) (db : Db)
    → ((put_irs rs db).nodes ≡ db.nodes) × ((put_irs rs db).edges ≡ db.edges)
unfolding put_irs
graph-put_irs [] db = (refl, refl)
graph-put_irs (r ∷ rs) db = graph-put_irs rs (record db { irs = insert r.path r db.irs })
