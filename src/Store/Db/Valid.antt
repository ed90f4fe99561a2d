-- ===== src/Store/Db/Valid.antt =====
-- pkg/store: the constraints of the schema, and that a transaction keeps them.
use graph_context.Base.{
  ◌≡◌, refl, subst, List, [], ◌∷◌, Str, true, false, not, Option, none, some, str_eq, lookup,
  insert, delete, lookup-insert, lookup-delete, lookup-keep_found, lookup_of_keep, IsMap, IsKeyed,
  IsMap-keep, IsMap-delete, IsMap-insert, IsKeyed-keep, IsKeyed-delete, IsKeyed-insert, ◌==◌,
  eq_iff, Bool-cases, Option-cases, arith, inl, inr, Bool, if◌then◌else◌,
}
use mathlib.Core.Option.{some-injective}
use graph_context.Store.Types.{
  Node, node_id, Edge, EdgeKey, key_of, edge_key_eq, FileRecord, FileIr,
}
use graph_context.Store.Db.{
  Db, Batch, delete_edges, stays, delete_node, delete_nodes, in_file, purge_file, purge_touched,
  remove_files, insert_node, insert_nodes, with_count, has_node, insert_edges, put_files, put_irs,
  clear, finish, commit, FtsRow, is_external,
}

-- Both ends of an edge are nodes.
abbrev pub Ends : Db → EdgeKey → Type 0
Ends db k = (has_node k.source db ≡ true) × (has_node k.target db ≡ true)

abbrev pub file_path_of : FileRecord → Str
file_path_of f = f.path

abbrev pub ir_path_of : FileIr → Str
ir_path_of r = r.path

-- The primary keys of the tables and the foreign keys of the schema.
pub record IsValid (db : Db) : Type 0 where
  pub nodes_map : IsMap db.nodes
  pub nodes_keyed : IsKeyed node_id db.nodes
  pub edges_map : IsMap db.edges
  pub edges_keyed : IsKeyed key_of db.edges
  pub ends : (k : EdgeKey) (e : Edge) → lookup k db.edges ≡ some e → Ends db k
  pub files_map : IsMap db.files
  pub files_keyed : IsKeyed file_path_of db.files
  pub irs_map : IsMap db.irs
  pub irs_keyed : IsKeyed ir_path_of db.irs
  pub fts_map : IsMap db.fts

pub delete_edges-IsValid : (es : List Edge) (db : Db) → IsValid db → IsValid (delete_edges es db)
unfolding delete_edges
delete_edges-IsValid [] db h = h
delete_edges-IsValid (x ∷ es) db h =
    delete_edges-IsValid es (record db { edges = delete (key_of x) db.edges })
      (record {
        nodes_map = h.nodes_map;
        nodes_keyed = h.nodes_keyed;
        edges_map = IsMap-delete (key_of x) db.edges h.edges_map;
        edges_keyed = IsKeyed-delete key_of (key_of x) db.edges h.edges_keyed;
        ends = λ k e q. h.ends k e (from_delete k e q);
        files_map = h.files_map;
        files_keyed = h.files_keyed;
        irs_map = h.irs_map;
        irs_keyed = h.irs_keyed;
        fts_map = h.fts_map;
      })
  where
    from_delete :
        (k : EdgeKey) (e : Edge)
        → lookup k (delete (key_of x) db.edges) ≡ some e
        → lookup k db.edges ≡ some e
    from_delete k e q = ground (arith, lookup-delete (key_of x) k db.edges)

pub delete_node-IsValid : (id : Str) (db : Db) → IsValid db → IsValid (delete_node id db)
unfolding delete_node
delete_node-IsValid id db h = record {
  nodes_map = IsMap-delete id db.nodes h.nodes_map;
  nodes_keyed = IsKeyed-delete node_id id db.nodes h.nodes_keyed;
  edges_map = IsMap-keep (stays (λ k. id == k)) db.edges h.edges_map;
  edges_keyed = IsKeyed-keep key_of (stays (λ k. id == k)) db.edges h.edges_keyed;
  ends = λ k e q.
      let (old, left) = lookup_of_keep (stays (λ k. id == k)) k e db.edges h.edges_map q in
      let (s, t) = h.ends k e old in
      ground (arith, lookup-delete id k.source db.nodes, lookup-delete id k.target db.nodes);
  files_map = h.files_map;
  files_keyed = h.files_keyed;
  irs_map = h.irs_map;
  irs_keyed = h.irs_keyed;
  fts_map = IsMap-delete id db.fts h.fts_map;
}

pub delete_nodes-IsValid : (ids : List Str) (db : Db) → IsValid db → IsValid (delete_nodes ids db)
unfolding delete_nodes
delete_nodes-IsValid [] db h = h
delete_nodes-IsValid (id ∷ ids) db h =
    delete_nodes-IsValid ids (delete_node id db) (delete_node-IsValid id db h)

-- A node that is not in the purged file is still there.
purge_file-has_node :
    (path : Str) (db : Db) (k : Str)
    → has_node k db ≡ true
    → in_file path db.nodes k ≡ false
    → has_node k (purge_file path db) ≡ true
unfolding purge_file
purge_file-has_node path db k h f = elim (Option-cases (lookup k db.nodes)) [
  | inl no_node ↦ ground arith
  | inr (n, found) ↦
      let kept =
        lookup-keep_found (λ (_, x). not (x.file_path == path)) k n db.nodes found (ground arith) in
      ground arith
]

pub purge_file-IsValid : (path : Str) (db : Db) → IsValid db → IsValid (purge_file path db)
unfolding purge_file
purge_file-IsValid path db h = record {
  nodes_map = IsMap-keep (λ (_, n). not (n.file_path == path)) db.nodes h.nodes_map;
  nodes_keyed = IsKeyed-keep node_id (λ (_, n). not (n.file_path == path)) db.nodes h.nodes_keyed;
  edges_map = IsMap-keep (stays (in_file path db.nodes)) db.edges h.edges_map;
  edges_keyed = IsKeyed-keep key_of (stays (in_file path db.nodes)) db.edges h.edges_keyed;
  ends = λ k e q.
      let (old, left) = lookup_of_keep (stays (in_file path db.nodes)) k e db.edges h.edges_map q in
      let (s, t) = h.ends k e old in
      (
        purge_file-has_node path db k.source s (ground arith),
        purge_file-has_node path db k.target t (ground arith),
      );
  files_map = h.files_map;
  files_keyed = h.files_keyed;
  irs_map = h.irs_map;
  irs_keyed = h.irs_keyed;
  fts_map = IsMap-keep (λ (k, _). not (in_file path db.nodes k)) db.fts h.fts_map;
}

pub purge_touched-IsValid :
    (fs : List FileRecord) (db : Db) → IsValid db → IsValid (purge_touched fs db)
unfolding purge_touched
purge_touched-IsValid [] db h = h
purge_touched-IsValid (f ∷ fs) db h =
    purge_touched-IsValid fs (purge_file f.path db) (purge_file-IsValid f.path db h)

-- The tables of the files have no part in the constraints on the graph.
same_graph-IsValid :
    (db : Db) (fs : List (Str × FileRecord)) (rs : List (Str × FileIr))
    → IsMap fs
    → IsKeyed file_path_of fs
    → IsMap rs
    → IsKeyed ir_path_of rs
    → IsValid db
    → IsValid (record db { files = fs; irs = rs })
same_graph-IsValid db fs rs fm fk rm rk h = record {
  nodes_map = h.nodes_map;
  nodes_keyed = h.nodes_keyed;
  edges_map = h.edges_map;
  edges_keyed = h.edges_keyed;
  ends = h.ends;
  files_map = fm;
  files_keyed = fk;
  irs_map = rm;
  irs_keyed = rk;
  fts_map = h.fts_map;
}

pub remove_files-IsValid : (ps : List Str) (db : Db) → IsValid db → IsValid (remove_files ps db)
unfolding remove_files purge_file
remove_files-IsValid [] db h = h
remove_files-IsValid (p ∷ ps) db h =
    let purged = purge_file p db in
    let fs = delete p purged.files in
    let rs = delete p purged.irs in
    remove_files-IsValid ps (record purged { files = fs; irs = rs })
      (same_graph-IsValid purged fs rs (IsMap-delete p purged.files h.files_map)
        (IsKeyed-delete file_path_of p purged.files h.files_keyed)
        (IsMap-delete p purged.irs h.irs_map) (IsKeyed-delete ir_path_of p purged.irs h.irs_keyed)
        (purge_file-IsValid p db h))

pub clear-IsValid : (b : Batch) (db : Db) → IsValid db → IsValid (clear b db)
unfolding clear
clear-IsValid b db h =
    let after_edges = delete_edges b.deleted_edges db in
    let after_nodes = delete_nodes b.deleted_nodes after_edges in
    let after_touched = purge_touched b.touched after_nodes in
    remove_files-IsValid b.removed after_touched (
      purge_touched-IsValid b.touched after_nodes (
        delete_nodes-IsValid b.deleted_nodes after_edges
          (delete_edges-IsValid b.deleted_edges db h)))

module _ (tokens : Node → Str) where
  insert_node-IsValid : (n : Node) (db : Db) → IsValid db → IsValid (insert_node tokens n db)
  unfolding insert_node
  insert_node-IsValid n db h = record {
    nodes_map = IsMap-insert n.id n db.nodes h.nodes_map;
    nodes_keyed = IsKeyed-insert node_id n.id n db.nodes refl h.nodes_keyed;
    edges_map = h.edges_map;
    edges_keyed = h.edges_keyed;
    ends = λ k e q.
        let (s, t) = h.ends k e q in
        ground
          (arith, lookup-insert n.id k.source n db.nodes, lookup-insert n.id k.target n db.nodes);
    files_map = h.files_map;
    files_keyed = h.files_keyed;
    irs_map = h.irs_map;
    irs_keyed = h.irs_keyed;
    fts_map = rows (is_external n.kind);
  }
    where
      row : FtsRow
      row = record { tokens = tokens n; docstring = n.docstring }

      rows : (b : Bool) → IsMap (if b then db.fts else insert n.id row db.fts)
      rows true = h.fts_map
      rows false = IsMap-insert n.id row db.fts h.fts_map

  pub insert_nodes-IsValid :
      (ns : List Node) (db : Db) → IsValid db → IsValid (insert_nodes tokens ns db)
  unfolding insert_nodes
  insert_nodes-IsValid [] db h = h
  insert_nodes-IsValid (n ∷ ns) db h =
      insert_nodes-IsValid ns (insert_node tokens n db) (insert_node-IsValid n db h)

insert_edge-IsValid :
    (e : Edge) (db : Db)
    → has_node e.source_id db ≡ true
    → has_node e.target_id db ≡ true
    → IsValid db
    → IsValid (record db { edges = insert (key_of e) (with_count e) db.edges })
insert_edge-IsValid e db hs ht h = record {
  nodes_map = h.nodes_map;
  nodes_keyed = h.nodes_keyed;
  edges_map = IsMap-insert (key_of e) (with_count e) db.edges h.edges_map;
  edges_keyed = IsKeyed-insert key_of (key_of e) (with_count e) db.edges refl h.edges_keyed;
  ends = λ k d q. elim (Bool-cases (key_of e == k)) [
    | inl t ↦ subst (Ends db) ((eq_iff (key_of e) k).0 t) (hs, ht)
    | inr f ↦ h.ends k d (rw (lookup-insert (key_of e) k (with_count e) db.edges, f) at q)
  ];
  files_map = h.files_map;
  files_keyed = h.files_keyed;
  irs_map = h.irs_map;
  irs_keyed = h.irs_keyed;
  fts_map = h.fts_map;
}

pub insert_edges-IsValid :
    (es : List Edge) (db t : Db) → insert_edges es db ≡ some t → IsValid db → IsValid t
unfolding insert_edges
insert_edges-IsValid [] db t q h = subst IsValid (some-injective db t q) h
insert_edges-IsValid (e ∷ es) db t q h = elim (Bool-cases (has_node e.source_id db)) [
  | inr f ↦ absurd (ground arith)
  | inl hs ↦ elim (Bool-cases (has_node e.target_id db)) [
    | inr f ↦ absurd (ground arith)
    | inl ht ↦
        insert_edges-IsValid es (record db { edges = insert (key_of e) (with_count e) db.edges }) t
          (rw (hs, ht) at q) (insert_edge-IsValid e db hs ht h)
  ]
]

put_files-graph : (fs : List FileRecord) (db : Db) → IsValid db → IsValid (put_files fs db)
unfolding put_files
put_files-graph [] db h = h
put_files-graph (f ∷ fs) db h =
    put_files-graph fs (record db { files = insert f.path f db.files })
      (same_graph-IsValid db (insert f.path f db.files) db.irs
        (IsMap-insert f.path f db.files h.files_map)
        (IsKeyed-insert file_path_of f.path f db.files refl h.files_keyed) h.irs_map h.irs_keyed h)

put_irs-graph : (rs : List FileIr) (db : Db) → IsValid db → IsValid (put_irs rs db)
unfolding put_irs
put_irs-graph [] db h = h
put_irs-graph (r ∷ rs) db h =
    put_irs-graph rs (record db { irs = insert r.path r db.irs })
      (same_graph-IsValid db db.files (insert r.path r db.irs) h.files_map h.files_keyed
        (IsMap-insert r.path r db.irs h.irs_map)
        (IsKeyed-insert ir_path_of r.path r db.irs refl h.irs_keyed) h)

-- A transaction that succeeds keeps the constraints of the schema.
pub commit-IsValid :
    (tokens : Node → Str) (b : Batch) (db t : Db)
    → IsValid db
    → commit tokens b db ≡ some t
    → IsValid t
unfolding commit finish
commit-IsValid tokens b db t h q =
    go (insert_edges b.edges (insert_nodes tokens b.nodes (clear b db))) refl q
  where
    go :
        (r : Option Db)
        → insert_edges b.edges (insert_nodes tokens b.nodes (clear b db)) ≡ r
        → finish b r ≡ some t
        → IsValid t
    go none e q = cc
    go (some x) e q =
        subst IsValid
          (some-injective (put_irs b.irs (put_files b.recorded (put_files b.touched x))) t q)
          (put_irs-graph b.irs (put_files b.recorded (put_files b.touched x)) (
            put_files-graph b.recorded (put_files b.touched x) (
              put_files-graph b.touched x (
                insert_edges-IsValid b.edges (insert_nodes tokens b.nodes (clear b db)) x e
                  (insert_nodes-IsValid tokens b.nodes (clear b db) (clear-IsValid b db h))))))
