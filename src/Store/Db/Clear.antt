-- ===== src/Store/Db/Clear.antt =====
-- pkg/store/write.go: what the deletions of a transaction leave.
use graph_context.Base.{
  ◌≡◌, refl, List, [], ◌∷◌, Str, false, not, none, some, str_eq, lookup, delete, lookup-delete,
  contains, map, lookup-keep_found, lookup-keep_missing, if◌then◌else◌, ◌==◌, eq_iff, arith,
}
use graph_context.Store.Types.{Node, Edge, EdgeKey, key_of, edge_key_eq}
use graph_context.Store.Db.{
  Db, delete_edges, stays, delete_node, delete_nodes, in_file, purge_file, remove_files,
}

pub nodes-delete_edges : (es : List Edge) (db : Db) → (delete_edges es db).nodes ≡ db.nodes
unfolding delete_edges
nodes-delete_edges [] db = refl
nodes-delete_edges (e ∷ es) db =
    nodes-delete_edges es (record db { edges = delete (key_of e) db.edges })

pub lookup-delete_edges :
    (k : EdgeKey) (es : List Edge) (db : Db)
    → lookup k (delete_edges es db).edges
      ≡ (if contains (map key_of es) k then none else lookup k db.edges)
unfolding delete_edges
lookup-delete_edges k [] db = refl
lookup-delete_edges k (e ∷ es) db = ground (
  arith,
  lookup-delete_edges k es (record db { edges = delete (key_of e) db.edges }),
  lookup-delete (key_of e) k db.edges,
)

pub lookup-delete_nodes :
    (k : Str) (ids : List Str) (db : Db)
    → lookup k (delete_nodes ids db).nodes ≡ (if contains ids k then none else lookup k db.nodes)
unfolding delete_nodes
lookup-delete_nodes k [] db = refl
lookup-delete_nodes k (id ∷ ids) db =
    ground (arith, lookup-delete_nodes k ids (delete_node id db), lookup-delete id k db.nodes)

-- An edge stays if neither of its ends is deleted.
pub delete_nodes-keeps :
    (ids : List Str) (k : EdgeKey) (e : Edge) (db : Db)
    → lookup k db.edges ≡ some e
    → contains ids k.source ≡ false
    → contains ids k.target ≡ false
    → lookup k (delete_nodes ids db).edges ≡ some e
unfolding delete_nodes
delete_nodes-keeps [] k e db h s t = h
delete_nodes-keeps (id ∷ ids) k e db h s t =
    delete_nodes-keeps ids k e (delete_node id db)
      (unfold delete_node in lookup-keep_found (stays (λ j. id == j)) k e db.edges h (ground arith))
      (ground arith) (ground arith)

pub delete_nodes-lacks :
    (ids : List Str) (k : EdgeKey) (db : Db)
    → lookup k db.edges ≡ none
    → lookup k (delete_nodes ids db).edges ≡ none
unfolding delete_nodes
delete_nodes-lacks [] k db h = h
delete_nodes-lacks (id ∷ ids) k db h =
    delete_nodes-lacks ids k (delete_node id db)
      (unfold delete_node in lookup-keep_missing (stays (λ j. id == j)) k db.edges h)

-- The node of an ID is there and lies in none of the files.
pub record IsOutside (ps : List Str) (db : Db) (k : Str) (n : Node) : Type 0 where
  pub found : lookup k db.nodes ≡ some n
  pub outside : contains ps n.file_path ≡ false

purge_file-keeps :
    (p : Str) (ps : List Str) (k : Str) (n : Node) (db : Db)
    → IsOutside (p ∷ ps) db k n
    → lookup k (purge_file p db).nodes ≡ some n
unfolding purge_file
purge_file-keeps p ps k n db o =
    lookup-keep_found (λ (_, x). not (x.file_path == p)) k n db.nodes o.found
      (ground (arith, o.outside, eq_iff p n.file_path, eq_iff n.file_path p))

not-in_file :
    (p : Str) (ps : List Str) (k : Str) (n : Node) (db : Db)
    → IsOutside (p ∷ ps) db k n
    → in_file p db.nodes k ≡ false
not-in_file p ps k n db o =
    ground (arith, o.found, o.outside, eq_iff p n.file_path, eq_iff n.file_path p)

abbrev pub removed_one : Str → Db → Db
removed_one p db =
    let purged = purge_file p db in
    record purged { files = delete p purged.files; irs = delete p purged.irs }

step-IsOutside :
    (p : Str) (ps : List Str) (k : Str) (n : Node) (db : Db)
    → IsOutside (p ∷ ps) db k n
    → IsOutside ps (removed_one p db) k n
step-IsOutside p ps k n db o = record {
  found = purge_file-keeps p ps k n db o;
  outside = ground (arith, o.outside);
}

pub remove_files-keeps_node :
    (ps : List Str) (k : Str) (n : Node) (db : Db)
    → IsOutside ps db k n
    → lookup k (remove_files ps db).nodes ≡ some n
unfolding remove_files
remove_files-keeps_node [] k n db o = o.found
remove_files-keeps_node (p ∷ ps) k n db o =
    remove_files-keeps_node ps k n (removed_one p db) (step-IsOutside p ps k n db o)

pub remove_files-lacks_node :
    (ps : List Str) (k : Str) (db : Db)
    → lookup k db.nodes ≡ none
    → lookup k (remove_files ps db).nodes ≡ none
unfolding remove_files purge_file
remove_files-lacks_node [] k db h = h
remove_files-lacks_node (p ∷ ps) k db h =
    remove_files-lacks_node ps k (removed_one p db)
      (lookup-keep_missing (λ (_, x). not (x.file_path == p)) k db.nodes h)

pub remove_files-keeps_edge :
    (ps : List Str) (k : EdgeKey) (e : Edge) (s t : Node) (db : Db)
    → lookup k db.edges ≡ some e
    → IsOutside ps db k.source s
    → IsOutside ps db k.target t
    → lookup k (remove_files ps db).edges ≡ some e
unfolding remove_files
remove_files-keeps_edge [] k e s t db h a b = h
remove_files-keeps_edge (p ∷ ps) k e s t db h a b =
    remove_files-keeps_edge ps k e s t (removed_one p db)
      (unfold purge_file in
        lookup-keep_found (stays (in_file p db.nodes)) k e db.edges h
          (ground (arith, not-in_file p ps k.source s db a, not-in_file p ps k.target t db b)))
      (step-IsOutside p ps k.source s db a) (step-IsOutside p ps k.target t db b)

pub remove_files-lacks_edge :
    (ps : List Str) (k : EdgeKey) (db : Db)
    → lookup k db.edges ≡ none
    → lookup k (remove_files ps db).edges ≡ none
unfolding remove_files purge_file
remove_files-lacks_edge [] k db h = h
remove_files-lacks_edge (p ∷ ps) k db h =
    remove_files-lacks_edge ps k (removed_one p db)
      (lookup-keep_missing (stays (in_file p db.nodes)) k db.edges h)
