-- ===== src/Store/Db/Effect.antt =====
-- pkg/store/write.go: which rows of the graph a transaction leaves, and which it brings.
use graph_context.Base.{
  ◌≡◌, refl, sym, ap, ◌∙◌, subst, List, [], ◌∷◌, Str, str_eq, Bool, false, not, ◌||◌, ◌&&◌, Option,
  none, some, lookup, insert, lookup-insert, contains, map, last_by, last_by-cases, Memᴰ, ◌⊎◌, inl,
  inr, IsMap, keep, lookup-keep_found, lookup-keep_missing, lookup_of_keep, if◌then◌else◌, ◌==◌,
  eq_iff, Bool-cases, Option-cases, arith,
}
use mathlib.Core.Option.{some-injective}
use graph_context.Store.Types.{Node, node_id, Edge, EdgeKey, key_of, edge_key_eq, FileRecord}
use graph_context.Store.Db.{
  Db, Batch, delete_edges, delete_node, in_file, stays, delete_nodes, purge_file, purge_touched,
  remove_files, insert_nodes, insert_edges, with_count, has_node, put_files, put_irs, clear, finish,
  commit,
}
use graph_context.Store.Db.Valid.{
  IsValid, file_path_of, commit-IsValid, delete_edges-IsValid, delete_nodes-IsValid,
  delete_node-IsValid, purge_file-IsValid, purge_touched-IsValid, remove_files-IsValid,
}
use graph_context.Store.Db.Clear.{
  nodes-delete_edges, lookup-delete_edges, lookup-delete_nodes, removed_one,
}
use graph_context.Store.Db.Write.{
  lookup-insert_nodes, edges-insert_nodes, graph-put_files, graph-put_irs,
}

abbrev left : (Node → Bool) → Option Node → Option Node
left gone none = none
left gone (some n) = if gone n then none else some n

left-left :
    (g h k : Node → Bool) (o : Option Node)
    → ((n : Node) → k n ≡ (h n || g n))
    → left g (left h o) ≡ left k o
left-left g h k none e = refl
left-left g h k (some n) e = ground (arith, e n)

left-false : (o : Option Node) → o ≡ left (λ _. false) o
left-false none = refl
left-false (some n) = refl

lookup-keep :
    (g : Node → Bool) (k : Str) (m : List (Str × Node))
    → IsMap m
    → lookup k (keep (λ (_, n). not (g n)) m) ≡ left g (lookup k m)
lookup-keep g k m h = elim (Option-cases (lookup k m)) [
  | inl none_there ↦ rw none_there (lookup-keep_missing (λ (_, n). not (g n)) k m none_there)
  | inr (n, found) ↦ elim (Bool-cases (g n)) [
    | inl t ↦
        rw (found, t)
          (elim (Option-cases (lookup k (keep (λ (_, n). not (g n)) m))) [
            | inl dropped ↦ dropped
            | inr (x, q) ↦
                let (old, alive) = lookup_of_keep (λ (_, n). not (g n)) k x m h q in
                let nx = some-injective n x (sym found ∙ old) in absurd (ground (arith, ap g nx))
          ])
    | inr f ↦ rw (found, f) (lookup-keep_found (λ (_, n). not (g n)) k n m found (ground arith))
  ]
]

lookup-purge_touched :
    (k : Str) (fs : List FileRecord) (db : Db)
    → IsValid db
    → lookup k (purge_touched fs db).nodes
      ≡ left (λ n. contains (map file_path_of fs) n.file_path) (lookup k db.nodes)
unfolding purge_touched
lookup-purge_touched k [] db v = left-false (lookup k db.nodes)
lookup-purge_touched k (f ∷ fs) db v =
    lookup-purge_touched k fs (purge_file f.path db) (purge_file-IsValid f.path db v)
    ∙ ap (left (λ n. contains (map file_path_of fs) n.file_path))
        (unfold purge_file in lookup-keep (λ n. n.file_path == f.path) k db.nodes v.nodes_map)
    ∙ left-left (λ n. contains (map file_path_of fs) n.file_path) (λ n. n.file_path == f.path)
        (λ n. contains (map file_path_of (f ∷ fs)) n.file_path) (lookup k db.nodes)
        (λ n. ground (arith, eq_iff n.file_path f.path, eq_iff f.path n.file_path))

lookup-remove_files :
    (k : Str) (ps : List Str) (db : Db)
    → IsValid db
    → lookup k (remove_files ps db).nodes ≡ left (λ n. contains ps n.file_path) (lookup k db.nodes)
unfolding remove_files
lookup-remove_files k [] db v = left-false (lookup k db.nodes)
lookup-remove_files k (p ∷ ps) db v =
    lookup-remove_files k ps (removed_one p db) (remove_files-IsValid (p ∷ []) db v)
    ∙ ap (left (λ n. contains ps n.file_path))
        (unfold purge_file in lookup-keep (λ n. n.file_path == p) k db.nodes v.nodes_map)
    ∙ left-left (λ n. contains ps n.file_path) (λ n. n.file_path == p)
        (λ n. contains (p ∷ ps) n.file_path) (lookup k db.nodes)
        (λ n. ground (arith, eq_iff n.file_path p, eq_iff p n.file_path))

-- A stored node goes if its ID is to be deleted or its file is touched or removed.
abbrev pub is_gone : Batch → Str → Node → Bool
is_gone b k n =
    contains b.removed n.file_path
    || contains (map file_path_of b.touched) n.file_path
    || contains b.deleted_nodes k

lookup-clear :
    (k : Str) (b : Batch) (db : Db)
    → IsValid db
    → lookup k (clear b db).nodes ≡ left (is_gone b k) (lookup k db.nodes)
unfolding clear
lookup-clear k b db v =
    let after_edges = delete_edges b.deleted_edges db in
    let after_nodes = delete_nodes b.deleted_nodes after_edges in
    let edges_valid = delete_edges-IsValid b.deleted_edges db v in
    let nodes_valid = delete_nodes-IsValid b.deleted_nodes after_edges edges_valid in
    let by_touch = λ (n : Node). contains (map file_path_of b.touched) n.file_path in
    let by_removal = λ (n : Node). contains b.removed n.file_path in
    lookup-remove_files k b.removed (purge_touched b.touched after_nodes)
      (purge_touched-IsValid b.touched after_nodes nodes_valid)
    ∙ ap (left by_removal) (
        lookup-purge_touched k b.touched after_nodes nodes_valid
        ∙ ap (left by_touch) (
            lookup-delete_nodes k b.deleted_nodes after_edges
            ∙ ap (λ m. if contains b.deleted_nodes k then none else lookup k m)
                (nodes-delete_edges b.deleted_edges db)))
    ∙ merge_tests (contains b.deleted_nodes k) by_touch by_removal (lookup k db.nodes)
  where
    merge_tests :
        (c : Bool) (g h : Node → Bool) (o : Option Node)
        → left h (left g (if c then none else o)) ≡ left (λ n. h n || g n || c) o
    merge_tests c g h none = ground arith
    merge_tests c g h (some n) = ground arith

-- The inserts of the edges leave the nodes, and put the last edge of a key under it.
lookup-insert_edges :
    (es : List Edge) (db t : Db)
    → insert_edges es db ≡ some t
    → (t.nodes ≡ db.nodes)
      × ((k : EdgeKey)
          → lookup k t.edges ≡ last_by key_of k (map with_count es) (lookup k db.edges))
unfolding insert_edges
lookup-insert_edges [] db t q =
    let same = sym (some-injective db t q) in
    (ap (λ (d : Db). d.nodes) same, λ k. ap (λ (d : Db). lookup k d.edges) same)
lookup-insert_edges (e ∷ es) db t q =
    elim (Bool-cases (has_node e.source_id db && has_node e.target_id db)) [
      | inl y ↦
          let put = record db { edges = insert (key_of e) (with_count e) db.edges } in
          let (same, found) = lookup-insert_edges es put t (rw y at q) in
          (
            same,
            λ k.
                found k
                ∙ ap (last_by key_of k (map with_count es))
                    (lookup-insert (key_of e) k (with_count e) db.edges),
          )
      | inr f ↦ let r = rw f at q in absurd (ground arith)
    ]

from-delete_nodes :
    (ids : List Str) (k : EdgeKey) (e : Edge) (db : Db)
    → IsValid db
    → lookup k (delete_nodes ids db).edges ≡ some e
    → lookup k db.edges ≡ some e
unfolding delete_nodes delete_node
from-delete_nodes [] k e db v q = q
from-delete_nodes (id ∷ ids) k e db v q =
    let one = from-delete_nodes ids k e (delete_node id db) (delete_node-IsValid id db v) q in
    (lookup_of_keep (stays (λ j. id == j)) k e db.edges v.edges_map one).0

from-purge_touched :
    (fs : List FileRecord) (k : EdgeKey) (e : Edge) (db : Db)
    → IsValid db
    → lookup k (purge_touched fs db).edges ≡ some e
    → lookup k db.edges ≡ some e
unfolding purge_touched purge_file
from-purge_touched [] k e db v q = q
from-purge_touched (f ∷ fs) k e db v q =
    let one = from-purge_touched fs k e (purge_file f.path db) (purge_file-IsValid f.path db v) q in
    (lookup_of_keep (stays (in_file f.path db.nodes)) k e db.edges v.edges_map one).0

from-remove_files :
    (ps : List Str) (k : EdgeKey) (e : Edge) (db : Db)
    → IsValid db
    → lookup k (remove_files ps db).edges ≡ some e
    → lookup k db.edges ≡ some e
unfolding remove_files purge_file
from-remove_files [] k e db v q = q
from-remove_files (p ∷ ps) k e db v q =
    let one = from-remove_files ps k e (removed_one p db) (remove_files-IsValid (p ∷ []) db v) q in
    (lookup_of_keep (stays (in_file p db.nodes)) k e db.edges v.edges_map one).0

from-clear :
    (b : Batch) (k : EdgeKey) (e : Edge) (db : Db)
    → IsValid db
    → lookup k (clear b db).edges ≡ some e
    → (lookup k db.edges ≡ some e) × (contains (map key_of b.deleted_edges) k ≡ false)
unfolding clear
from-clear b k e db v q =
    let after_edges = delete_edges b.deleted_edges db in
    let after_nodes = delete_nodes b.deleted_nodes after_edges in
    let edges_valid = delete_edges-IsValid b.deleted_edges db v in
    let nodes_valid = delete_nodes-IsValid b.deleted_nodes after_edges edges_valid in
    let old = from-delete_nodes b.deleted_nodes k e after_edges edges_valid (
      from-purge_touched b.touched k e after_nodes nodes_valid (
        from-remove_files b.removed k e (purge_touched b.touched after_nodes)
          (purge_touched-IsValid b.touched after_nodes nodes_valid) q)) in
    ground (arith, lookup-delete_edges k b.deleted_edges db)

-- What a transaction does to the graph.
pub record IsEffect (b : Batch) (db t : Db) : Type 0 where
  pub nodes :
      (k : Str)
      → lookup k t.nodes ≡ last_by node_id k b.nodes (left (is_gone b k) (lookup k db.nodes))
  pub edges :
      (k : EdgeKey) (e : Edge)
      → lookup k t.edges ≡ some e
      → (Memᴰ e (map with_count b.edges) × (key_of e ≡ k))
        ⊎ ((lookup k db.edges ≡ some e) × (contains (map key_of b.deleted_edges) k ≡ false))

-- A transaction that succeeds keeps the constraints of the schema, whatever the batch holds: in no
-- table does a primary key stand twice, each row of a node, an edge, a file and a parse is under its
-- own key, and no edge is left without the nodes at its two ends. Under an ID then stands the last
-- node of the batch with it, or else the node that stood there, unless its ID was to be deleted or
-- its file is touched or removed; and an edge is one of the batch or an old one that was not deleted.
pub commit_lem :
    (tokens : Node → Str) (b : Batch) (db t : Db)
    → IsValid db
    → commit tokens b db ≡ some t
    → IsValid t × IsEffect b db t
unfolding commit finish
commit_lem tokens b db t v q = (commit-IsValid tokens b db t v q, effect)
  where
    put : Db → Db
    put x = put_irs b.irs (put_files b.recorded (put_files b.touched x))

    put_nodes : (x : Db) → (put x).nodes ≡ x.nodes
    put_nodes x =
        (graph-put_irs b.irs (put_files b.recorded (put_files b.touched x))).0
        ∙ (graph-put_files b.recorded (put_files b.touched x)).0
        ∙ (graph-put_files b.touched x).0

    put_edges : (x : Db) → (put x).edges ≡ x.edges
    put_edges x =
        (graph-put_irs b.irs (put_files b.recorded (put_files b.touched x))).1
        ∙ (graph-put_files b.recorded (put_files b.touched x)).1
        ∙ (graph-put_files b.touched x).1

    with_nodes : Db
    with_nodes = insert_nodes tokens b.nodes (clear b db)

    of_inserted : (x : Db) → insert_edges b.edges with_nodes ≡ some x → IsEffect b db (put x)
    of_inserted x e = record {
      nodes = λ k.
          ap (lookup k) (put_nodes x ∙ (lookup-insert_edges b.edges with_nodes x e).0)
          ∙ lookup-insert_nodes tokens k b.nodes (clear b db)
          ∙ ap (last_by node_id k b.nodes) (lookup-clear k b db v);
      edges = λ k d found.
          let at =
            sym (
              ap (lookup k) (put_edges x)
              ∙ (lookup-insert_edges b.edges with_nodes x e).1 k
              ∙ ap (λ m. last_by key_of k (map with_count b.edges) (lookup k m))
                  (edges-insert_nodes tokens b.nodes (clear b db)))
            ∙ found in
          elim (last_by-cases key_of k (map with_count b.edges) (lookup k (clear b db).edges) d
            at) [ inl fresh ↦ inl fresh | inr old ↦ inr (from-clear b k d db v old) ];
    }

    go :
        (r : Option Db)
        → insert_edges b.edges with_nodes ≡ r
        → finish b r ≡ some t
        → IsEffect b db t
    go none e c = cc
    go (some x) e c = subst (IsEffect b db) (some-injective (put x) t c) (of_inserted x e)

    effect : IsEffect b db t
    effect = go (insert_edges b.edges with_nodes) refl q
