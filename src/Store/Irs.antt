-- ===== src/Store/Irs.antt =====
-- pkg/store: the cached parses that a transaction leaves.
use graph_context.Base.{
  ◌≡◌, refl, sym, ap, ◌∙◌, List, [], ◌∷◌, Str, str_eq, ◌&&◌, Option, none, some, lookup, insert,
  delete, lookup-insert, lookup-delete, contains, last_by, if◌then◌else◌, arith, Bool-cases, inl,
  inr,
}
use mathlib.Core.Option.{some-injective}
use graph_context.Store.Types.{Node, Edge, FileRecord, FileIr, key_of, edge_key_eq}
use graph_context.Store.Db.{
  Db, Batch, delete_edges, delete_node, delete_nodes, purge_file, purge_touched, remove_files,
  insert_node, insert_nodes, with_count, has_node, insert_edges, put_files, put_irs, clear, finish,
  commit,
}

abbrev pub ir_path : FileIr → Str
ir_path c = c.path

irs-delete_edges : (es : List Edge) (db : Db) → (delete_edges es db).irs ≡ db.irs
unfolding delete_edges
irs-delete_edges [] db = refl
irs-delete_edges (e ∷ es) db =
    irs-delete_edges es (record db { edges = delete (key_of e) db.edges })

irs-delete_nodes : (ids : List Str) (db : Db) → (delete_nodes ids db).irs ≡ db.irs
unfolding delete_nodes delete_node
irs-delete_nodes [] db = refl
irs-delete_nodes (id ∷ ids) db = irs-delete_nodes ids (delete_node id db)

irs-purge_touched : (fs : List FileRecord) (db : Db) → (purge_touched fs db).irs ≡ db.irs
unfolding purge_touched purge_file
irs-purge_touched [] db = refl
irs-purge_touched (f ∷ fs) db = irs-purge_touched fs (purge_file f.path db)

lookup-remove_files :
    (k : Str) (ps : List Str) (db : Db)
    → lookup k (remove_files ps db).irs ≡ (if contains ps k then none else lookup k db.irs)
unfolding remove_files purge_file
lookup-remove_files k [] db = refl
lookup-remove_files k (p ∷ ps) db =
    let purged = purge_file p db in
    let next = record purged { files = delete p purged.files; irs = delete p purged.irs } in
    ground (arith, lookup-remove_files k ps next, lookup-delete p k db.irs)

irs-insert_nodes :
    (tokens : Node → Str) (ns : List Node) (db : Db) → (insert_nodes tokens ns db).irs ≡ db.irs
unfolding insert_nodes insert_node
irs-insert_nodes tokens [] db = refl
irs-insert_nodes tokens (n ∷ ns) db = irs-insert_nodes tokens ns (insert_node tokens n db)

irs-insert_edges : (es : List Edge) (db t : Db) → insert_edges es db ≡ some t → t.irs ≡ db.irs
unfolding insert_edges
irs-insert_edges [] db t q = ground arith
irs-insert_edges (e ∷ es) db t q =
    elim (Bool-cases (has_node e.source_id db && has_node e.target_id db)) [
      | inl y ↦
          irs-insert_edges es (record db { edges = insert (key_of e) (with_count e) db.edges }) t
            (rw y at q)
      | inr f ↦ let r = rw f at q in absurd (ground arith)
    ]

irs-put_files : (fs : List FileRecord) (db : Db) → (put_files fs db).irs ≡ db.irs
unfolding put_files
irs-put_files [] db = refl
irs-put_files (f ∷ fs) db = irs-put_files fs (record db { files = insert f.path f db.files })

lookup-put_irs :
    (k : Str) (rs : List FileIr) (db : Db)
    → lookup k (put_irs rs db).irs ≡ last_by ir_path k rs (lookup k db.irs)
unfolding put_irs
lookup-put_irs k [] db = refl
lookup-put_irs k (r ∷ rs) db =
    lookup-put_irs k rs (record db { irs = insert r.path r db.irs })
    ∙ ap (last_by ir_path k rs) (lookup-insert r.path k r db.irs)

lookup-clear :
    (k : Str) (b : Batch) (db : Db)
    → lookup k (clear b db).irs ≡ (if contains b.removed k then none else lookup k db.irs)
unfolding clear
lookup-clear k b db =
    let bare = delete_nodes b.deleted_nodes (delete_edges b.deleted_edges db) in
    lookup-remove_files k b.removed (purge_touched b.touched bare)
    ∙ ap (λ m. if contains b.removed k then none else lookup k m)
        (irs-purge_touched b.touched bare
          ∙ irs-delete_nodes b.deleted_nodes (delete_edges b.deleted_edges db)
          ∙ irs-delete_edges b.deleted_edges db)

-- The cached parse of a path after a transaction that succeeds.
pub irs-commit :
    (tokens : Node → Str) (b : Batch) (db t : Db) (k : Str)
    → commit tokens b db ≡ some t
    → lookup k t.irs
      ≡ last_by ir_path k b.irs (if contains b.removed k then none else lookup k db.irs)
unfolding commit finish
irs-commit tokens b db t k q =
    go (insert_edges b.edges (insert_nodes tokens b.nodes (clear b db))) refl q
  where
    go :
        (r : Option Db)
        → insert_edges b.edges (insert_nodes tokens b.nodes (clear b db)) ≡ r
        → finish b r ≡ some t
        → lookup k t.irs
          ≡ last_by ir_path k b.irs (if contains b.removed k then none else lookup k db.irs)
    go none e h = absurd (ground arith)
    go (some x) e h =
        let same = ap (λ (d : Db). d.irs) (some-injective _ _ h) in
        ap (lookup k) (sym same)
        ∙ lookup-put_irs k b.irs (put_files b.recorded (put_files b.touched x))
        ∙ ap (last_by ir_path k b.irs) (
            ap (lookup k) (
              irs-put_files b.recorded (put_files b.touched x)
              ∙ irs-put_files b.touched x
              ∙ irs-insert_edges b.edges (insert_nodes tokens b.nodes (clear b db)) x e
              ∙ irs-insert_nodes tokens b.nodes (clear b db))
            ∙ lookup-clear k b db)
