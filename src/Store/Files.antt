-- ===== src/Store/Files.antt =====
-- pkg/store: the file rows that a transaction leaves, which decide what is parsed again.
use graph_context.Base.{
  ◌≡◌, refl, sym, ap, ◌∙◌, List, [], ◌∷◌, Str, str_eq, ◌&&◌, ◌==◌, Option, none, some, lookup,
  insert, delete, lookup-insert, lookup-delete, contains, last_by, if◌then◌else◌, arith, Bool-cases,
  inl, inr, map,
}
use mathlib.Core.Option.{some-injective}
use graph_context.Store.Types.{Node, Edge, FileRecord, FileIr, key_of, edge_key_eq}
use graph_context.Store.Db.{
  Db, Batch, delete_edges, delete_node, delete_nodes, purge_file, purge_touched, remove_files,
  insert_node, insert_nodes, with_count, has_node, insert_edges, put_files, put_irs, clear, finish,
  commit,
}
use graph_context.Store.Query.{file_hashes}

abbrev pub record_path : FileRecord → Str
record_path f = f.path

files-delete_edges : (es : List Edge) (db : Db) → (delete_edges es db).files ≡ db.files
unfolding delete_edges
files-delete_edges [] db = refl
files-delete_edges (e ∷ es) db =
    files-delete_edges es (record db { edges = delete (key_of e) db.edges })

files-delete_nodes : (ids : List Str) (db : Db) → (delete_nodes ids db).files ≡ db.files
unfolding delete_nodes delete_node
files-delete_nodes [] db = refl
files-delete_nodes (id ∷ ids) db = files-delete_nodes ids (delete_node id db)

files-purge_touched : (fs : List FileRecord) (db : Db) → (purge_touched fs db).files ≡ db.files
unfolding purge_touched purge_file
files-purge_touched [] db = refl
files-purge_touched (f ∷ fs) db = files-purge_touched fs (purge_file f.path db)

lookup-remove_files :
    (k : Str) (ps : List Str) (db : Db)
    → lookup k (remove_files ps db).files ≡ (if contains ps k then none else lookup k db.files)
unfolding remove_files purge_file
lookup-remove_files k [] db = refl
lookup-remove_files k (p ∷ ps) db =
    let purged = purge_file p db in
    let next = record purged { files = delete p purged.files; irs = delete p purged.irs } in
    ground (arith, lookup-remove_files k ps next, lookup-delete p k db.files)

files-insert_nodes :
    (tokens : Node → Str) (ns : List Node) (db : Db) → (insert_nodes tokens ns db).files ≡ db.files
unfolding insert_nodes insert_node
files-insert_nodes tokens [] db = refl
files-insert_nodes tokens (n ∷ ns) db = files-insert_nodes tokens ns (insert_node tokens n db)

files-insert_edges : (es : List Edge) (db t : Db) → insert_edges es db ≡ some t → t.files ≡ db.files
unfolding insert_edges
files-insert_edges [] db t q = ground arith
files-insert_edges (e ∷ es) db t q =
    elim (Bool-cases (has_node e.source_id db && has_node e.target_id db)) [
      | inl y ↦
          files-insert_edges es (record db { edges = insert (key_of e) (with_count e) db.edges }) t
            (rw y at q)
      | inr f ↦ let r = rw f at q in absurd (ground arith)
    ]

lookup-put_files :
    (k : Str) (fs : List FileRecord) (db : Db)
    → lookup k (put_files fs db).files ≡ last_by record_path k fs (lookup k db.files)
unfolding put_files
lookup-put_files k [] db = refl
lookup-put_files k (f ∷ fs) db =
    lookup-put_files k fs (record db { files = insert f.path f db.files })
    ∙ ap (last_by record_path k fs) (lookup-insert f.path k f db.files)

files-put_irs : (rs : List FileIr) (db : Db) → (put_irs rs db).files ≡ db.files
unfolding put_irs
files-put_irs [] db = refl
files-put_irs (r ∷ rs) db = files-put_irs rs (record db { irs = insert r.path r db.irs })

abbrev pub hash_of : Option FileRecord → Option Str
hash_of none = none
hash_of (some f) = some f.content_hash

lookup-hashes :
    (k : Str) (m : List (Str × FileRecord))
    → lookup k (map (λ (x : Str × FileRecord). (x.0, x.1.content_hash)) m) ≡ hash_of (lookup k m)
lookup-hashes k [] = refl
lookup-hashes k ((p, f) ∷ m) = elim (Bool-cases (p == k)) [
  | inl y ↦ rw y refl
  | inr n ↦ rw n (lookup-hashes k m)
]

lookup-clear :
    (k : Str) (b : Batch) (db : Db)
    → lookup k (clear b db).files ≡ (if contains b.removed k then none else lookup k db.files)
unfolding clear
lookup-clear k b db =
    let bare = delete_nodes b.deleted_nodes (delete_edges b.deleted_edges db) in
    lookup-remove_files k b.removed (purge_touched b.touched bare)
    ∙ ap (λ m. if contains b.removed k then none else lookup k m)
        (files-purge_touched b.touched bare
          ∙ files-delete_nodes b.deleted_nodes (delete_edges b.deleted_edges db)
          ∙ files-delete_edges b.deleted_edges db)

-- The record of a path after a transaction that succeeds.
pub files-commit :
    (tokens : Node → Str) (b : Batch) (db t : Db) (k : Str)
    → commit tokens b db ≡ some t
    → lookup k t.files
      ≡ last_by record_path k b.recorded (
          last_by record_path k b.touched
            (if contains b.removed k then none else lookup k db.files))
unfolding commit finish
files-commit tokens b db t k q =
    go (insert_edges b.edges (insert_nodes tokens b.nodes (clear b db))) refl q
  where
    go :
        (r : Option Db)
        → insert_edges b.edges (insert_nodes tokens b.nodes (clear b db)) ≡ r
        → finish b r ≡ some t
        → lookup k t.files
          ≡ last_by record_path k b.recorded (
              last_by record_path k b.touched
                (if contains b.removed k then none else lookup k db.files))
    go none e h = absurd (ground arith)
    go (some x) e h =
        let same = ap (λ (d : Db). d.files) (some-injective _ _ h) in
        ap (lookup k)
          (sym same ∙ files-put_irs b.irs (put_files b.recorded (put_files b.touched x)))
        ∙ lookup-put_files k b.recorded (put_files b.touched x)
        ∙ ap (last_by record_path k b.recorded) (
            lookup-put_files k b.touched x
            ∙ ap (last_by record_path k b.touched) (
                ap (lookup k) (
                  files-insert_edges b.edges (insert_nodes tokens b.nodes (clear b db)) x e
                  ∙ files-insert_nodes tokens b.nodes (clear b db))
                ∙ lookup-clear k b db))

-- After a transaction that succeeds, the hash that FileHashes reads for a path is that of the last
-- record of the path among those of the batch, the recorded ones after the touched ones; with none in
-- the batch, a path that the batch removes has no hash, and any other has the one it had.
pub file_hashes-commit :
    (tokens : Node → Str) (b : Batch) (db t : Db) (k : Str)
    → commit tokens b db ≡ some t
    → lookup k (file_hashes t)
      ≡ hash_of (
          last_by record_path k b.recorded (
            last_by record_path k b.touched
              (if contains b.removed k then none else lookup k db.files)))
unfolding file_hashes
file_hashes-commit tokens b db t k q =
    lookup-hashes k t.files ∙ ap hash_of (files-commit tokens b db t k q)
