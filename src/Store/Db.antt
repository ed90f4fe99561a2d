-- ===== src/Store/Db.antt =====
-- pkg/store/write.go: a batch of changes, and the transaction that writes it. A table is a map from
-- its primary key; the full-text rows are keyed by the ID of the node whose rowid they share. The
-- only failure that is modelled is that of a foreign key, which rolls the transaction back: a
-- failing disk is not. `tokens` is what the full-text index holds of a node.
pub mod Valid
pub mod Clear
pub mod Write
pub mod Effect
use graph_context.Base.{
  ℕ, zero, suc, List, [], ◌∷◌, ◌++◌, Str, Bool, true, false, not, ◌&&◌, ◌||◌, Option, none, some,
  str_eq, nat_beq, lookup, insert, delete, keep, if◌then◌else◌, ◌==◌,
}
use graph_context.Store.Types.{
  Node, Edge, EdgeKey, key_of, edge_key_eq, FileRecord, FileIr, NodeKind, kind_external,
}

-- A row of symbols_fts.
pub record FtsRow : Type 0 where
  pub tokens : Str
  pub docstring : Str

pub record Db : Type 0 where
  pub nodes : List (Str × Node)
  pub edges : List (EdgeKey × Edge)
  pub files : List (Str × FileRecord)
  pub irs : List (Str × FileIr)
  pub fts : List (Str × FtsRow)

pub record Batch : Type 0 where
  pub nodes : List Node
  pub edges : List Edge
  pub touched : List FileRecord
  pub removed : List Str
  pub recorded : List FileRecord
  pub deleted_nodes : List Str
  pub deleted_edges : List Edge
  pub irs : List FileIr

abbrev pub new_batch : Batch
new_batch = record {
  nodes = [];
  edges = [];
  touched = [];
  removed = [];
  recorded = [];
  deleted_nodes = [];
  deleted_edges = [];
  irs = [];
}

-- DELETE FROM edges by primary key
unfoldable pub delete_edges : List Edge → Db → Db
delete_edges [] db = db
delete_edges (e ∷ es) db = delete_edges es (record db { edges = delete (key_of e) db.edges })

-- An edge that ON DELETE CASCADE leaves when the nodes that `gone` tells are deleted.
abbrev pub stays : (Str → Bool) → EdgeKey × Edge → Bool
stays gone (k, _) = not (gone k.source || gone k.target)

-- The deletion of one node, with its edges and its full-text row.
unfoldable pub delete_node : Str → Db → Db
delete_node id db = record db {
  nodes = delete id db.nodes;
  edges = keep (stays (λ k. id == k)) db.edges;
  fts = delete id db.fts;
}

unfoldable pub delete_nodes : List Str → Db → Db
unfolding delete_node
delete_nodes [] db = db
delete_nodes (id ∷ ids) db = delete_nodes ids (delete_node id db)

-- Whether the node of an ID lies in a file.
abbrev pub in_file : Str → List (Str × Node) → Str → Bool
in_file path m k = elim (lookup k m) [ none ↦ false | some n ↦ n.file_path == path ]

-- DELETE FROM nodes WHERE file_path = path, with the full-text rows first
unfoldable pub purge_file : Str → Db → Db
purge_file path db = record db {
  nodes = keep (λ (_, n). not (n.file_path == path)) db.nodes;
  edges = keep (stays (in_file path db.nodes)) db.edges;
  fts = keep (λ (k, _). not (in_file path db.nodes k)) db.fts;
}

unfoldable pub purge_touched : List FileRecord → Db → Db
unfolding purge_file
purge_touched [] db = db
purge_touched (f ∷ fs) db = purge_touched fs (purge_file f.path db)

unfoldable pub remove_files : List Str → Db → Db
unfolding purge_file
remove_files [] db = db
remove_files (p ∷ ps) db =
    let purged = purge_file p db in
    remove_files ps (record purged { files = delete p purged.files; irs = delete p purged.irs })

abbrev pub is_external : NodeKind → Bool
is_external kind_external = true
is_external _ = false

module _ (tokens : Node → Str) where
  -- External nodes are synthetic and not worth searching.
  unfoldable pub insert_node : Node → Db → Db
  insert_node n db = record db {
    nodes = insert n.id n db.nodes;
    fts =
        if is_external n.kind
        then db.fts
        else insert n.id (record { tokens = tokens n; docstring = n.docstring }) db.fts;
  }

  unfoldable pub insert_nodes : List Node → Db → Db
  unfolding insert_node
  insert_nodes [] db = db
  insert_nodes (n ∷ ns) db = insert_nodes ns (insert_node n db)

-- The default of candidate_count on write.
abbrev pub with_count : Edge → Edge
with_count e = record e {
  candidate_count = if nat_beq e.candidate_count 0 then 1 else e.candidate_count;
}

abbrev pub has_node : Str → Db → Bool
has_node id db = elim (lookup id db.nodes) [ none ↦ false | some _ ↦ true ]

-- Both ends of an edge are nodes, or the insert fails.
unfoldable pub insert_edges : List Edge → Db → Option Db
insert_edges [] db = some db
insert_edges (e ∷ es) db =
    let rest = insert_edges es (record db { edges = insert (key_of e) (with_count e) db.edges }) in
    if has_node e.source_id db && has_node e.target_id db then rest else none

unfoldable pub put_files : List FileRecord → Db → Db
put_files [] db = db
put_files (f ∷ fs) db = put_files fs (record db { files = insert f.path f db.files })

unfoldable pub put_irs : List FileIr → Db → Db
put_irs [] db = db
put_irs (r ∷ rs) db = put_irs rs (record db { irs = insert r.path r db.irs })

-- The deletes and purges of Commit, up to the first insert.
unfoldable pub clear : Batch → Db → Db
unfolding delete_edges delete_nodes purge_touched remove_files
clear b db =
    remove_files b.removed
      (purge_touched b.touched (delete_nodes b.deleted_nodes (delete_edges b.deleted_edges db)))

-- The rest of Commit, once the edges are in.
unfoldable pub finish : Batch → Option Db → Option Db
unfolding put_files put_irs
finish b none = none
finish b (some t) = some (put_irs b.irs (put_files b.recorded (put_files b.touched t)))

-- `none` is an error, after which the database is as it was.
unfoldable pub commit : (Node → Str) → Batch → Db → Option Db
unfolding clear insert_nodes insert_edges finish
commit tokens b db = finish b (insert_edges b.edges (insert_nodes tokens b.nodes (clear b db)))
