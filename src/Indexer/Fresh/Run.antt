-- ===== src/Indexer/Fresh/Run.antt =====
-- pkg/indexer/indexer.go: EnsureFresh, from the files to the commit.
use graph_context.Base.{
  ℕ, List, [], ◌∷◌, Str, str_eq, Bool, true, false, not, ◌&&◌, ◌||◌, Option, none, some,
  if◌then◌else◌, ◌==◌,
}
use graph_context.Store.Types.{Node, FileRecord, FileIr}
use graph_context.Store.Db.{Db, Batch, new_batch, commit}
use graph_context.Lang.Ir.{LangIr}
use graph_context.Lang.Registry.{Registry}
use graph_context.Resolver.Family.{resolve}
use graph_context.Indexer.Diff.{Resolution, queue_graph_diff}
use graph_context.Indexer.Fresh.{
  ir_version, OnDisk, FileData, Kept, scan, seen, any_dirty, deleted_files, is_some_of, new_records,
}
use graph_context.Indexer.Fresh.Parse.{Parsed, parse_files, irs_of, fresh_rows}

abbrev pub to_resolution : Registry → Str → List LangIr → Resolution
to_resolution registry repo_root irs =
    let r = resolve registry repo_root irs in record { nodes = r.nodes; edges = r.edges }

module _ (registry : Registry) (repo_root : Str) (hash_of : Str → Str)
    (encode : LangIr → Option Str) (decode : Str → Option LangIr) (tokens : Node → Str) where
  -- The cached parses that may be used: none if they are of another version.
  abbrev pub usable : Kept → List (Str × FileIr)
  usable k = if k.version == ir_version then k.db.irs else []

  abbrev pub current_parses : Kept → List FileData → List Parsed
  current_parses k fds = parse_files registry hash_of encode decode (usable k) fds

  -- The batch that RecordFile, PutIR and RemoveFile have filled.
  abbrev pub fresh_batch : ℕ → Kept → List FileData → Batch
  fresh_batch now k fds = record new_batch {
    recorded = new_records now fds;
    irs = fresh_rows (current_parses k fds);
    removed = deleted_files (seen fds) k.db.files;
  }

  unfoldable pub is_changed : Kept → List FileData → Bool
  is_changed k fds =
      (not (k.version == ir_version) && is_some_of fds)
      || any_dirty fds
      || is_some_of (deleted_files (seen fds) k.db.files)

  abbrev pub with_db : Bool → Str → Option Db → Option (Bool × Kept)
  with_db changed version none = none
  with_db changed version (some db) = some (changed, record { db = db; version = version })

  -- Nothing to index: fresh stats are written if there are any.
  unfoldable pub record_stats : Kept → List FileRecord → Option (Bool × Kept)
  unfolding commit
  record_stats k [] = some (false, k)
  record_stats k (r ∷ rs) =
      with_db false k.version (commit tokens (record new_batch { recorded = r ∷ rs }) k.db)

  unfoldable pub reindex : ℕ → Kept → List FileData → Option (Bool × Kept)
  unfolding commit queue_graph_diff resolve parse_files
  reindex now k fds = with_db true ir_version (
      commit tokens
        (queue_graph_diff k.db (fresh_batch now k fds)
          (to_resolution registry repo_root (irs_of (current_parses k fds))))
        k.db)

  abbrev pub refresh_with : ℕ → Kept → List FileData → Option (Bool × Kept)
  refresh_with now k fds =
      let stats = record_stats k (new_records now fds) in
      let graph = reindex now k fds in if is_changed k fds then graph else stats

  -- EnsureFresh; `none` is an error.
  unfoldable pub ensure_fresh : ℕ → List OnDisk → Kept → Option (Bool × Kept)
  unfolding scan is_changed record_stats reindex
  ensure_fresh now disk k = refresh_with now k (scan registry hash_of k.db.files disk)
