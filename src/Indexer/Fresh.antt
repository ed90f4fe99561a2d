-- ===== src/Indexer/Fresh.antt =====
-- pkg/indexer/indexer.go: EnsureFresh. What the crawler finds is a list of files with what os.Stat and
-- os.ReadFile answer for each, in the order in which the workers append them; a file is read a second
-- time when its parse was not cached, and may have another content then. The hash, the encoding of a
-- parse and the plugins are parameters. A database that cannot be read is not modelled.
pub mod Parse
pub mod Run
pub mod Scanned
pub mod Scans
pub mod Settled
pub mod Recorded
pub mod Parses
pub mod Sound
pub mod Commits
pub mod Correct
use graph_context.Base.{
  ℕ, zero, suc, ◌+◌, ◌*◌, List, [], ◌∷◌, ◌++◌, Str, str_eq, bytes, Bool, true, false, not, ◌&&◌,
  ◌||◌, Option, none, some, lookup, contains, keep, map, ltb, nat_beq, if◌then◌else◌, ◌==◌,
}
use graph_context.Store.Types.{Node, FileRecord, FileIr}
use graph_context.Store.Db.{Db, Batch, new_batch, commit}
use graph_context.Lang.Ir.{LangIr}
use graph_context.Lang.Registry.{Registry, Language, language_for}
use graph_context.Resolver.Family.{resolve}
use graph_context.Indexer.Diff.{Resolution, queue_graph_diff}

-- lang.IRVersion and resolver.Version
abbrev pub ir_version : Str
ir_version = bytes "1.3"

-- os.FileInfo
pub record Stat : Type 0 where
  pub size : ℕ
  pub mtime_ns : ℕ

-- A file that the crawler sends; `none` is the error of a call.
pub record OnDisk : Type 0 where
  pub rel : Str
  pub info : Option Stat
  pub content : Option Str
  pub later : Option Str

pub record FileData : Type 0 where
  pub rel : Str
  pub hash : Str
  pub src : Option Str
  pub later : Option Str
  pub size : ℕ
  pub mtime_ns : ℕ
  pub restat : Bool
  pub dirty : Bool

-- The database and the version that its meta table records.
pub record Kept : Type 0 where
  pub db : Db
  pub version : Str

abbrev pub is_blank : Str → Bool
is_blank [] = true
is_blank (_ ∷ _) = false

unfoldable pub stat_unchanged : FileRecord → Stat → Bool
stat_unchanged r info =
    not (is_blank r.content_hash)
    && nat_beq r.size info.size
    && nat_beq r.mod_time_ns info.mtime_ns
    && ltb info.mtime_ns (r.indexed_at * 1000000000)

module _ (registry : Registry) (hash_of : Str → Str) where
  -- A file that its stat does not vouch for.
  abbrev pub read_file : OnDisk → Stat → Option FileRecord → Option Str → Option FileData
  read_file f info known none = none
  read_file f info none (some src) = some (record {
    rel = f.rel;
    hash = hash_of src;
    src = some src;
    later = f.later;
    size = info.size;
    mtime_ns = info.mtime_ns;
    restat = false;
    dirty = true;
  })
  read_file f info (some r) (some src) = some (record {
    rel = f.rel;
    hash = hash_of src;
    src = some src;
    later = f.later;
    size = info.size;
    mtime_ns = info.mtime_ns;
    restat = r.content_hash == hash_of src;
    dirty = not (r.content_hash == hash_of src);
  })

  abbrev pub unread : OnDisk → Stat → FileRecord → FileData
  unread f info r = record {
    rel = f.rel;
    hash = r.content_hash;
    src = none;
    later = f.later;
    size = info.size;
    mtime_ns = info.mtime_ns;
    restat = false;
    dirty = false;
  }

  abbrev pub check_file : OnDisk → Stat → Option FileRecord → Option FileData
  check_file f info none = read_file f info none f.content
  check_file f info (some r) =
      if stat_unchanged r info then some (unread f info r) else read_file f info (some r) f.content

  abbrev pub stat_file : OnDisk → Option Stat → Option FileRecord → Option FileData
  stat_file f none known = none
  stat_file f (some info) known = check_file f info known

  -- The body of a worker's loop; `none` is its `continue`.
  unfoldable pub scan_file : List (Str × FileRecord) → OnDisk → Option FileData
  unfolding language_for
  scan_file stored f = elim (language_for registry f.rel) [
    | none ↦ none
    | some _ ↦ stat_file f f.info (lookup f.rel stored)
  ]

  unfoldable pub scan : List (Str × FileRecord) → List OnDisk → List FileData
  unfolding scan_file
  scan stored [] = []
  scan stored (f ∷ fs) =
      let rest = scan stored fs in elim (scan_file stored f) [ none ↦ rest | some fd ↦ fd ∷ rest ]

abbrev pub seen : List FileData → List Str
seen fds = map (λ (fd : FileData). fd.rel) fds

abbrev pub any_dirty : List FileData → Bool
any_dirty [] = false
any_dirty (fd ∷ fds) = fd.dirty || any_dirty fds

-- The stored files that were not seen.
abbrev pub deleted_files : List Str → List (Str × FileRecord) → List Str
deleted_files found [] = []
deleted_files found ((p, _) ∷ m) =
    let rest = deleted_files found m in if contains found p then rest else p ∷ rest

abbrev pub is_some_of {ℓ} : {A : Type ℓ} → List A → Bool
is_some_of [] = false
is_some_of (_ ∷ _) = true

abbrev pub new_record : ℕ → FileData → FileRecord
new_record now fd = record {
  path = fd.rel;
  content_hash = fd.hash;
  indexed_at = now;
  size = fd.size;
  mod_time_ns = fd.mtime_ns;
}

abbrev pub new_records : ℕ → List FileData → List FileRecord
new_records now fds = map (new_record now) (keep (λ fd. fd.dirty || fd.restat) fds)
