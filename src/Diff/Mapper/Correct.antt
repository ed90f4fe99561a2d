-- ===== src/Diff/Mapper/Correct.antt =====
-- pkg/diff/mapper.go: the symbols that MapDiffToSymbols reports.
use graph_context.Base.{
  ◌≡◌, refl, sym, ◌∙◌, List, [], map, Str, str_eq, true, contains, contains_iff, All, mem-All,
  IsDistinct, IsDistinct-sort_by, Memᴰ, Memᴰ-sort_by, not-Memᴰ-nil, values, sort_by, IsSortedBy,
  sort_by-IsSortedBy, IsOrder, str_lt-asym, str_lt-chain,
}
use mathlib.Core.List.Memᴰ
use graph_context.Store.Types.{Node}
use graph_context.Store.Db.{Db}
use graph_context.Diff.Parse.{FileDiff, path}
use graph_context.Diff.Mapper.{ChangedSymbol, Found, visit_diffs, by_id, map_diff_to_symbols}
use graph_context.Diff.Mapper.Lines.{
  IsTouched, Describes, change_of-Describes, change_of-some, mem-file_nodes,
}
use graph_context.Diff.Mapper.Visit.{symbol_id, Comes, Kept, visit_diffs-Kept, visit_diffs-marks}

by_id-IsOrder : IsOrder by_id
by_id-IsOrder = record {
  asym = λ a b. str_lt-asym a.node.id b.node.id;
  chain = λ a b c. str_lt-chain a.node.id b.node.id c.node.id;
}

-- The symbol stands in the file of a diff, which describes its change.
abbrev pub IsChangeOf : Db → List FileDiff → ChangedSymbol → Type 0
IsChangeOf db diffs c =
    (fd : FileDiff) × Memᴰ fd diffs
    × Memᴰ c.node (values db.nodes)
    × (c.node.file_path ≡ path fd)
    × Describes fd c

Comes-IsChangeOf :
    (db : Db) (diffs : List FileDiff) (c : ChangedSymbol) → Comes db diffs c → IsChangeOf db diffs c
Comes-IsChangeOf db diffs c (fd, there, m, q) =
    let (stored, in_file) = (mem-file_nodes db (path fd) c.node).0 m in
    (fd, there, stored, in_file, change_of-Describes fd c.node c q refl)

start-Kept : (db : Db) (diffs : List FileDiff) → Kept db diffs (record { seen = []; results = [] })
start-Kept db diffs = record {
  sound = λ c m. absurd (not-Memᴰ-nil m);
  distinct = tt;
  same = λ id. refl;
}

-- A seen ID is that of a result.
of_seen :
    (db : Db) (diffs : List FileDiff) (s : Found) (id : Str)
    → Kept db diffs s
    → contains s.seen id ≡ true
    → (c : ChangedSymbol) × Memᴰ c s.results × (symbol_id c ≡ id)
of_seen db diffs s id k h =
    Memᴰ.of_map symbol_id s.results
      ((contains_iff (map symbol_id s.results) id).0 (sym (k.same id) ∙ h))

abbrev start : Found
start = record { seen = []; results = [] }

visited-Kept : (db : Db) (diffs : List FileDiff) → Kept db diffs (visit_diffs db start diffs)
visited-Kept db diffs = visit_diffs-Kept db diffs start diffs (λ fd m. m) (start-Kept db diffs)

-- The symbols reported for a diff are sorted by ID, and no ID stands twice. Each is a stored node in
-- the file of a diff: deleted, with no lines, if the file was deleted; with all of its lines that are
-- added if there are any, and then as added if the file is new or these are all of its lines, and as
-- modified otherwise; and else as modified, with a line of it that was deleted.
pub map_diff_to_symbols_lem :
    (diffs : List FileDiff) (db : Db)
    → IsSortedBy by_id (map_diff_to_symbols diffs db)
      × IsDistinct symbol_id (map_diff_to_symbols diffs db)
      × All (IsChangeOf db diffs) (map_diff_to_symbols diffs db)
unfolding map_diff_to_symbols
map_diff_to_symbols_lem diffs db =
    let s = visit_diffs db start diffs in
    let k = visited-Kept db diffs in
    (
      sort_by-IsSortedBy by_id-IsOrder s.results,
      IsDistinct-sort_by symbol_id by_id s.results k.distinct,
      mem-All (IsChangeOf db diffs) (sort_by by_id s.results)
          (λ c m. Comes-IsChangeOf db diffs c (k.sound c ((Memᴰ-sort_by by_id c s.results).0 m))),
    )

-- Every stored node that a diff of its file touches, because the file was deleted or a line of the
-- node was added or deleted, is reported: there is a symbol with its ID.
pub map_diff_to_symbols_covers :
    (diffs : List FileDiff) (db : Db) (fd : FileDiff) (n : Node)
    → Memᴰ fd diffs
    → Memᴰ n (values db.nodes)
    → n.file_path ≡ path fd
    → IsTouched fd n
    → (c : ChangedSymbol) × Memᴰ c (map_diff_to_symbols diffs db) × (c.node.id ≡ n.id)
unfolding map_diff_to_symbols
map_diff_to_symbols_covers diffs db fd n there stored in_file touched =
    let s = visit_diffs db start diffs in
    let (x, q) = change_of-some fd n touched in
    let at = (mem-file_nodes db (path fd) n).1 (stored, in_file) in
    let (c, m, same) =
      of_seen db diffs s n.id (visited-Kept db diffs)
        (visit_diffs-marks db start diffs fd n x there at q) in
    (c, (Memᴰ-sort_by by_id c s.results).1 m, same)
