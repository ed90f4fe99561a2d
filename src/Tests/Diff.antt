-- ===== src/Tests/Diff.antt =====
-- pkg/diff at a small diff.
use graph_context.Base.{◌≡◌, ◌≢◌, refl, List, [], ◌∷◌, bytes, map}
use graph_context.Base.{All, str_eq, IsSortedBy, IsDistinct, Memᴰ, inl, inr, arith}
use graph_context.Store.Db.{Db}
use graph_context.Tests.Data.{main, leaf}
use graph_context.Diff.Mapper.{ChangedSymbol, by_id, map_diff_to_symbols}
use graph_context.Diff.Mapper.Visit.{symbol_id}
use graph_context.Diff.Mapper.Correct.{
  IsChangeOf, map_diff_to_symbols_lem, map_diff_to_symbols_covers,
}
use graph_context.Diff.Ranges.{condense_line_ranges}
use graph_context.Diff.Ranges.Correct.{expand, IsCondensed, condense_line_ranges_lem}
use graph_context.Diff.Parse.{FileDiff, path, empty_diff, steps, clean_diff_path}
use graph_context.Diff.Parse.Hunk.{
  Line, added, removed, context, print, reading, with_lines, added_at, removed_at, new_count,
  old_count, steps-print, removed_dashes_lost,
}

condense_line_ranges_lem_example :
    (expand (condense_line_ranges (3 ∷ 4 ∷ 5 ∷ 9 ∷ [])) ≡ 3 ∷ 4 ∷ 5 ∷ 9 ∷ [])
    × IsCondensed (condense_line_ranges (3 ∷ 4 ∷ 5 ∷ 9 ∷ []))
condense_line_ranges_lem_example = condense_line_ranges_lem (3 ∷ 4 ∷ 5 ∷ 9 ∷ [])

abbrev some_lines : List Line
some_lines = context (bytes "a") ∷ removed (bytes "b") ∷ added (bytes "c") ∷ added (bytes "d") ∷ []

steps-print_example :
    steps (reading [] empty_diff 7 6) (map print some_lines)
    ≡ reading []
        (with_lines empty_diff (added_at 7 some_lines) (removed_at 6 some_lines))
        (new_count 7 some_lines)
        (old_count 6 some_lines)
steps-print_example = steps-print some_lines [] empty_diff 7 6 (tt, (refl, (refl, (refl, tt))))

removed_dashes_lost_example :
    let line = removed (b'-' ∷ b'-' ∷ b' ' ∷ bytes "x") in
    (steps (reading [] empty_diff 7 6) (print line ∷ [])
      ≡ reading [] (record empty_diff { old_path = clean_diff_path (bytes "x") }) 7 6)
    × (steps (reading [] empty_diff 7 6) (print line ∷ [])
        ≢ reading []
            (with_lines empty_diff (added_at 7 (line ∷ [])) (removed_at 6 (line ∷ [])))
            (new_count 7 (line ∷ []))
            (old_count 6 (line ∷ [])))
removed_dashes_lost_example = removed_dashes_lost [] empty_diff 7 6 (bytes "x")

abbrev one_line : FileDiff
one_line = record empty_diff { new_path = bytes "app.go"; added_lines = 4 ∷ [] }

abbrev stored : Db
stored = record {
  nodes = (bytes "main", main) ∷ (bytes "leaf", leaf) ∷ [];
  edges = [];
  files = [];
  irs = [];
  fts = [];
}

map_diff_to_symbols_lem_example :
    IsSortedBy by_id (map_diff_to_symbols (one_line ∷ []) stored)
    × IsDistinct symbol_id (map_diff_to_symbols (one_line ∷ []) stored)
    × All (IsChangeOf stored (one_line ∷ [])) (map_diff_to_symbols (one_line ∷ []) stored)
map_diff_to_symbols_lem_example = map_diff_to_symbols_lem (one_line ∷ []) stored

map_diff_to_symbols_covers_example :
    (c : ChangedSymbol) × Memᴰ c (map_diff_to_symbols (one_line ∷ []) stored)
    × (c.node.id ≡ bytes "leaf")
map_diff_to_symbols_covers_example =
    map_diff_to_symbols_covers (one_line ∷ []) stored one_line leaf (Memᴰ.head refl)
      (Memᴰ.tail (Memᴰ.head refl)) app_file
      (inr (4, (omega arith, omega arith), inl (Memᴰ.head refl)))
  where
    app_file : leaf.file_path ≡ path one_line
    app_file = unfold path in refl
