-- ===== src/Diff/Parse.antt =====
-- pkg/diff/diff.go: the parser of unified diffs. Text is ASCII and no number in it has a sign of its
-- own beside the one that the format puts there.
pub mod Hunk
use graph_context.Base.{
  ℕ, zero, suc, ◌+◌, List, [], ◌∷◌, ◌++◌, Str, bytes, Bool, true, false, not, ◌&&◌, ◌||◌, Option,
  none, some, str_eq, ◌==◌, nat_beq, has_prefix, trim_space, trim_prefix, fields, split, before,
  atoi, drop_return, leb, length, if◌then◌else◌,
}
use graph_context.Diff.Ranges.{LineRange, condense_line_ranges}

pub record FileDiff : Type 0 where
  pub old_path : Str
  pub new_path : Str
  pub is_new : Bool
  pub is_deleted : Bool
  pub added_lines : List ℕ
  pub deleted_lines : List ℕ
  pub modified_ranges : List LineRange

abbrev pub empty_diff : FileDiff
empty_diff = record {
  old_path = [];
  new_path = [];
  is_new = false;
  is_deleted = false;
  added_lines = [];
  deleted_lines = [];
  modified_ranges = [];
}

abbrev is_empty : Str → Bool
is_empty [] = true
is_empty (_ ∷ _) = false

abbrev pub dev_null : Str
dev_null = bytes "/dev/null"

unfoldable pub path : FileDiff → Str
path f =
    if not (is_empty f.new_path) && not (f.new_path == dev_null) then f.new_path else f.old_path

abbrev drop_two : Str → Str
drop_two (_ ∷ _ ∷ s) = s
drop_two s = []

unfoldable pub clean_diff_path : Str → Str
unfolding trim_space
clean_diff_path s =
    let p = trim_space s in
    if p == dev_null
    then p
    else if has_prefix (bytes "a/") p || has_prefix (bytes "b/") p
    then drop_two p
    else p

abbrev spec_start : List Str → ℕ
spec_start [] = 0
spec_start (p ∷ _) = atoi p

abbrev spec_count : List Str → ℕ
spec_count (_ ∷ c ∷ _) = atoi c
spec_count _ = 1

unfoldable pub parse_range_spec : Str → ℕ × ℕ
unfolding split atoi
parse_range_spec spec = let pieces = split b',' spec in (spec_start pieces, spec_count pieces)

abbrev drop_three : Str → Str
drop_three (_ ∷ _ ∷ _ ∷ s) = s
drop_three s = []

-- The new range and the old one; `none` is an error.
abbrev header_ranges : List Str → Option ((ℕ × ℕ) × (ℕ × ℕ))
header_ranges (old_part ∷ new_part ∷ _) = some (
  parse_range_spec (trim_prefix (bytes "+") new_part),
  parse_range_spec (trim_prefix (bytes "-") old_part),
)
header_ranges _ = none

unfoldable pub parse_hunk_header : Str → Option ((ℕ × ℕ) × (ℕ × ℕ))
unfolding parse_range_spec trim_prefix before trim_space split
parse_hunk_header line = elim (before (bytes " @@") (drop_three line)) [
  | none ↦ none
  | some body ↦ header_ranges (split b' ' (trim_space body))
]

-- The variables of the scan.
pub record State : Type 0 where
  pub diffs : List FileDiff
  pub current : Option FileDiff
  pub new_line : ℕ
  pub old_line : ℕ

-- The file that was being read is done.
unfoldable pub close_current : List FileDiff → Option FileDiff → List FileDiff
unfolding condense_line_ranges
close_current diffs none = diffs
close_current diffs (some f) =
    diffs ++ record f { modified_ranges = condense_line_ranges f.added_lines } ∷ []

abbrev with_paths : List Str → FileDiff
with_paths (_ ∷ _ ∷ a ∷ b ∷ _) = record empty_diff {
  old_path = clean_diff_path a;
  new_path = clean_diff_path b;
}
with_paths _ = empty_diff

-- A line that is no header of any kind.
unfoldable pub body_line : State → FileDiff → Str → State
body_line s f [] = record s { new_line = s.new_line + 1; old_line = s.old_line + 1 }
body_line s f (c ∷ _) =
    if nat_beq c b'+'
    then record s {
      current = some (record f { added_lines = f.added_lines ++ s.new_line ∷ [] });
      new_line = s.new_line + 1;
    }
    else if nat_beq c b'-'
    then record s {
      current = some (record f { deleted_lines = f.deleted_lines ++ s.old_line ∷ [] });
      old_line = s.old_line + 1;
    }
    else if nat_beq c b' '
    then record s { new_line = s.new_line + 1; old_line = s.old_line + 1 }
    else s

unfoldable pub hunk_line : State → Option ((ℕ × ℕ) × (ℕ × ℕ)) → State
hunk_line s none = s
hunk_line s (some (new, old)) = record s { new_line = new.0; old_line = old.0 }

-- A line after the first `diff --git`.
unfoldable pub file_line : State → FileDiff → Str → State
unfolding body_line hunk_line parse_hunk_header clean_diff_path trim_prefix
file_line s f line =
    if has_prefix (bytes "new file mode ") line
    then record s { current = some (record f { is_new = true }) }
    else if has_prefix (bytes "deleted file mode ") line
    then record s { current = some (record f { is_deleted = true }) }
    else if has_prefix (bytes "--- ") line
    then record s {
      current = some (record f { old_path = clean_diff_path (trim_prefix (bytes "--- ") line) });
    }
    else if has_prefix (bytes "+++ ") line
    then record s {
      current = some (record f { new_path = clean_diff_path (trim_prefix (bytes "+++ ") line) });
    }
    else if has_prefix (bytes "@@ ") line
    then hunk_line s (parse_hunk_header line)
    else body_line s f line

unfoldable pub later_line : State → Option FileDiff → Str → State
unfolding file_line
later_line s none line = s
later_line s (some f) line = file_line s f line

-- The body of the scan loop.
unfoldable pub step : State → Str → State
unfolding close_current later_line fields clean_diff_path
step s line =
    if has_prefix (bytes "diff --git ") line
    then record s {
      diffs = close_current s.diffs s.current;
      current = some (with_paths (fields line));
    }
    else later_line s s.current line

unfoldable pub steps : State → List Str → State
unfolding step
steps s [] = s
steps s (l ∷ ls) = steps (step s l) ls

abbrev pub start : State
start = record { diffs = []; current = none; new_line = 0; old_line = 0 }

-- The text up to each newline, and what follows the last if there is anything.
abbrev pub raw_lines : Str → Str → List Str
raw_lines [] [] = []
raw_lines (w ∷ ws) [] = (w ∷ ws) ∷ []
raw_lines line (c ∷ s) =
    let inside = raw_lines (line ++ c ∷ []) s in
    let after = raw_lines [] s in if nat_beq c 10 then line ∷ after else inside

-- The lines that bufio.Scanner gives, and whether it fails: at a line that with its newline does not
-- fit into bufio.MaxScanTokenSize.
abbrev pub held_lines : List Str → List Str × Bool
held_lines [] = ([], false)
held_lines (l ∷ ls) =
    let (rest, failed) = held_lines ls in
    if leb 65536 (length l) then ([], true) else (drop_return l ∷ rest, failed)

-- The diffs, and whether there is an error beside them.
unfoldable pub parse_unified_diff : Str → List FileDiff × Bool
unfolding steps close_current
parse_unified_diff text =
    let (lines, failed) = held_lines (raw_lines [] text) in
    let s = steps start lines in (close_current s.diffs s.current, failed)
