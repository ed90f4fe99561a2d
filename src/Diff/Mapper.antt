-- ===== src/Diff/Mapper.antt =====
-- pkg/diff/mapper.go: the symbols of the store that a diff touches. filepath.ToSlash leaves a path as
-- it is where the separator is the slash, and the reads of the store do not fail.
pub mod Lines
pub mod Visit
pub mod Correct
use graph_context.Base.{
  ℕ, zero, suc, ◌+◌, ◌-◌, List, [], ◌∷◌, ◌++◌, Str, str_eq, str_lt, Bool, true, false, ◌||◌, Option,
  none, some, nat_eq, contains, keep, length, leb, if◌then◌else◌, ◌==◌, sort_by,
}
use graph_context.Store.Types.{Node}
use graph_context.Store.Db.{Db}
use graph_context.Store.Query.{nodes_in_file, all_nodes}
use graph_context.Diff.Parse.{FileDiff, path}

pub data ChangeType : Type 0 where
  change_deleted change_modified change_added : ChangeType

pub record ChangedSymbol : Type 0 where
  pub node : Node
  pub change_type : ChangeType
  pub matched_lines : List ℕ

-- `for line := from; ...; line++`, a number of times.
abbrev pub count_up : ℕ → ℕ → List ℕ
count_up from zero = []
count_up from (suc n) = from ∷ count_up (suc from) n

-- The lines that the loops over a node run through.
abbrev pub lines_of : Node → List ℕ
lines_of n = count_up n.start_line (n.end_line + 1 - n.start_line)

-- The added lines of the diff that lie in the node.
unfoldable pub matched : FileDiff → Node → List ℕ
matched fd n = keep (contains fd.added_lines) (lines_of n)

-- The first line of the node that the diff deletes, and the loop is left.
unfoldable pub first_deleted : FileDiff → Node → List ℕ → Option ChangedSymbol
first_deleted fd n [] = none
first_deleted fd n (l ∷ ls) =
    let rest = first_deleted fd n ls in
    if contains fd.deleted_lines l
    then some (record { node = n; change_type = change_modified; matched_lines = l ∷ [] })
    else rest

-- `fd.IsNew || len(matched) >= (n.EndLine-n.StartLine+1)`, where a line has matched
unfoldable pub added_or_modified : FileDiff → Node → List ℕ → ChangeType
added_or_modified fd n ls =
    if fd.is_new || leb (n.end_line + 1 - n.start_line) (length ls)
    then change_added
    else change_modified

unfoldable pub touched_lines : FileDiff → Node → List ℕ → Option ChangedSymbol
unfolding first_deleted added_or_modified
touched_lines fd n [] = first_deleted fd n (lines_of n)
touched_lines fd n (l ∷ ls) =
    some
      (record { node = n; change_type = added_or_modified fd n (l ∷ ls); matched_lines = l ∷ ls })

-- What the diff of a file does to a node in it that was not seen before.
unfoldable pub change_of : FileDiff → Node → Option ChangedSymbol
unfolding touched_lines matched
change_of fd n =
    if fd.is_deleted
    then some (record { node = n; change_type = change_deleted; matched_lines = [] })
    else touched_lines fd n (matched fd n)

pub record Found : Type 0 where
  pub seen : List Str
  pub results : List ChangedSymbol

unfoldable pub add_change : Found → Str → Option ChangedSymbol → Found
add_change s id none = s
add_change s id (some c) = record { seen = id ∷ s.seen; results = s.results ++ c ∷ [] }

-- The body of the loops over the nodes, that of a deleted file and the other.
unfoldable pub visit_node : FileDiff → Found → Node → Found
unfolding change_of add_change
visit_node fd s n = if contains s.seen n.id then s else add_change s n.id (change_of fd n)

unfoldable pub visit_nodes : FileDiff → Found → List Node → Found
unfolding visit_node
visit_nodes fd s [] = s
visit_nodes fd s (n ∷ ns) = visit_nodes fd (visit_node fd s n) ns

-- `if len(nodes) == 0`, the nodes are looked for among all.
unfoldable pub or_all : Db → Str → List Node → List Node
or_all db p [] = keep (λ n. n.file_path == p) (all_nodes db)
or_all db p (n ∷ ns) = n ∷ ns

unfoldable pub file_nodes : Db → Str → List Node
unfolding or_all nodes_in_file all_nodes
file_nodes db p = or_all db p (nodes_in_file db p)

-- `for _, fd := range diffs`
unfoldable pub visit_diffs : Db → Found → List FileDiff → Found
unfolding visit_nodes file_nodes path
visit_diffs db s [] = s
visit_diffs db s (fd ∷ fds) = visit_diffs db (visit_nodes fd s (file_nodes db (path fd))) fds

abbrev pub by_id : ChangedSymbol → ChangedSymbol → Bool
by_id a b = str_lt a.node.id b.node.id

unfoldable pub map_diff_to_symbols : List FileDiff → Db → List ChangedSymbol
unfolding visit_diffs
map_diff_to_symbols diffs db =
    sort_by by_id (visit_diffs db (record { seen = []; results = [] }) diffs).results
