-- ===== src/Archlint.antt =====
-- pkg/archlint/linter.go: the rules of the architecture against the edges of the graph. The match of
-- a file name against a pattern with a star, filepath.Match, is a parameter; `false` is also its
-- error. An empty list of layers is as none.
pub mod Correct
pub mod Changes
pub mod Layers
use graph_context.Base.{
  ℕ, ◌+◌, ◌-◌, List, [], ◌∷◌, ◌++◌, Str, nat_eq, str_eq, str_lt, bytes, itoa, Bool, true, false,
  not, ◌&&◌, ◌||◌, Option, none, some, lookup, get_list, contains, has_prefix, has_suffix, has_part,
  nat_beq, ltb, sort_by, if◌then◌else◌, ◌==◌,
}
use graph_context.Store.Types.{
  Node, Edge, EdgeKind, edge_calls, edge_imports, edge_inherits, edge_implements, edge_references,
}
use graph_context.Analysis.Graph.{Graph}
use graph_context.Diff.Mapper.{ChangedSymbol}
use graph_context.Resolver.Family.{edge_kind_text}

pub record ForbiddenRule : Type 0 where
  pub from : Str
  pub to : Str
  pub message : Str

pub record RuleSet : Type 0 where
  pub forbidden : List ForbiddenRule
  pub layers : List Str

pub record Violation : Type 0 where
  pub rule_type : Str
  pub source_id : Str
  pub source_file : Str
  pub source_line : ℕ
  pub target_id : Str
  pub target_file : Str
  pub edge_kind : EdgeKind
  pub message : Str

-- dependencyKinds
abbrev pub is_dependency : EdgeKind → Bool
is_dependency edge_calls = true
is_dependency edge_imports = true
is_dependency edge_inherits = true
is_dependency edge_implements = true
is_dependency edge_references = true
is_dependency _ = false

-- strings.TrimSuffix for a suffix that is not empty
abbrev pub trim_suffix : Str → Str → Str
trim_suffix end [] = []
trim_suffix end (c ∷ s) = let rest = trim_suffix end s in if c ∷ s == end then [] else c ∷ rest

-- strings.HasPrefix(path, dir+"/")
abbrev pub is_under : Str → Str → Bool
is_under dir path = has_prefix (dir ++ bytes "/") path

abbrev pub hex_digit : ℕ → ℕ
hex_digit n = if ltb n 10 then 48 + n else 87 + n

-- The escapes of strconv.Quote for an ASCII character.
abbrev pub short_escapes : List (ℕ × Str)
short_escapes =
    (7, bytes "\\a")
    ∷ (8, bytes "\\b")
    ∷ (9, bytes "\\t")
    ∷ (10, bytes "\\n")
    ∷ (11, bytes "\\v")
    ∷ (12, bytes "\\f")
    ∷ (13, bytes "\\r")
    ∷ (34, bytes "\\\"")
    ∷ (92, bytes "\\\\")
    ∷ (127, bytes "\\x7f")
    ∷ []

abbrev pub control_char : ℕ → Str
control_char c =
    if ltb c 16
    then bytes "\\x0" ++ hex_digit c ∷ []
    else if ltb c 32
    then bytes "\\x1" ++ hex_digit (c - 16) ∷ []
    else c ∷ []

abbrev pub quote_char : ℕ → Str
quote_char c = elim (lookup c short_escapes) [ none ↦ control_char c | some s ↦ s ]

abbrev pub quote_chars : Str → Str
quote_chars [] = []
quote_chars (c ∷ s) = quote_char c ++ quote_chars s

-- %q, of a string whose runes beyond ASCII are valid and printable
abbrev pub quote : Str → Str
quote s = bytes "\"" ++ quote_chars s ++ bytes "\""

module _ (glob : Str → Str → Bool) where
  -- matchPathPattern
  unfoldable pub match_path_pattern : Str → Str → Bool
  match_path_pattern pattern path =
      if has_suffix (bytes "/**") pattern
      then path == trim_suffix (bytes "/**") pattern
        || is_under (trim_suffix (bytes "/**") pattern) path
      else if has_suffix (bytes "/*") pattern
      then is_under (trim_suffix (bytes "/*") pattern) path
      else (has_part (bytes "*") pattern && glob pattern path)
        || path == pattern
        || is_under pattern path

  -- findLayerIndex, with the layer itself; `none` for -1
  unfoldable pub find_layer : ℕ → List Str → Str → Option (ℕ × Str)
  unfolding match_path_pattern
  find_layer i [] path = none
  find_layer i (l ∷ ls) path =
      let rest = find_layer (i + 1) ls path in
      if match_path_pattern l path then some (i, l) else rest

  abbrev pub violation_of : Str → Str → Edge → Node → Node → Violation
  violation_of type message e src tgt = record {
    rule_type = type;
    source_id = src.id;
    source_file = src.file_path;
    source_line = e.line;
    target_id = tgt.id;
    target_file = tgt.file_path;
    edge_kind = e.kind;
    message = message;
  }

  -- fr.Message, or the default.
  abbrev pub message_of : ForbiddenRule → Str
  message_of r = elim r.message [
    | [] ↦ bytes "forbidden dependency: " ++ r.from ++ bytes " cannot depend on " ++ r.to
    | c ∷ s ↦ c ∷ s
  ]

  abbrev pub breaks : ForbiddenRule → Node → Node → Bool
  breaks r src tgt =
      match_path_pattern r.from src.file_path && match_path_pattern r.to tgt.file_path

  -- The loop over the forbidden dependencies.
  unfoldable pub forbidden_violations : List ForbiddenRule → Edge → Node → Node → List Violation
  unfolding match_path_pattern
  forbidden_violations [] e src tgt = []
  forbidden_violations (r ∷ rs) e src tgt =
      let rest = forbidden_violations rs e src tgt in
      if breaks r src tgt
      then violation_of (bytes "forbidden") (message_of r) e src tgt ∷ rest
      else rest

  abbrev pub layer_message : Str → Str → Str
  layer_message src tgt =
      bytes "layer violation: innermost layer "
      ++ quote src
      ++ bytes " cannot depend on outer layer "
      ++ quote tgt

  abbrev pub inversion : Edge → Node → Node → Option (ℕ × Str) → Option (ℕ × Str) → List Violation
  inversion e src tgt (some (i, l)) (some (j, m)) =
      if ltb j i
      then violation_of (bytes "layer_inversion") (layer_message l m) e src tgt ∷ []
      else []
  inversion e src tgt _ _ = []

  abbrev pub judge : RuleSet → Edge → Option Node → Option Node → List Violation
  judge rules e (some src) (some tgt) =
      if src.file_path == tgt.file_path
      then []
      else forbidden_violations rules.forbidden e src tgt
        ++ inversion e src tgt (find_layer 0 rules.layers src.file_path)
            (find_layer 0 rules.layers tgt.file_path)
  judge rules e _ _ = []

  -- evaluateEdge
  unfoldable pub evaluate_edge : Graph → RuleSet → Edge → List Violation
  unfolding forbidden_violations find_layer
  evaluate_edge g rules e = judge rules e (lookup e.source_id g.nodes) (lookup e.target_id g.nodes)

  -- The loop over the edges of a row.
  unfoldable pub lint_edges : Graph → RuleSet → List Edge → List Violation
  unfolding evaluate_edge
  lint_edges g rules [] = []
  lint_edges g rules (e ∷ es) =
      let rest = lint_edges g rules es in
      if is_dependency e.kind then evaluate_edge g rules e ++ rest else rest

  unfoldable pub lint_rows : Graph → RuleSet → List (Str × List Edge) → List Violation
  unfolding lint_edges
  lint_rows g rules [] = []
  lint_rows g rules ((_, es) ∷ rows) = lint_edges g rules es ++ lint_rows g rules rows

  -- sortViolations
  abbrev pub violation_less : Violation → Violation → Bool
  violation_less v w =
      if v.source_file == w.source_file
      then if nat_beq v.source_line w.source_line
        then if v.source_id == w.source_id
          then str_lt v.target_id w.target_id
          else str_lt v.source_id w.source_id
        else ltb v.source_line w.source_line
      else str_lt v.source_file w.source_file

  unfoldable pub lint_graph : Graph → RuleSet → List Violation
  unfolding lint_rows
  lint_graph g rules = sort_by violation_less (lint_rows g rules g.out)

  abbrev pub edge_mark : Edge → Str
  edge_mark e =
      e.source_id
      ++ bytes "->"
      ++ e.target_id
      ++ bytes ":"
      ++ edge_kind_text e.kind
      ++ bytes ":"
      ++ itoa e.line

  -- The edges of a changed symbol that were not seen, with those seen then.
  unfoldable pub lint_new : Graph → RuleSet → List Str → List Edge → List Violation × List Str
  unfolding evaluate_edge
  lint_new g rules seen [] = ([], seen)
  lint_new g rules seen (e ∷ es) =
      let skipped = lint_new g rules seen es in
      let marked = lint_new g rules (edge_mark e ∷ seen) es in
      if not (is_dependency e.kind) || contains seen (edge_mark e)
      then skipped
      else (evaluate_edge g rules e ++ marked.0, marked.1)

  unfoldable pub lint_changed : Graph → RuleSet → List Str → List ChangedSymbol → List Violation
  unfolding lint_new
  lint_changed g rules seen [] = []
  lint_changed g rules seen (c ∷ cs) =
      let r = lint_new g rules seen (get_list c.node.id g.out) in r.0 ++ lint_changed g rules r.1 cs

  unfoldable pub lint_diff : List ChangedSymbol → Graph → RuleSet → List Violation
  unfolding lint_changed
  lint_diff changed g rules = sort_by violation_less (lint_changed g rules [] changed)
