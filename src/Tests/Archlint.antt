-- ===== src/Tests/Archlint.antt =====
-- pkg/archlint at two files of two layers.
use graph_context.Base.{
  ℕ, ◌≡◌, refl, List, [], ◌∷◌, ◌↔◌, Str, str_eq, bytes, Bool, true, false, some, none, Memᴰ, All,
  ◌==◌,
}
use graph_context.Store.Types.{Node, Edge, edge_calls}
use graph_context.Analysis.Graph.{Graph, new_graph}
use graph_context.Diff.Mapper.{ChangedSymbol, change_modified}
use graph_context.Archlint.{
  RuleSet, Violation, is_dependency, match_path_pattern, quote, find_layer, lint_graph, lint_diff,
}
use graph_context.Archlint.Correct.{Breach, Holds, lint_graph_lem}
use graph_context.Archlint.Changes.{Reported, lint_diff-lint_graph}
use graph_context.Archlint.Layers.{IsLayer, find_layer_lem}
use graph_context.Base.{get_list}
use graph_context.Tests.Data.{function, call_of}

abbrev same_text : Str → Str → Bool
same_text pattern path = pattern == path

abbrev inner : Node
inner = record (function (bytes "inner")) { file_path = bytes "core/a.go" }

abbrev outer : Node
outer = record (function (bytes "outer")) { file_path = bytes "cli/b.go" }

abbrev layered : Graph
unfolding new_graph
layered =
    new_graph (inner ∷ outer ∷ [])
      (call_of (bytes "inner") (bytes "outer") ∷ call_of (bytes "outer") (bytes "inner") ∷ [])

abbrev rules : RuleSet
rules = record { forbidden = []; layers = bytes "cli/**" ∷ bytes "core/*" ∷ [] }

abbrev inverted : Violation
inverted = record {
  rule_type = bytes "layer_inversion";
  source_id = bytes "inner";
  source_file = bytes "core/a.go";
  source_line = 4;
  target_id = bytes "outer";
  target_file = bytes "cli/b.go";
  edge_kind = edge_calls;
  message =
      bytes "layer violation: innermost layer \"core/*\" cannot depend on outer layer \"cli/**\"";
}

-- Only the call out of the later layer is reported.
one_violation : lint_graph same_text layered rules ≡ inverted ∷ []
unfolding lint_graph layered
one_violation = refl

lint_graph_lem_example : Memᴰ inverted (lint_graph same_text layered rules) ↔ (
    (e : Edge) × Holds same_text layered.out e
    × (is_dependency e.kind ≡ true)
    × Breach same_text layered rules e inverted)
lint_graph_lem_example = lint_graph_lem same_text layered rules inverted

abbrev changed_inner : List ChangedSymbol
changed_inner = record { node = inner; change_type = change_modified; matched_lines = 4 ∷ [] } ∷ []

in_the_diff : Memᴰ inverted (lint_diff same_text changed_inner layered rules)
unfolding lint_diff layered
in_the_diff = Memᴰ.head refl

lint_diff-lint_graph_example :
    ((c : ChangedSymbol) × Memᴰ c changed_inner
      × Reported same_text layered rules inverted (get_list c.node.id layered.out))
    × Memᴰ inverted (lint_graph same_text layered rules)
lint_diff-lint_graph_example =
    lint_diff-lint_graph same_text layered rules inverted changed_inner in_the_diff

find_layer_lem_example :
    ((i : ℕ) (l : Str)
      → find_layer same_text 0 rules.layers (bytes "core/a.go") ≡ some (i, l)
      → IsLayer same_text rules.layers (bytes "core/a.go") 0 i l)
    × ((find_layer same_text 0 rules.layers (bytes "core/a.go") ≡ none)
        ↔ All (λ m. match_path_pattern same_text m (bytes "core/a.go") ≡ false) rules.layers)
find_layer_lem_example = find_layer_lem same_text 0 rules.layers (bytes "core/a.go")

quoted : quote (bytes "a\"b\\c\n") ≡ bytes "\"a\\\"b\\\\c\\n\""
quoted = refl
