-- ===== src/Tests/Data.antt =====
-- The graph that the tests share: main calls helper, helper calls leaf and itself, and nothing calls
-- unused.
use graph_context.Base.{List, [], ◌∷◌, Str, bytes, false}
use graph_context.Store.Types.{
  Node, Edge, kind_function, entry_none, vis_none, edge_calls, conf_exact,
}

abbrev pub function : Str → Node
function name = record {
  id = name;
  kind = kind_function;
  name = name;
  qualified_name = name;
  file_path = bytes "app.go";
  start_line = 3;
  end_line = 5;
  start_byte = 0;
  end_byte = 0;
  language = bytes "go";
  signature = [];
  docstring = [];
  is_test = false;
  is_entrypoint = false;
  entrypoint_kind = entry_none;
  visibility = vis_none;
}

abbrev pub call_of : Str → Str → Edge
call_of from to = record {
  source_id = from;
  target_id = to;
  kind = edge_calls;
  line = 4;
  confidence = conf_exact;
  candidate_count = 0;
}

abbrev pub main : Node
main = function (bytes "main")

abbrev pub helper : Node
helper = function (bytes "helper")

abbrev pub leaf : Node
leaf = function (bytes "leaf")

abbrev pub unused : Node
unused = function (bytes "unused")

abbrev pub some_nodes : List Node
some_nodes = main ∷ helper ∷ leaf ∷ unused ∷ []

abbrev pub some_edges : List Edge
some_edges =
    call_of (bytes "main") (bytes "helper")
    ∷ call_of (bytes "helper") (bytes "leaf")
    ∷ call_of (bytes "helper") (bytes "helper")
    ∷ []
