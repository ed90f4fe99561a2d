-- ===== src/Tests/Resolver.antt =====
-- pkg/resolver and pkg/lang at two small files.
use graph_context.Base.{
  ◌≡◌, refl, List, [], ◌∷◌, ◌++◌, ◌⊎◌, Str, bytes, false, some, none, map, All, Memᴰ, str_eq,
  contains, to_lower, file_ext, if◌then◌else◌, ◌↔◌,
}
use graph_context.Store.Types.{
  Node, NodeKind, kind_class, kind_method, kind_function, entry_none, vis_exported, Edge,
  edge_calls,
}
use graph_context.Lang.Ir.{LangIr, Ref, new_type_facts}
use graph_context.Lang.Registry.{Language, Registry, register, language_for}
use graph_context.Lang.Registry.Laws.{AreFree, register_iff, language_for-register}
use graph_context.Resolver.Index.Imports.{build_index}
use graph_context.Resolver.Index.Rooted.{HasId, Rooted}
use graph_context.Resolver.Index.Exact.{IsIndexOf, build_index_lem}
use graph_context.Resolver.Index.Nodes.{nodes_of}
use graph_context.Resolver.Types.{climb_fields, climb_methods, climb_rounds}
use graph_context.Resolver.Types.Ends.{climb_fields-climb_rounds, climb_methods-climb_rounds}
use graph_context.Resolver.Refs.Closed.{IsExternal}
use graph_context.Resolver.Refs.Stats.{counted, ref_count}
use graph_context.Resolver.Family.{resolve}
use graph_context.Resolver.Family.Complete.{
  resolve-Closed, nodes-resolve, total_refs-resolve, resolve-Leaves,
}
use graph_context.Resolver.Refs.Sources.{IsAttributed}

abbrev decl : Str → Str → Str → NodeKind → Node
decl path name qname kind = record {
  id = path ++ b':' ∷ qname;
  kind = kind;
  name = name;
  qualified_name = qname;
  file_path = path;
  start_line = 1;
  end_line = 2;
  start_byte = 0;
  end_byte = 9;
  language = bytes "go";
  signature = [];
  docstring = [];
  is_test = false;
  is_entrypoint = false;
  entrypoint_kind = entry_none;
  visibility = vis_exported;
}

abbrev save : Node
save = decl (bytes "db.go") (bytes "save") (bytes "Base.save") kind_method

abbrev pub main_node : Node
main_node = decl (bytes "main.go") (bytes "main") (bytes "main") kind_function

abbrev call_save : Ref
call_save = record {
  kind = edge_calls;
  name = bytes "save";
  receiver = bytes "repo";
  from_id = main_node.id;
  line = 3;
}

abbrev call_print : Ref
call_print = record {
  kind = edge_calls;
  name = bytes "print";
  receiver = [];
  from_id = main_node.id;
  line = 4;
}

abbrev db_file : LangIr
db_file = record {
  path = bytes "db.go";
  language = bytes "go";
  nodes =
      decl (bytes "db.go") (bytes "Base") (bytes "Base") kind_class
      ∷ save
      ∷ decl (bytes "db.go") (bytes "Repo") (bytes "Repo") kind_class
      ∷ [];
  imports = [];
  refs = [];
  types = record new_type_facts { bases = (bytes "Repo", bytes "Base" ∷ []) ∷ [] };
}

abbrev pub main_file : LangIr
main_file = record {
  path = bytes "main.go";
  language = bytes "go";
  nodes = main_node ∷ [];
  imports =
      record {
        path = bytes "./db.go";
        alias = [];
        names = bytes "Repo" ∷ [];
        wildcard = false;
        line = 1;
      }
      ∷ [];
  refs = call_save ∷ call_print ∷ [];
  types = record new_type_facts { vars = (main_node.id ++ 0 ∷ bytes "repo", bytes "Repo") ∷ [] };
}

abbrev two_files : List LangIr
two_files = db_file ∷ main_file ∷ []

abbrev plain_go : Language
plain_go = record {
  name = bytes "go";
  extensions = bytes ".go" ∷ [];
  parse = λ path src. none;
  module_path = λ root path. path;
}

abbrev go_only : Registry
go_only = (bytes ".go", plain_go) ∷ []

-- The method is found in the base type of the receiver's, the other call leads to an external node.
resolved_targets :
    map (λ (e : Edge). e.target_id) (resolve go_only [] two_files).edges
    ≡ bytes "db.go:Base.save" ∷ bytes "external:print" ∷ []
unfolding resolve
resolved_targets = refl

build_index_lem_example :
    IsIndexOf two_files (build_index go_only [] two_files)
    × Rooted (build_index go_only [] two_files)
build_index_lem_example = build_index_lem go_only [] two_files

climb_fields-climb_rounds_example :
    (t : Str) × (climb_fields
        (build_index go_only [] two_files)
        (bytes "db")
        (climb_rounds (build_index go_only [] two_files))
        (bytes "Repo" ∷ [])
        (bytes "Repo" ∷ [])
      ≡ some t)
climb_fields-climb_rounds_example =
    climb_fields-climb_rounds (build_index go_only [] two_files) (bytes "db") (bytes "Repo")

climb_methods-climb_rounds_example :
    (ns : List Node) × (climb_methods
        (build_index go_only [] two_files)
        (bytes "save")
        (climb_rounds (build_index go_only [] two_files))
        (bytes "Repo" ∷ [])
        (bytes "Repo" ∷ [])
      ≡ some ns)
climb_methods-climb_rounds_example =
    climb_methods-climb_rounds (build_index go_only [] two_files) (bytes "save") (bytes "Repo")

resolve-Closed_example :
    All
      (λ (e : Edge). HasId (resolve go_only [] two_files).nodes e.target_id)
      (resolve go_only [] two_files).edges
resolve-Closed_example = resolve-Closed go_only [] two_files

nodes-resolve_example :
    (Memᴰ save (nodes_of two_files) → Memᴰ save (resolve go_only [] two_files).nodes)
    × (Memᴰ save (resolve go_only [] two_files).nodes
        → Memᴰ save (nodes_of two_files) ⊎ IsExternal save)
nodes-resolve_example = nodes-resolve go_only [] two_files save

total_refs-resolve_example :
    ((resolve go_only [] two_files).stats.total_refs ≡ ref_count two_files)
    × (counted (resolve go_only [] two_files).stats ≡ ref_count two_files)
total_refs-resolve_example = total_refs-resolve go_only [] two_files

register_iff_example :
    ((s : Registry) × (register plain_go go_only ≡ some s)) ↔ AreFree (bytes ".go" ∷ []) go_only
register_iff_example = register_iff plain_go go_only

language_for-register_example : language_for go_only (bytes "cmd/Main.GO") ≡ (
    if contains (map to_lower (bytes ".go" ∷ [])) (to_lower (file_ext (bytes "cmd/Main.GO")))
    then some plain_go
    else language_for [] (bytes "cmd/Main.GO"))
unfolding register
language_for-register_example = language_for-register plain_go [] go_only (bytes "cmd/Main.GO") refl

two_files-IsAttributed : All IsAttributed two_files
two_files-IsAttributed =
    (tt, (((main_node, Memᴰ.head refl, refl), ((main_node, Memᴰ.head refl, refl), tt)), tt))

resolve-Leaves_example :
    All
      (λ (e : Edge). HasId (resolve go_only [] two_files).nodes e.source_id)
      (resolve go_only [] two_files).edges
resolve-Leaves_example = resolve-Leaves go_only [] two_files two_files-IsAttributed
