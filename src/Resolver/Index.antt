-- ===== src/Resolver/Index.antt =====
-- pkg/resolver/index.go: what the files declare, by name, by type and by module.
pub mod Imports
pub mod Nodes
pub mod Rooted
pub mod Bound
pub mod Exact
use graph_context.Base.{
  ℕ, List, [], ◌∷◌, ◌++◌, Str, str_eq, Bool, true, false, Option, none, some, lookup, insert, push,
  get_list, get_row, insert2, cut_at, if◌then◌else◌,
}
use graph_context.Store.Types.{Node, NodeKind, kind_method}
use graph_context.Lang.Ir.{LangIr, TypeFacts}
use graph_context.Lang.Registry.{Registry, Language, language_for}

pub record Index : Type 0 where
  pub files : List LangIr
  pub nodes : List Node
  pub module_to_files : List (Str × List Str)
  pub in_file : List (Str × List (Str × Node))
  pub in_file_qname : List (Str × List (Str × Node))
  pub by_name : List (Str × List Node)
  pub by_qname : List (Str × List Node)
  pub bindings : List (Str × List (Str × Str))
  pub import_aliases : List (Str × List (Str × Str))
  pub wildcard_imports : List (Str × List Str)
  pub type_facts : List (Str × TypeFacts)
  pub type_bases : List (Str × List Str)
  pub type_methods : List (Str × List (Str × Node))
  pub type_fields : List (Str × Str)
  pub var_types : List (Str × Str)

abbrev pub new_index : Index
new_index = record {
  files = [];
  nodes = [];
  module_to_files = [];
  in_file = [];
  in_file_qname = [];
  by_name = [];
  by_qname = [];
  bindings = [];
  import_aliases = [];
  wildcard_imports = [];
  type_facts = [];
  type_bases = [];
  type_methods = [];
  type_fields = [];
  var_types = [];
}

abbrev pub is_method : NodeKind → Bool
is_method kind_method = true
is_method _ = false

-- `for k, v := range from { into[k] = v }`
unfoldable pub put_all : List (Str × Str) → List (Str × Str) → List (Str × Str)
put_all [] into = into
put_all ((k, v) ∷ from) into = put_all from (insert k v into)

-- `for k, v := range from { into[k] = append(into[k], v...) }`
unfoldable pub append_all : List (Str × List Str) → List (Str × List Str) → List (Str × List Str)
append_all [] into = into
append_all ((k, vs) ∷ from) into = append_all from (insert k (get_list k into ++ vs) into)

abbrev put_method :
    Option (Str × Str) → Node → List (Str × List (Str × Node)) → List (Str × List (Str × Node))
put_method none n m = m
put_method (some (type_name, method_name)) n m = insert2 type_name method_name n m

-- The body of the loop over the nodes of a file.
unfoldable pub index_node : Str → Index → Node → Index
index_node path idx n = record idx {
  nodes = idx.nodes ++ n ∷ [];
  in_file = insert2 path n.name n idx.in_file;
  in_file_qname = insert2 path n.qualified_name n idx.in_file_qname;
  by_name = push n.name n idx.by_name;
  by_qname = push n.qualified_name n idx.by_qname;
  type_methods =
      if is_method n.kind
      then put_method (cut_at b'.' n.qualified_name) n idx.type_methods
      else idx.type_methods;
}

unfoldable pub index_nodes : Str → Index → List Node → Index
unfolding index_node
index_nodes path idx [] = idx
index_nodes path idx (n ∷ ns) = index_nodes path (index_node path idx n) ns

abbrev add_module : Option Language → Str → Str → List (Str × List Str) → List (Str × List Str)
add_module none root path m = m
add_module (some l) root path m = push (l.module_path root path) path m

module _ (registry : Registry) (repo_root : Str) where
  -- What the first loop takes of a file beside its nodes.
  unfoldable pub index_facts : Index → LangIr → Index
  unfolding put_all append_all language_for
  index_facts idx f = record idx {
    type_facts = insert f.path f.types idx.type_facts;
    var_types = put_all f.types.vars idx.var_types;
    type_fields = put_all f.types.fields idx.type_fields;
    type_bases = append_all f.types.bases idx.type_bases;
    module_to_files =
        add_module (language_for registry f.path) repo_root f.path idx.module_to_files;
    in_file = insert f.path (get_row f.path idx.in_file) idx.in_file;
    in_file_qname = insert f.path (get_row f.path idx.in_file_qname) idx.in_file_qname;
  }

  unfoldable pub index_file : Index → LangIr → Index
  unfolding index_facts index_nodes
  index_file idx f = index_nodes f.path (index_facts idx f) f.nodes

  -- The first loop of buildIndex.
  unfoldable pub index_files : Index → List LangIr → Index
  unfolding index_file
  index_files idx [] = idx
  index_files idx (f ∷ fs) = index_files (index_file idx f) fs
