-- ===== src/Resolver/Index/Nodes.antt =====
-- pkg/resolver/index.go: the index holds the nodes of its files, and no other.
use graph_context.Base.{
  ◌≡◌, refl, sym, ap, ◌∙◌, List, [], ◌∷◌, ◌++◌, Str, str_eq, get_row, base_of, Bool-cases, inl, inr,
}
use mathlib.Core.List.{append_assoc, append-nil}
use graph_context.Store.Types.{Node}
use graph_context.Lang.Ir.{LangIr, ImportRef}
use graph_context.Lang.Registry.{Registry}
use graph_context.Resolver.Index.{
  Index, new_index, index_node, index_nodes, index_facts, index_file, index_files,
}
use graph_context.Resolver.Index.Imports.{
  resolve_import_target, bind_exported, bind_wildcard, find_in_files, bind_found, bind_names,
  add_alias, alias_base, alias_own, bind_plain, bind_import, bind_imports, with_rows, bind_files,
  build_index,
}

abbrev pub nodes_of : List LangIr → List Node
nodes_of [] = []
nodes_of (f ∷ fs) = f.nodes ++ nodes_of fs

-- What the index knows of the declarations.
pub record Declared : Type 0 where
  pub nodes : List Node
  pub in_file : List (Str × List (Str × Node))
  pub in_file_qname : List (Str × List (Str × Node))
  pub by_name : List (Str × List Node)
  pub by_qname : List (Str × List Node)

abbrev pub declared : Index → Declared
declared idx = record {
  nodes = idx.nodes;
  in_file = idx.in_file;
  in_file_qname = idx.in_file_qname;
  by_name = idx.by_name;
  by_qname = idx.by_qname;
}

nodes-index_nodes :
    (path : Str) (idx : Index) (ns : List Node) → (index_nodes path idx ns).nodes ≡ idx.nodes ++ ns
unfolding index_nodes index_node
nodes-index_nodes path idx [] = sym (append-nil idx.nodes)
nodes-index_nodes path idx (n ∷ ns) =
    nodes-index_nodes path (index_node path idx n) ns ∙ append_assoc idx.nodes (n ∷ []) ns

nodes-index_files :
    (registry : Registry) (root : Str) (idx : Index) (fs : List LangIr)
    → (index_files registry root idx fs).nodes ≡ idx.nodes ++ nodes_of fs
unfolding index_files index_file index_facts
nodes-index_files registry root idx [] = sym (append-nil idx.nodes)
nodes-index_files registry root idx (f ∷ fs) =
    nodes-index_files registry root (index_file registry root idx f) fs
    ∙ ap (λ ns. ns ++ nodes_of fs)
        (nodes-index_nodes f.path (index_facts registry root idx f) f.nodes)
    ∙ append_assoc idx.nodes f.nodes (nodes_of fs)

declared-bind_wildcard :
    (idx : Index) (path : Str) (tfs : List Str)
    → declared (bind_wildcard idx path tfs) ≡ declared idx
unfolding bind_wildcard
declared-bind_wildcard idx path [] = refl
declared-bind_wildcard idx path (tf ∷ tfs) =
    declared-bind_wildcard
      (record idx { bindings = bind_exported path (get_row tf idx.in_file) idx.bindings }) path tfs

declared-bind_names :
    (idx : Index) (path : Str) (tfs names : List Str)
    → declared (bind_names idx path tfs names) ≡ declared idx
unfolding bind_names
declared-bind_names idx path tfs [] = refl
declared-bind_names idx path tfs (name ∷ names) =
    declared-bind_names
      (record idx { bindings = bind_found path name (find_in_files idx name tfs) idx.bindings })
      path tfs names

declared-alias_own :
    (path : Str) (imp : ImportRef) (target : Str) (idx : Index)
    → declared (alias_own path imp target idx) ≡ declared idx
declared-alias_own path imp target idx = go imp.alias
  where
    own : Str → Index
    own a = elim a [ [] ↦ idx | c ∷ s ↦ add_alias path (c ∷ s) target idx ]

    go : (a : Str) → declared (own a) ≡ declared idx
    go [] = refl
    go (c ∷ s) = refl

declared-bind_plain :
    (path : Str) (imp : ImportRef) (target : Str) (tfs : List Str) (idx : Index)
    → declared (bind_plain path imp target tfs idx) ≡ declared idx
declared-bind_plain path imp target tfs idx = go imp.names
  where
    by_base : Str → Index
    by_base a = elim a [ [] ↦ add_alias path (base_of imp.path) target idx | _ ∷ _ ↦ idx ]

    plain : List Str → Index
    plain names = elim names [
      | [] ↦ alias_base path imp target idx
      | n ∷ ns ↦ bind_names idx path tfs (n ∷ ns)
    ]

    declared-by_base : (a : Str) → declared (by_base a) ≡ declared idx
    declared-by_base [] = refl
    declared-by_base (c ∷ s) = refl

    go : (names : List Str) → declared (plain names) ≡ declared idx
    go [] = declared-by_base imp.alias
    go (n ∷ ns) = declared-bind_names idx path tfs (n ∷ ns)

declared-bind_import :
    (idx : Index) (path : Str) (imp : ImportRef) (tfs : List Str)
    → declared (bind_import idx path imp tfs) ≡ declared idx
unfolding bind_import
declared-bind_import idx path imp [] = refl
declared-bind_import idx path imp (tf ∷ tfs) = elim (Bool-cases imp.wildcard) [
  | inl t ↦ rw t (declared-bind_wildcard _ path (tf ∷ tfs))
  | inr f ↦ rw f (
      declared-bind_plain path imp tf (tf ∷ tfs) (alias_own path imp tf idx)
      ∙ declared-alias_own path imp tf idx)
]

declared-bind_imports :
    (idx : Index) (path : Str) (imps : List ImportRef)
    → declared (bind_imports idx path imps) ≡ declared idx
unfolding bind_imports
declared-bind_imports idx path [] = refl
declared-bind_imports idx path (imp ∷ imps) =
    declared-bind_imports (bind_import idx path imp (resolve_import_target idx path imp.path)) path
      imps
    ∙ declared-bind_import idx path imp (resolve_import_target idx path imp.path)

-- The imports leave it.
pub declared-bind_files :
    (idx : Index) (fs : List LangIr) → declared (bind_files idx fs) ≡ declared idx
unfolding bind_files
declared-bind_files idx [] = refl
declared-bind_files idx (f ∷ fs) =
    declared-bind_files (bind_imports (with_rows f.path idx) f.path f.imports) fs
    ∙ declared-bind_imports (with_rows f.path idx) f.path f.imports

-- The index has the nodes of its files, in their order.
pub nodes-build_index :
    (registry : Registry) (root : Str) (files : List LangIr)
    → (build_index registry root files).nodes ≡ nodes_of files
unfolding build_index
nodes-build_index registry root files =
    ap (λ (d : Declared). d.nodes)
      (declared-bind_files (index_files registry root (record new_index { files = files }) files)
        files)
    ∙ nodes-index_files registry root (record new_index { files = files }) files
