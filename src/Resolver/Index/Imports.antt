-- ===== src/Resolver/Index/Imports.antt =====
-- pkg/resolver/index.go: the second loop of buildIndex, over the imports, and resolveImportTarget. A
-- range over a Go map takes the order of the list.
use graph_context.Base.{
  List, [], ◌∷◌, ◌++◌, Str, str_eq, bytes, Bool, true, false, ◌||◌, Option, none, some, insert,
  get_list, get_row, insert2, lookup2, has_suffix, trim_prefix, join_path, clean_path, dir_of,
  base_of, if◌then◌else◌,
}
use graph_context.Store.Types.{Node, Visibility, vis_exported}
use graph_context.Lang.Ir.{LangIr, ImportRef}
use graph_context.Lang.Registry.{Registry}
use graph_context.Resolver.Index.{Index, new_index, index_files}

abbrev pub is_exported : Visibility → Bool
is_exported vis_exported = true
is_exported _ = false

-- `if files, ok := ...; ok && len(files) > 0 { return files }`
abbrev pub or_else : List Str → List Str → List Str
or_else [] other = other
or_else (f ∷ fs) other = f ∷ fs

-- The loop over all modules.
unfoldable pub by_suffix : Str → List (Str × List Str) → List Str
by_suffix imp [] = []
by_suffix imp ((mod_path, files) ∷ m) =
    let rest = by_suffix imp m in
    if has_suffix imp mod_path || has_suffix mod_path imp then files else rest

unfoldable pub resolve_import_target : Index → Str → Str → List Str
unfolding by_suffix trim_prefix join_path clean_path dir_of
resolve_import_target idx current imp =
    let mods = idx.module_to_files in
    or_else (get_list imp mods) (
      or_else (get_list (trim_prefix (bytes "../") (trim_prefix (bytes "./") imp)) mods) (
        or_else (get_list (clean_path (join_path (dir_of current) imp)) mods) (by_suffix imp mods)))

-- The exported names of a file, bound for `path`.
unfoldable pub bind_exported :
    Str → List (Str × Node) → List (Str × List (Str × Str)) → List (Str × List (Str × Str))
bind_exported path [] m = m
bind_exported path ((name, n) ∷ row) m =
    bind_exported path row (if is_exported n.visibility then insert2 path name n.id m else m)

unfoldable pub bind_wildcard : Index → Str → List Str → Index
unfolding bind_exported
bind_wildcard idx path [] = idx
bind_wildcard idx path (tf ∷ tfs) =
    bind_wildcard
      (record idx { bindings = bind_exported path (get_row tf idx.in_file) idx.bindings }) path tfs

-- The first of the target files that declares the name.
unfoldable pub find_in_files : Index → Str → List Str → Option Node
find_in_files idx name [] = none
find_in_files idx name (tf ∷ tfs) =
    let rest = find_in_files idx name tfs in
    elim (lookup2 tf name idx.in_file) [ some n ↦ some n | none ↦ rest ]

abbrev pub bind_found :
    Str → Str → Option Node → List (Str × List (Str × Str)) → List (Str × List (Str × Str))
bind_found path name none m = m
bind_found path name (some n) m = insert2 path name n.id m

unfoldable pub bind_names : Index → Str → List Str → List Str → Index
unfolding find_in_files
bind_names idx path tfs [] = idx
bind_names idx path tfs (name ∷ names) =
    bind_names
      (record idx { bindings = bind_found path name (find_in_files idx name tfs) idx.bindings })
      path tfs names

abbrev pub add_alias : Str → Str → Str → Index → Index
add_alias path alias target idx = record idx {
  import_aliases = insert2 path alias target idx.import_aliases;
}

-- The import without names: the last element of its path is its alias, unless it has one.
abbrev pub alias_base : Str → ImportRef → Str → Index → Index
alias_base path imp target idx = elim imp.alias [
  | [] ↦ add_alias path (base_of imp.path) target idx
  | _ ∷ _ ↦ idx
]

abbrev pub alias_own : Str → ImportRef → Str → Index → Index
alias_own path imp target idx = elim imp.alias [
  | [] ↦ idx
  | c ∷ s ↦ add_alias path (c ∷ s) target idx
]

abbrev pub bind_plain : Str → ImportRef → Str → List Str → Index → Index
bind_plain path imp target tfs idx = elim imp.names [
  | [] ↦ alias_base path imp target idx
  | n ∷ ns ↦ bind_names idx path tfs (n ∷ ns)
]

-- The body of the loop over the imports of a file, once the target files are known.
unfoldable pub bind_import : Index → Str → ImportRef → List Str → Index
unfolding bind_wildcard bind_names base_of
bind_import idx path imp [] = idx
bind_import idx path imp (tf ∷ tfs) =
    if imp.wildcard
    then bind_wildcard
        (record idx {
          wildcard_imports =
              insert path (get_list path idx.wildcard_imports ++ tf ∷ tfs) idx.wildcard_imports;
        })
        path (tf ∷ tfs)
    else bind_plain path imp tf (tf ∷ tfs) (alias_own path imp tf idx)

unfoldable pub bind_imports : Index → Str → List ImportRef → Index
unfolding bind_import resolve_import_target
bind_imports idx path [] = idx
bind_imports idx path (imp ∷ imps) =
    bind_imports (bind_import idx path imp (resolve_import_target idx path imp.path)) path imps

abbrev pub with_rows : Str → Index → Index
with_rows path idx = record idx {
  bindings = insert path (get_row path idx.bindings) idx.bindings;
  import_aliases = insert path (get_row path idx.import_aliases) idx.import_aliases;
}

unfoldable pub bind_files : Index → List LangIr → Index
unfolding bind_imports
bind_files idx [] = idx
bind_files idx (f ∷ fs) = bind_files (bind_imports (with_rows f.path idx) f.path f.imports) fs

unfoldable pub build_index : Registry → Str → List LangIr → Index
unfolding index_files bind_files
build_index registry repo_root files =
    bind_files (index_files registry repo_root (record new_index { files = files }) files) files
