-- ===== src/Resolver/Index/Bound.antt =====
-- pkg/resolver/index.go: the imports keep it so that every name leads to a node of the files.
use graph_context.Base.{
  ◌≡◌, refl, ◌∙◌, List, [], ◌∷◌, ◌++◌, Str, str_eq, Option, none, some, insert, insert2, lookup2,
  get_list, get_row, base_of, AllValues, AllValues-insert, AllRows, AllRows-get_row,
  AllRows-insert2, AllRows-lookup2, Bool-cases, inl, inr, if◌then◌else◌,
}
use graph_context.Store.Types.{Node}
use graph_context.Lang.Ir.{LangIr, ImportRef}
use graph_context.Lang.Registry.{Registry}
use graph_context.Resolver.Index.{Index, new_index, index_files}
use graph_context.Resolver.Index.Imports.{
  is_exported, resolve_import_target, bind_exported, bind_wildcard, find_in_files, bind_found,
  bind_names, add_alias, alias_base, alias_own, bind_plain, bind_import, bind_imports, with_rows,
  bind_files, build_index,
}
use graph_context.Resolver.Index.Rooted.{HasId, In, Rooted, index_files-Rooted}

-- The bindings that an import adds lead to nodes, as those before do.
bind_exported-AllRows :
    (ns : List Node) (path : Str) (row : List (Str × Node)) (m : List (Str × List (Str × Str)))
    → AllValues (In ns) row
    → AllRows (HasId ns) m
    → AllRows (HasId ns) (bind_exported path row m)
unfolding bind_exported
bind_exported-AllRows ns path [] m r h = h
bind_exported-AllRows ns path ((name, n) ∷ row) m r h =
    bind_exported-AllRows ns path row
      (if is_exported n.visibility then insert2 path name n.id m else m) r.1
      (elim (Bool-cases (is_exported n.visibility)) [
        | inl t ↦ rw t (AllRows-insert2 (HasId ns) path name n.id m (n, r.0, refl) h)
        | inr f ↦ rw f h
      ])

with_bindings :
    (idx : Index) (m : List (Str × List (Str × Str)))
    → Rooted idx
    → AllRows (HasId idx.nodes) m
    → Rooted (record idx { bindings = m })
with_bindings idx m h b = record {
  in_file = h.in_file;
  by_name = h.by_name;
  type_methods = h.type_methods;
  bindings = b;
}

bind_wildcard-Rooted :
    (idx : Index) (path : Str) (tfs : List Str) → Rooted idx → Rooted (bind_wildcard idx path tfs)
unfolding bind_wildcard
bind_wildcard-Rooted idx path [] h = h
bind_wildcard-Rooted idx path (tf ∷ tfs) h =
    let m = bind_exported path (get_row tf idx.in_file) idx.bindings in
    bind_wildcard-Rooted (record idx { bindings = m }) path tfs
      (with_bindings idx m h (
        bind_exported-AllRows idx.nodes path (get_row tf idx.in_file) idx.bindings
          (AllRows-get_row (In idx.nodes) tf idx.in_file h.in_file) h.bindings))

find_in_files-In :
    (idx : Index) (name : Str) (tfs : List Str) (n : Node)
    → Rooted idx
    → find_in_files idx name tfs ≡ some n
    → In idx.nodes n
unfolding find_in_files
find_in_files-In idx name [] n h q = cc
find_in_files-In idx name (tf ∷ tfs) n h q =
    go (lookup2 tf name idx.in_file) refl (λ r. find_in_files-In idx name tfs n h r) q
  where
    go :
        (o : Option Node)
        → lookup2 tf name idx.in_file ≡ o
        → (find_in_files idx name tfs ≡ some n → In idx.nodes n)
        → (elim o [ some x ↦ some x | none ↦ find_in_files idx name tfs ]) ≡ some n
        → In idx.nodes n
    go none e rec q = rec q
    go (some x) e rec q = AllRows-lookup2 (In idx.nodes) tf name n idx.in_file h.in_file (e ∙ q)

bind_found-AllRows :
    (ns : List Node) (path name : Str) (o : Option Node) (m : List (Str × List (Str × Str)))
    → ((n : Node) → o ≡ some n → In ns n)
    → AllRows (HasId ns) m
    → AllRows (HasId ns) (bind_found path name o m)
bind_found-AllRows ns path name none m f h = h
bind_found-AllRows ns path name (some n) m f h =
    AllRows-insert2 (HasId ns) path name n.id m (n, f n refl, refl) h

bind_names-Rooted :
    (idx : Index) (path : Str) (tfs names : List Str)
    → Rooted idx
    → Rooted (bind_names idx path tfs names)
unfolding bind_names
bind_names-Rooted idx path tfs [] h = h
bind_names-Rooted idx path tfs (name ∷ names) h =
    let o = find_in_files idx name tfs in
    let m = bind_found path name o idx.bindings in
    bind_names-Rooted (record idx { bindings = m }) path tfs names
      (with_bindings idx m h (
        bind_found-AllRows idx.nodes path name o idx.bindings
          (λ n q. find_in_files-In idx name tfs n h q) h.bindings))

add_alias-Rooted :
    (path alias target : Str) (idx : Index) → Rooted idx → Rooted (add_alias path alias target idx)
add_alias-Rooted path alias target idx h = record {
  in_file = h.in_file;
  by_name = h.by_name;
  type_methods = h.type_methods;
  bindings = h.bindings;
}

alias_own-Rooted :
    (path : Str) (imp : ImportRef) (target : Str) (idx : Index)
    → Rooted idx
    → Rooted (alias_own path imp target idx)
alias_own-Rooted path imp target idx h = go imp.alias
  where
    go : (a : Str) → Rooted (elim a [ [] ↦ idx | c ∷ s ↦ add_alias path (c ∷ s) target idx ])
    go [] = h
    go (c ∷ s) = add_alias-Rooted path (c ∷ s) target idx h

alias_base-Rooted :
    (path : Str) (imp : ImportRef) (target : Str) (idx : Index)
    → Rooted idx
    → Rooted (alias_base path imp target idx)
alias_base-Rooted path imp target idx h = go imp.alias
  where
    go :
        (a : Str)
        → Rooted (elim a [ [] ↦ add_alias path (base_of imp.path) target idx | _ ∷ _ ↦ idx ])
    go [] = add_alias-Rooted path (base_of imp.path) target idx h
    go (c ∷ s) = h

bind_plain-Rooted :
    (path : Str) (imp : ImportRef) (target : Str) (tfs : List Str) (idx : Index)
    → Rooted idx
    → Rooted (bind_plain path imp target tfs idx)
bind_plain-Rooted path imp target tfs idx h = go imp.names
  where
    go :
        (names : List Str)
        → Rooted (elim names [
          | [] ↦ alias_base path imp target idx
          | n ∷ ns ↦ bind_names idx path tfs (n ∷ ns)
        ])
    go [] = alias_base-Rooted path imp target idx h
    go (n ∷ ns) = bind_names-Rooted idx path tfs (n ∷ ns) h

bind_import-Rooted :
    (idx : Index) (path : Str) (imp : ImportRef) (tfs : List Str)
    → Rooted idx
    → Rooted (bind_import idx path imp tfs)
unfolding bind_import
bind_import-Rooted idx path imp [] h = h
bind_import-Rooted idx path imp (tf ∷ tfs) h = elim (Bool-cases imp.wildcard) [
  | inl t ↦
      let wild =
        insert path (get_list path idx.wildcard_imports ++ tf ∷ tfs) idx.wildcard_imports in
      rw t (
        bind_wildcard-Rooted (record idx { wildcard_imports = wild }) path (tf ∷ tfs)
          (record {
            in_file = h.in_file;
            by_name = h.by_name;
            type_methods = h.type_methods;
            bindings = h.bindings;
          }))
  | inr f ↦ rw f (
      bind_plain-Rooted path imp tf (tf ∷ tfs) (alias_own path imp tf idx)
        (alias_own-Rooted path imp tf idx h))
]

bind_imports-Rooted :
    (idx : Index) (path : Str) (imps : List ImportRef)
    → Rooted idx
    → Rooted (bind_imports idx path imps)
unfolding bind_imports
bind_imports-Rooted idx path [] h = h
bind_imports-Rooted idx path (imp ∷ imps) h =
    let tfs = resolve_import_target idx path imp.path in
    bind_imports-Rooted (bind_import idx path imp tfs) path imps
      (bind_import-Rooted idx path imp tfs h)

bind_files-Rooted : (idx : Index) (fs : List LangIr) → Rooted idx → Rooted (bind_files idx fs)
unfolding bind_files
bind_files-Rooted idx [] h = h
bind_files-Rooted idx (f ∷ fs) h =
    bind_files-Rooted (bind_imports (with_rows f.path idx) f.path f.imports) fs (
      bind_imports-Rooted (with_rows f.path idx) f.path f.imports (record {
        in_file = h.in_file;
        by_name = h.by_name;
        type_methods = h.type_methods;
        bindings =
            AllValues-insert (AllValues (HasId idx.nodes)) f.path (get_row f.path idx.bindings)
              idx.bindings (AllRows-get_row (HasId idx.nodes) f.path idx.bindings h.bindings)
              h.bindings;
      }))

-- The built index knows no node but its own.
pub build_index-Rooted :
    (registry : Registry) (repo_root : Str) (files : List LangIr)
    → Rooted (build_index registry repo_root files)
unfolding build_index
build_index-Rooted registry repo_root files =
    bind_files-Rooted (index_files registry repo_root (record new_index { files = files }) files)
      files
      (index_files-Rooted registry repo_root (record new_index { files = files }) files
        (record { in_file = tt; by_name = tt; type_methods = tt; bindings = tt }))
