-- ===== src/Resolver/Index/Exact.antt =====
-- pkg/resolver/index.go: the tables of the declarations hold just what the files declare.
use graph_context.Base.{
  ◌≡◌, refl, sym, ap, ◌∙◌, List, [], ◌∷◌, ◌++◌, Str, str_eq, Option, none, some, insert,
  lookup-insert, get_row, lookup2, insert2, lookup2-insert2, get_list, get_list-push, push, keep,
  last_by, if◌then◌else◌, ◌==◌, eq_iff, Bool-cases, inl, inr, arith,
}
use mathlib.Core.List.{append_assoc, append-nil}
use graph_context.Store.Types.{Node}
use graph_context.Lang.Ir.{LangIr}
use graph_context.Lang.Registry.{Registry}
use graph_context.Resolver.Index.{
  Index, new_index, index_node, index_nodes, index_facts, index_file, index_files,
}
use graph_context.Resolver.Index.Imports.{build_index}
use graph_context.Resolver.Index.Nodes.{
  nodes_of, nodes-build_index, Declared, declared, declared-bind_files,
}
use graph_context.Resolver.Index.Rooted.{Rooted}
use graph_context.Resolver.Index.Bound.{build_index-Rooted}

abbrev pub name_of : Node → Str
name_of n = n.name

abbrev pub qname_of : Node → Str
qname_of n = n.qualified_name

-- The nodes of the files with a path.
abbrev pub nodes_at : Str → List LangIr → List Node
nodes_at p [] = []
nodes_at p (f ∷ fs) = let rest = nodes_at p fs in if f.path == p then f.nodes ++ rest else rest

-- The nodes that have a key.
abbrev pub named : (Node → Str) → Str → List Node → List Node
named key k ns = keep (λ n. key n == k) ns

module _ (key : Node → Str) (k : Str) where
  named-append : (xs ys : List Node) → named key k (xs ++ ys) ≡ named key k xs ++ named key k ys
  named-append [] ys = refl
  named-append (x ∷ xs) ys = ground (arith, named-append xs ys)

  push-named :
      (n : Node) (ns : List Node) (m : List (Str × List Node))
      → get_list k (push (key n) n m) ++ named key k ns ≡ get_list k m ++ named key k (n ∷ ns)
  push-named n ns m = elim (Bool-cases (key n == k)) [
    | inl t ↦
        let same = (eq_iff (key n) k).0 t in
        rw (get_list-push (key n) k n m) (
          rw t (
            ap (λ j. (get_list j m ++ n ∷ []) ++ named key k ns) same
            ∙ append_assoc (get_list k m) (n ∷ []) (named key k ns)))
    | inr f ↦ rw (get_list-push (key n) k n m) (rw f refl)
  ]

  last_by-append :
      (xs ys : List Node) (d : Option Node)
      → last_by key k (xs ++ ys) d ≡ last_by key k ys (last_by key k xs d)
  last_by-append [] ys d = refl
  last_by-append (x ∷ xs) ys d = last_by-append xs ys (if key x == k then some x else d)

  -- The last of the nodes of a file that has the key, if the file is at the path.
  abbrev last_at : Str → Str → List Node → Option Node → Option Node
  last_at p path ns d = if path == p then last_by key k ns d else d

  last_at-insert2 :
      (p path : Str) (n : Node) (ns : List Node) (m : List (Str × List (Str × Node)))
      → last_at p path ns (lookup2 p k (insert2 path (key n) n m))
        ≡ last_at p path (n ∷ ns) (lookup2 p k m)
  last_at-insert2 p path n ns m =
      rw (lookup2-insert2 path (key n) p k n m)
        (elim (Bool-cases (path == p)) [ inl t ↦ rw t refl | inr f ↦ rw f refl ])

  last_at-files :
      (p : Str) (f : LangIr) (fs : List LangIr) (d : Option Node)
      → last_by key k (nodes_at p fs) (last_at p f.path f.nodes d)
        ≡ last_by key k (nodes_at p (f ∷ fs)) d
  last_at-files p f fs d = elim (Bool-cases (f.path == p)) [
    | inl t ↦ rw t (sym (last_by-append f.nodes (nodes_at p fs) d))
    | inr f' ↦ rw f' refl
  ]

  -- The empty map for a file that is not there is no declaration.
  lookup2-row :
      (p path : Str) (m : List (Str × List (Str × Node)))
      → lookup2 p k (insert path (get_row path m) m) ≡ lookup2 p k m
  lookup2-row p path m = ground (arith, lookup-insert path p (get_row path m) m, eq_iff path p)

by_name-index_nodes :
    (k path : Str) (idx : Index) (ns : List Node)
    → get_list k (index_nodes path idx ns).by_name ≡ get_list k idx.by_name ++ named name_of k ns
unfolding index_nodes index_node
by_name-index_nodes k path idx [] = sym (append-nil (get_list k idx.by_name))
by_name-index_nodes k path idx (n ∷ ns) =
    by_name-index_nodes k path (index_node path idx n) ns ∙ push-named name_of k n ns idx.by_name

by_name-index_files :
    (registry : Registry) (root k : Str) (idx : Index) (fs : List LangIr)
    → get_list k (index_files registry root idx fs).by_name
      ≡ get_list k idx.by_name ++ named name_of k (nodes_of fs)
unfolding index_files index_file index_facts
by_name-index_files registry root k idx [] = sym (append-nil (get_list k idx.by_name))
by_name-index_files registry root k idx (f ∷ fs) =
    by_name-index_files registry root k (index_file registry root idx f) fs
    ∙ ap (λ ns. ns ++ named name_of k (nodes_of fs))
        (by_name-index_nodes k f.path (index_facts registry root idx f) f.nodes)
    ∙ append_assoc (get_list k idx.by_name) (named name_of k f.nodes)
        (named name_of k (nodes_of fs))
    ∙ ap (λ ns. get_list k idx.by_name ++ ns) (sym (named-append name_of k f.nodes (nodes_of fs)))

by_qname-index_nodes :
    (k path : Str) (idx : Index) (ns : List Node)
    → get_list k (index_nodes path idx ns).by_qname ≡ get_list k idx.by_qname ++ named qname_of k ns
unfolding index_nodes index_node
by_qname-index_nodes k path idx [] = sym (append-nil (get_list k idx.by_qname))
by_qname-index_nodes k path idx (n ∷ ns) =
    by_qname-index_nodes k path (index_node path idx n) ns ∙ push-named qname_of k n ns idx.by_qname

by_qname-index_files :
    (registry : Registry) (root k : Str) (idx : Index) (fs : List LangIr)
    → get_list k (index_files registry root idx fs).by_qname
      ≡ get_list k idx.by_qname ++ named qname_of k (nodes_of fs)
unfolding index_files index_file index_facts
by_qname-index_files registry root k idx [] = sym (append-nil (get_list k idx.by_qname))
by_qname-index_files registry root k idx (f ∷ fs) =
    by_qname-index_files registry root k (index_file registry root idx f) fs
    ∙ ap (λ ns. ns ++ named qname_of k (nodes_of fs))
        (by_qname-index_nodes k f.path (index_facts registry root idx f) f.nodes)
    ∙ append_assoc (get_list k idx.by_qname) (named qname_of k f.nodes)
        (named qname_of k (nodes_of fs))
    ∙ ap (λ ns. get_list k idx.by_qname ++ ns) (sym (named-append qname_of k f.nodes (nodes_of fs)))

in_file-index_nodes :
    (p k path : Str) (idx : Index) (ns : List Node)
    → lookup2 p k (index_nodes path idx ns).in_file
      ≡ last_at name_of k p path ns (lookup2 p k idx.in_file)
unfolding index_nodes index_node
in_file-index_nodes p k path idx [] = ground arith
in_file-index_nodes p k path idx (n ∷ ns) =
    in_file-index_nodes p k path (index_node path idx n) ns
    ∙ last_at-insert2 name_of k p path n ns idx.in_file

in_file-index_files :
    (registry : Registry) (root p k : Str) (idx : Index) (fs : List LangIr)
    → lookup2 p k (index_files registry root idx fs).in_file
      ≡ last_by name_of k (nodes_at p fs) (lookup2 p k idx.in_file)
unfolding index_files index_file index_facts
in_file-index_files registry root p k idx [] = refl
in_file-index_files registry root p k idx (f ∷ fs) =
    in_file-index_files registry root p k (index_file registry root idx f) fs
    ∙ ap (last_by name_of k (nodes_at p fs)) (
        in_file-index_nodes p k f.path (index_facts registry root idx f) f.nodes
        ∙ ap (last_at name_of k p f.path f.nodes) (lookup2-row name_of k p f.path idx.in_file))
    ∙ last_at-files name_of k p f fs (lookup2 p k idx.in_file)

in_file_qname-index_nodes :
    (p k path : Str) (idx : Index) (ns : List Node)
    → lookup2 p k (index_nodes path idx ns).in_file_qname
      ≡ last_at qname_of k p path ns (lookup2 p k idx.in_file_qname)
unfolding index_nodes index_node
in_file_qname-index_nodes p k path idx [] = ground arith
in_file_qname-index_nodes p k path idx (n ∷ ns) =
    in_file_qname-index_nodes p k path (index_node path idx n) ns
    ∙ last_at-insert2 qname_of k p path n ns idx.in_file_qname

in_file_qname-index_files :
    (registry : Registry) (root p k : Str) (idx : Index) (fs : List LangIr)
    → lookup2 p k (index_files registry root idx fs).in_file_qname
      ≡ last_by qname_of k (nodes_at p fs) (lookup2 p k idx.in_file_qname)
unfolding index_files index_file index_facts
in_file_qname-index_files registry root p k idx [] = refl
in_file_qname-index_files registry root p k idx (f ∷ fs) =
    in_file_qname-index_files registry root p k (index_file registry root idx f) fs
    ∙ ap (last_by qname_of k (nodes_at p fs)) (
        in_file_qname-index_nodes p k f.path (index_facts registry root idx f) f.nodes
        ∙ ap (last_at qname_of k p f.path f.nodes)
            (lookup2-row qname_of k p f.path idx.in_file_qname))
    ∙ last_at-files qname_of k p f fs (lookup2 p k idx.in_file_qname)

-- The declarations of the files, as the tables have them.
pub record IsIndexOf (files : List LangIr) (idx : Index) : Type 0 where
  pub nodes : idx.nodes ≡ nodes_of files
  pub by_name : (k : Str) → get_list k idx.by_name ≡ named name_of k (nodes_of files)
  pub by_qname : (k : Str) → get_list k idx.by_qname ≡ named qname_of k (nodes_of files)
  pub in_file : (p k : Str) → lookup2 p k idx.in_file ≡ last_by name_of k (nodes_at p files) none
  pub in_file_qname :
      (p k : Str) → lookup2 p k idx.in_file_qname ≡ last_by qname_of k (nodes_at p files) none

-- Whatever files it is built from, the index has just their nodes, in order: under a name and under
-- a qualified name all nodes that have it, and in a file the last of its nodes that has the name or
-- the qualified name. Every method of a type that it knows is one of these nodes, and every name
-- bound by an import is the ID of one.
pub build_index_lem :
    (registry : Registry) (repo_root : Str) (files : List LangIr)
    → IsIndexOf files (build_index registry repo_root files)
      × Rooted (build_index registry repo_root files)
build_index_lem registry root files = (exact, build_index-Rooted registry root files)
  where
    first : Index
    first = record new_index { files = files }

    kept :
        declared (build_index registry root files)
        ≡ declared (index_files registry root first files)
    kept = unfold build_index in declared-bind_files (index_files registry root first files) files

    exact : IsIndexOf files (build_index registry root files)
    exact = record {
      nodes = nodes-build_index registry root files;
      by_name = λ k.
          ap (λ (d : Declared). get_list k d.by_name) kept
          ∙ by_name-index_files registry root k first files;
      by_qname = λ k.
          ap (λ (d : Declared). get_list k d.by_qname) kept
          ∙ by_qname-index_files registry root k first files;
      in_file = λ p k.
          ap (λ (d : Declared). lookup2 p k d.in_file) kept
          ∙ in_file-index_files registry root p k first files;
      in_file_qname = λ p k.
          ap (λ (d : Declared). lookup2 p k d.in_file_qname) kept
          ∙ in_file_qname-index_files registry root p k first files;
    }
