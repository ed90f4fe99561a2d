-- ===== src/Resolver/Index/Rooted.antt =====
-- pkg/resolver/index.go: every name that the index knows leads to a node of the files.
use graph_context.Base.{
  ◌≡◌, refl, List, [], ◌∷◌, ◌++◌, Str, str_eq, Option, none, some, get_row, cut_at, All, All-imp,
  AllValues, AllValues-imp, AllValues-insert, AllValues-push, AllRows, AllRows-get_row,
  AllRows-insert2, Memᴰ, Memᴰ-concat, Bool-cases, inl, inr, if◌then◌else◌,
}
use graph_context.Store.Types.{Node}
use graph_context.Lang.Ir.{LangIr}
use graph_context.Lang.Registry.{Registry}
use graph_context.Resolver.Index.{
  Index, is_method, put_method, index_node, index_nodes, index_facts, index_file, index_files,
}

-- A node of the list has the ID.
abbrev pub HasId : List Node → Str → Type 0
HasId ns id = (n : Node) × Memᴰ n ns × (n.id ≡ id)

abbrev pub In : List Node → Node → Type 0
In ns n = Memᴰ n ns

pub record Rooted (idx : Index) : Type 0 where
  pub in_file : AllRows (In idx.nodes) idx.in_file
  pub by_name : AllValues (All (In idx.nodes)) idx.by_name
  pub type_methods : AllRows (In idx.nodes) idx.type_methods
  pub bindings : AllRows (HasId idx.nodes) idx.bindings

module _ (n : Node) (ns : List Node) where
  more : (x : Node) → In ns x → In (ns ++ n ∷ []) x
  more x m = (Memᴰ-concat x n ns).1 (inl m)

  last : In (ns ++ n ∷ []) n
  last = (Memᴰ-concat n n ns).1 (inr refl)

  more_rows :
      (m : List (Str × List (Str × Node))) → AllRows (In ns) m → AllRows (In (ns ++ n ∷ [])) m
  more_rows m h = AllValues-imp m (λ row k. AllValues-imp row more k) h

put_method-AllRows :
    (P : Node → Type 0) (o : Option (Str × Str)) (n : Node) (m : List (Str × List (Str × Node)))
    → P n
    → AllRows P m
    → AllRows P (put_method o n m)
put_method-AllRows P none n m p h = h
put_method-AllRows P (some (t, k)) n m p h = AllRows-insert2 P t k n m p h

index_node-Rooted :
    (path : Str) (idx : Index) (n : Node) → Rooted idx → Rooted (index_node path idx n)
unfolding index_node
index_node-Rooted path idx n h = record {
  in_file =
      AllRows-insert2 (In (idx.nodes ++ n ∷ [])) path n.name n idx.in_file (last n idx.nodes)
        (more_rows n idx.nodes idx.in_file h.in_file);
  by_name =
      AllValues-push (In (idx.nodes ++ n ∷ [])) n.name n idx.by_name (last n idx.nodes)
        (AllValues-imp idx.by_name (λ ns k. All-imp ns (more n idx.nodes) k) h.by_name);
  type_methods = methods;
  bindings =
      AllValues-imp idx.bindings
        (λ row k. AllValues-imp row (λ id (x, m, q). (x, more n idx.nodes x m, q)) k) h.bindings;
}
  where
    methods : AllRows (In (idx.nodes ++ n ∷ [])) (
        if is_method n.kind
        then put_method (cut_at b'.' n.qualified_name) n idx.type_methods
        else idx.type_methods)
    methods = elim (Bool-cases (is_method n.kind)) [
      | inl t ↦ rw t (
          put_method-AllRows (In (idx.nodes ++ n ∷ [])) (cut_at b'.' n.qualified_name) n
            idx.type_methods (last n idx.nodes)
            (more_rows n idx.nodes idx.type_methods h.type_methods))
      | inr f ↦ rw f (more_rows n idx.nodes idx.type_methods h.type_methods)
    ]

index_nodes-Rooted :
    (path : Str) (idx : Index) (ns : List Node) → Rooted idx → Rooted (index_nodes path idx ns)
unfolding index_nodes
index_nodes-Rooted path idx [] h = h
index_nodes-Rooted path idx (n ∷ ns) h =
    index_nodes-Rooted path (index_node path idx n) ns (index_node-Rooted path idx n h)

index_facts-Rooted :
    (registry : Registry) (root : Str) (idx : Index) (f : LangIr)
    → Rooted idx
    → Rooted (index_facts registry root idx f)
unfolding index_facts
index_facts-Rooted registry root idx f h = record {
  in_file =
      AllValues-insert (AllValues (In idx.nodes)) f.path (get_row f.path idx.in_file) idx.in_file
        (AllRows-get_row (In idx.nodes) f.path idx.in_file h.in_file) h.in_file;
  by_name = h.by_name;
  type_methods = h.type_methods;
  bindings = h.bindings;
}

pub index_files-Rooted :
    (registry : Registry) (root : Str) (idx : Index) (fs : List LangIr)
    → Rooted idx
    → Rooted (index_files registry root idx fs)
unfolding index_files index_file
index_files-Rooted registry root idx [] h = h
index_files-Rooted registry root idx (f ∷ fs) h =
    index_files-Rooted registry root (index_file registry root idx f) fs (
      index_nodes-Rooted f.path (index_facts registry root idx f) f.nodes
        (index_facts-Rooted registry root idx f h))
