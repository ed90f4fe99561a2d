-- ===== src/Resolver/Types.antt =====
-- pkg/resolver/types.go: the type of a receiver, and members looked up through the base types. The
-- empty text is the missing type, as in the source.
pub mod Ends
pub mod Members
use graph_context.Base.{
  ℕ, zero, suc, ◌+◌, List, [], ◌∷◌, ◌++◌, Str, str_eq, bytes, Bool, true, false, not, ◌&&◌, ◌||◌,
  Option, none, some, lookup, get_list, lookup2, contains, length, split, cut_at, if◌then◌else◌,
  ◌==◌,
}
use graph_context.Store.Types.{Node}
use graph_context.Lang.Ir.{var_key}
use graph_context.Resolver.Index.{Index}

-- m[k] of a map of texts
abbrev pub text_at : Str → List (Str × Str) → Str
text_at k m = elim (lookup k m) [ none ↦ [] | some t ↦ t ]

-- `if t != "" { ... } else { ... }`
abbrev pub or_text : Str → Str → Str
or_text [] other = other
or_text (c ∷ s) other = c ∷ s

abbrev second_qualifier : List Str → Str
second_qualifier (q ∷ _ ∷ _) = q
second_qualifier _ = []

-- enclosingClassName
unfoldable pub enclosing_class_name : Str → Str
unfolding split
enclosing_class_name scope = elim (cut_at b':' scope) [
  | none ↦ []
  | some (_, qname) ↦ second_qualifier (split b'.' qname)
]

-- scopeFilePath
unfoldable pub scope_file_path : Str → Str
scope_file_path scope = elim (cut_at b':' scope) [ none ↦ scope | some (path, _) ↦ path ]

-- The number of all bases, which bounds the rounds of a search through them.
abbrev pub all_bases : List (Str × List Str) → List Str
all_bases [] = []
all_bases ((_, bs) ∷ m) = bs ++ all_bases m

abbrev pub climb_rounds : Index → ℕ
climb_rounds idx = suc (suc (length (all_bases idx.type_bases)))

-- The search for a field: it goes on, or it has ended with a type.
pub data FieldScan : Type 0 where
  going : List Str → List Str → FieldScan
  found : Str → FieldScan

-- The loop over the bases of a type, with the visited types and the queue.
unfoldable pub scan_fields : Index → Str → List Str → List Str → List Str → FieldScan
scan_fields idx field visited queue [] = going visited queue
scan_fields idx field visited queue (b ∷ bs) =
    let skipped = scan_fields idx field visited queue bs in
    let onward = scan_fields idx field (b ∷ visited) (queue ++ b ∷ []) bs in
    if contains visited b
    then skipped
    else elim (text_at (b ++ b'.' ∷ field) idx.type_fields) [ [] ↦ onward | c ∷ s ↦ found (c ∷ s) ]

-- `for len(queue) > 0`, on fuel; `none` means that the fuel ran out.
unfoldable pub climb_fields : Index → Str → ℕ → List Str → List Str → Option Str
unfolding scan_fields
climb_fields idx field fuel visited [] = some []
climb_fields idx field zero visited (t ∷ queue) = none
climb_fields idx field (suc fuel) visited (t ∷ queue) =
    elim (scan_fields idx field visited queue (get_list t idx.type_bases)) [
      | found ft ↦ some ft
      | going visited' queue' ↦ climb_fields idx field fuel visited' queue'
    ]

abbrev or_blank : Option Str → Str
or_blank none = []
or_blank (some t) = t

-- findFieldInHierarchy
unfoldable pub find_field_in_hierarchy : Index → Str → Str → Str
unfolding climb_fields
find_field_in_hierarchy idx type_name field =
    or_text (text_at (type_name ++ b'.' ∷ field) idx.type_fields)
      (or_blank (climb_fields idx field (climb_rounds idx) (type_name ∷ []) (type_name ∷ [])))

-- The variables of the search for a method.
pub record MethodScan : Type 0 where
  pub visited : List Str
  pub queue : List Str
  pub results : List Node

abbrev pub add_result : Option Node → List Node → List Node
add_result none results = results
add_result (some n) results = results ++ n ∷ []

unfoldable pub scan_methods : Index → Str → MethodScan → List Str → MethodScan
scan_methods idx method s [] = s
scan_methods idx method s (b ∷ bs) =
    let skipped = scan_methods idx method s bs in
    let onward =
      scan_methods idx method
        (record {
          visited = b ∷ s.visited;
          queue = s.queue ++ b ∷ [];
          results = add_result (lookup2 b method idx.type_methods) s.results;
        })
        bs in
    if contains s.visited b then skipped else onward

-- The loop ends, too, after the round that has found methods.
unfoldable pub climb_methods : Index → Str → ℕ → List Str → List Str → Option (List Node)
unfolding scan_methods
climb_methods idx method fuel visited [] = some []
climb_methods idx method zero visited (t ∷ queue) = none
climb_methods idx method (suc fuel) visited (t ∷ queue) =
    let s =
      scan_methods idx method (record { visited = visited; queue = queue; results = [] })
        (get_list t idx.type_bases) in
    elim s.results [ n ∷ ns ↦ some (n ∷ ns) | [] ↦ climb_methods idx method fuel s.visited s.queue ]

abbrev pub or_no_nodes : Option (List Node) → List Node
or_no_nodes none = []
or_no_nodes (some ns) = ns

-- findMethodInHierarchy
unfoldable pub find_method_in_hierarchy : Index → Str → Str → List Node
unfolding climb_methods
find_method_in_hierarchy idx type_name method = elim (lookup2 type_name method idx.type_methods) [
  | some n ↦ n ∷ []
  | none ↦
      or_no_nodes (climb_methods idx method (climb_rounds idx) (type_name ∷ []) (type_name ∷ []))
]

abbrev first_base : List Str → Str
first_base [] = []
first_base (b ∷ _) = b

-- The name of a type, if it is one: a static call such as Cart::new().
abbrev named_type : Index → Str → Str
named_type idx name = elim (lookup name idx.type_methods) [ none ↦ [] | some _ ↦ name ]

-- The switch on the first part of the receiver.
unfoldable pub first_type : Index → Str → Str → Str
unfolding enclosing_class_name scope_file_path
first_type idx scope first =
    if first == bytes "this" || first == bytes "self"
    then or_text (text_at (var_key scope first) idx.var_types) (enclosing_class_name scope)
    else if first == bytes "super"
    then first_base (get_list (enclosing_class_name scope) idx.type_bases)
    else or_text (text_at (var_key scope first) idx.var_types) (
        or_text (text_at (var_key (scope_file_path scope) first) idx.var_types)
          (named_type idx first))

-- The loop over the fields that follow; a type that is not found ends it.
unfoldable pub follow_fields : Index → Str → List Str → Str
unfolding find_field_in_hierarchy
follow_fields idx [] fields = []
follow_fields idx (c ∷ t) [] = c ∷ t
follow_fields idx (c ∷ t) (f ∷ fs) = follow_fields idx (find_field_in_hierarchy idx (c ∷ t) f) fs

abbrev follow_parts : Index → Str → List Str → Str
follow_parts idx scope [] = []
follow_parts idx scope (p ∷ ps) = follow_fields idx (first_type idx scope p) ps

-- resolveReceiverType
unfoldable pub resolve_receiver_type : Index → Str → Str → Str
unfolding first_type follow_fields split
resolve_receiver_type idx scope [] = []
resolve_receiver_type idx scope (c ∷ r) = follow_parts idx scope (split b'.' (c ∷ r))
