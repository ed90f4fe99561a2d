-- ===== src/Resolver/Refs.antt =====
-- pkg/resolver/resolver.go: what a reference means, and the edges that it becomes. The branches of
-- resolveFamily decide on targets here, and `settle` appends the edges and counts.
pub mod Known
pub mod Closed
pub mod Stats
pub mod Sources
use graph_context.Base.{
  ℕ, zero, suc, ◌+◌, List, [], ◌∷◌, ◌++◌, Str, str_eq, bytes, Bool, true, false, Option, none, some,
  lookup, get_list, lookup2, contains, keep, map, length, if◌then◌else◌,
}
use graph_context.Store.Types.{
  Node, Edge, EdgeKind, edge_inherits, edge_implements, Confidence, conf_exact, conf_ambiguous,
  conf_name_match, conf_unknown, kind_external, entry_none, vis_exported,
}
use graph_context.Lang.Ir.{LangIr, Ref}
use graph_context.Resolver.Index.{Index, is_method}
use graph_context.Resolver.Types.{resolve_receiver_type, find_method_in_hierarchy}

-- One exact target, one found by its bare name, several candidates, or a name that is not known.
pub data Targets : Type 0 where
  exactly by_bare_name : Str → Targets
  several : List Node → Targets
  nowhere : Str → Targets

-- `if len(xs) == 1 { ... } else if len(xs) > 1 { ... }`, and what follows otherwise
abbrev pub of_candidates : (Str → Targets) → List Node → Targets → Targets
of_candidates single [] otherwise = otherwise
of_candidates single (n ∷ []) otherwise = single n.id
of_candidates single (n ∷ m ∷ ns) otherwise = several (n ∷ m ∷ ns)

abbrev pub is_base_kind : EdgeKind → Bool
is_base_kind edge_inherits = true
is_base_kind edge_implements = true
is_base_kind _ = false

abbrev only_one : List Node → Targets → Targets
only_one (n ∷ []) otherwise = exactly n.id
only_one _ otherwise = otherwise

-- A reference to a base type.
unfoldable pub resolve_base : Index → Str → Ref → Targets
resolve_base idx path r = elim (lookup2 path r.name idx.bindings) [
  | some id ↦ exactly id
  | none ↦ elim (lookup2 path r.name idx.in_file) [
    | some n ↦ exactly n.id
    | none ↦ only_one (get_list r.name idx.by_name) (nowhere r.name)
  ]
]

abbrev by_name_of : Option (List Node) → Str → Targets
by_name_of none name = nowhere name
by_name_of (some []) name = several []
by_name_of (some (n ∷ [])) name = by_bare_name n.id
by_name_of (some (n ∷ m ∷ ns)) name = several (n ∷ m ∷ ns)

-- A reference without a receiver.
unfoldable pub resolve_plain : Index → Str → Ref → Targets
resolve_plain idx path r = elim (lookup2 path r.name idx.in_file) [
  | some n ↦ exactly n.id
  | none ↦ elim (lookup2 path r.name idx.bindings) [
    | some id ↦ exactly id
    | none ↦ by_name_of (lookup r.name idx.by_name) r.name
  ]
]

-- A method by its bare name.
unfoldable pub resolve_bare_method : Index → Ref → Targets
resolve_bare_method idx r =
    of_candidates by_bare_name (keep (λ n. is_method n.kind) (get_list r.name idx.by_name))
      (nowhere (r.receiver ++ b'.' ∷ r.name))

-- The receiver as an import alias.
unfoldable pub resolve_alias : Index → Str → Ref → Targets
unfolding resolve_bare_method
resolve_alias idx path r = elim (lookup2 path r.receiver idx.import_aliases) [
  | none ↦ resolve_bare_method idx r
  | some target ↦ elim (lookup2 target r.name idx.in_file) [
    | some n ↦ exactly n.id
    | none ↦ resolve_bare_method idx r
  ]
]

abbrev of_type : Index → Str → Ref → Str → Targets
of_type idx path r [] = resolve_alias idx path r
of_type idx path r (c ∷ t) =
    of_candidates exactly (find_method_in_hierarchy idx (c ∷ t) r.name) (resolve_alias idx path r)

-- A reference with a receiver.
unfoldable pub resolve_member : Index → Str → Ref → Targets
unfolding resolve_alias resolve_receiver_type find_method_in_hierarchy
resolve_member idx path r = of_type idx path r (resolve_receiver_type idx r.from_id r.receiver)

abbrev by_receiver : Index → Str → Ref → Str → Targets
by_receiver idx path r [] = resolve_plain idx path r
by_receiver idx path r (_ ∷ _) = resolve_member idx path r

unfoldable pub resolve_ref : Index → Str → Ref → Targets
unfolding resolve_base resolve_plain resolve_member
resolve_ref idx path r =
    if is_base_kind r.kind then resolve_base idx path r else by_receiver idx path r r.receiver

-- ResolutionStats, without the rate, which is a float.
pub record ResolutionStats : Type 0 where
  pub total_refs : ℕ
  pub exact : ℕ
  pub ambiguous : ℕ
  pub name_match : ℕ
  pub unknown : ℕ

-- The edges, the external nodes with the IDs that they have, and the counts.
pub record Progress : Type 0 where
  pub edges : List Edge
  pub ext_nodes : List Node
  pub seen_ext : List Str
  pub stats : ResolutionStats

abbrev pub external_id : Str → Str
external_id name = bytes "external:" ++ name

abbrev pub external_node : Str → Node
external_node name = record {
  id = external_id name;
  kind = kind_external;
  name = name;
  qualified_name = name;
  file_path = [];
  start_line = 0;
  end_line = 0;
  start_byte = 0;
  end_byte = 0;
  language = [];
  signature = [];
  docstring = [];
  is_test = false;
  is_entrypoint = false;
  entrypoint_kind = entry_none;
  visibility = vis_exported;
}

-- The closure extNode, less the ID that it returns.
unfoldable pub ext_node : Str → Progress → Progress
ext_node name p = if contains p.seen_ext (external_id name) then p else record p {
  seen_ext = external_id name ∷ p.seen_ext;
  ext_nodes = p.ext_nodes ++ external_node name ∷ [];
}

abbrev pub edge_to : Ref → Confidence → ℕ → Str → Edge
edge_to r c count id = record {
  source_id = r.from_id;
  target_id = id;
  kind = r.kind;
  line = r.line;
  confidence = c;
  candidate_count = count;
}

abbrev pub add_edge : Edge → Progress → Progress
add_edge e p = record p { edges = p.edges ++ e ∷ [] }

unfoldable pub settle : Ref → Targets → Progress → Progress
unfolding ext_node
settle r (exactly id) p = record (add_edge (edge_to r conf_exact 0 id) p) {
  stats = record p.stats { exact = p.stats.exact + 1 };
}
settle r (by_bare_name id) p = record (add_edge (edge_to r conf_name_match 0 id) p) {
  stats = record p.stats { name_match = p.stats.name_match + 1 };
}
settle r (several ns) p = record p {
  edges = p.edges ++ map (λ n. edge_to r conf_ambiguous (length ns) n.id) ns;
  stats = record p.stats { ambiguous = p.stats.ambiguous + 1 };
}
settle r (nowhere name) p =
    let q = ext_node name p in
    record (add_edge (edge_to r conf_unknown 0 (external_id name)) q) {
      stats = record q.stats { unknown = q.stats.unknown + 1 };
    }

abbrev pub count_ref : Progress → Progress
count_ref p = record p { stats = record p.stats { total_refs = p.stats.total_refs + 1 } }

-- `for _, ref := range f.Refs`
unfoldable pub resolve_refs : Index → Str → List Ref → Progress → Progress
unfolding settle resolve_ref
resolve_refs idx path [] p = p
resolve_refs idx path (r ∷ rs) p =
    resolve_refs idx path rs (settle r (resolve_ref idx path r) (count_ref p))

-- `for _, f := range files`
unfoldable pub resolve_files : Index → List LangIr → Progress → Progress
unfolding resolve_refs
resolve_files idx [] p = p
resolve_files idx (f ∷ fs) p = resolve_files idx fs (resolve_refs idx f.path f.refs p)
