-- ===== src/Resolver/Family.antt =====
-- pkg/resolver/resolver.go: the files of a language family against each other, and Resolve.
pub mod Closed
pub mod Groups
pub mod Sources
pub mod Complete
use graph_context.Base.{
  ℕ, zero, suc, ◌+◌, List, [], ◌∷◌, ◌++◌, Str, str_eq, str_lt, bytes, itoa, Bool, true, false, not,
  ◌&&◌, ◌||◌, Option, none, some, insert, get_list, get_row, push, contains, keep, map, values, ltb,
  nat_beq, if◌then◌else◌, ◌==◌, sort_by,
}
use graph_context.Store.Types.{
  Node, NodeKind, kind_interface, kind_class, Edge, EdgeKind, edge_calls, edge_contains,
  edge_decorates, edge_depends_on, edge_implements, edge_imports, edge_inherits, edge_overrides,
  edge_references, conf_exact,
}
use graph_context.Store.Query.{edge_less}
use graph_context.Lang.Ir.{LangIr}
use graph_context.Lang.Registry.{Registry, family}
use graph_context.Resolver.Index.{Index}
use graph_context.Resolver.Index.Imports.{build_index}
use graph_context.Resolver.Types.{find_method_in_hierarchy}
use graph_context.Resolver.Refs.{ResolutionStats, Progress, resolve_files}

-- lang.InsertSorted
unfoldable pub insert_sorted : List Str → Str → List Str
insert_sorted xs v = if contains xs v then xs else sort_by str_lt (xs ++ v ∷ [])

unfoldable pub insert_all_sorted : List Str → List Str → List Str
unfolding insert_sorted
insert_all_sorted xs [] = xs
insert_all_sorted xs (v ∷ vs) = insert_all_sorted (insert_sorted xs v) vs

unfoldable pub add_fact_methods : List LangIr → Str → List Str → List Str
unfolding insert_all_sorted
add_fact_methods [] name xs = xs
add_fact_methods (f ∷ fs) name xs =
    add_fact_methods fs name (insert_all_sorted xs (get_list name f.types.methods))

-- The methods of an interface: those declared, and those in the facts of the files.
unfoldable pub iface_methods : Index → List LangIr → Str → List Str
unfolding add_fact_methods
iface_methods idx files name =
    add_fact_methods files name (map (λ (m, _). m) (get_row name idx.type_methods))

unfoldable pub in_facts : List LangIr → Str → Str → Bool
in_facts [] cls method = false
in_facts (f ∷ fs) cls method =
    contains (get_list cls f.types.methods) method || in_facts fs cls method

abbrev pub has_some {ℓ} : {A : Type ℓ} → List A → Bool
has_some [] = false
has_some (_ ∷ _) = true

unfoldable pub has_all : Index → List LangIr → Str → List Str → Bool
unfolding in_facts find_method_in_hierarchy
has_all idx files cls [] = true
has_all idx files cls (m ∷ ms) =
    let rest = has_all idx files cls ms in
    if has_some (find_method_in_hierarchy idx cls m) || in_facts files cls m then rest else false

abbrev pub is_class : NodeKind → Bool
is_class kind_class = true
is_class _ = false

abbrev pub is_interface : NodeKind → Bool
is_interface kind_interface = true
is_interface _ = false

abbrev pub implements_edge : Node → Node → Edge
implements_edge candidate iface = record {
  source_id = candidate.id;
  target_id = iface.id;
  kind = edge_implements;
  line = candidate.start_line;
  confidence = conf_exact;
  candidate_count = 0;
}

-- Whether a class gets an edge to an interface with these methods.
unfoldable pub satisfies : Index → List LangIr → Node → List Str → Node → Bool
unfolding has_all
satisfies idx files iface methods candidate =
    is_class candidate.kind
    && not (candidate.id == iface.id)
    && has_all idx files candidate.name methods

unfoldable pub implementers : Index → List LangIr → Node → List Str → List Edge
unfolding satisfies
implementers idx files iface [] = []
implementers idx files iface (m ∷ ms) =
    map (λ c. implements_edge c iface) (keep (satisfies idx files iface (m ∷ ms)) idx.nodes)

-- The loop over the interfaces.
unfoldable pub implements_edges : Index → List LangIr → List Node → List Edge
unfolding implementers iface_methods
implements_edges idx files [] = []
implements_edges idx files (n ∷ ns) =
    let rest = implements_edges idx files ns in
    if is_interface n.kind
    then implementers idx files n (iface_methods idx files n.name) ++ rest
    else rest

unfoldable pub resolve_family : Registry → Str → List LangIr → Progress → List Node × Progress
unfolding build_index resolve_files implements_edges
resolve_family registry repo_root files p =
    let idx = build_index registry repo_root files in
    let q = resolve_files idx files p in
    (idx.nodes, record q { edges = q.edges ++ implements_edges idx files idx.nodes })

-- groups[fam] = append(groups[fam], f), in the order in which the families come.
unfoldable pub group_files : List LangIr → List (Str × List LangIr) → List (Str × List LangIr)
unfolding family
group_files [] m = m
group_files (f ∷ fs) m = group_files fs (push (family f.language) f m)

unfoldable pub resolve_families :
    Registry
    → Str
    → List (Str × List LangIr)
    → List Str
    → List Node
    → Progress
    → List Node × Progress
unfolding resolve_family
resolve_families registry repo_root groups [] nodes p = (nodes, p)
resolve_families registry repo_root groups (fam ∷ fams) nodes p =
    let r = resolve_family registry repo_root (get_list fam groups) p in
    resolve_families registry repo_root groups fams (nodes ++ r.0) r.1

abbrev pub resolved_less : Node → Node → Bool
resolved_less a b =
    if a.file_path == b.file_path
    then if nat_beq a.start_byte b.start_byte
      then str_lt a.id b.id
      else ltb a.start_byte b.start_byte
    else str_lt a.file_path b.file_path

abbrev pub edge_kind_text : EdgeKind → Str
edge_kind_text edge_calls = bytes "calls"
edge_kind_text edge_contains = bytes "contains"
edge_kind_text edge_decorates = bytes "decorates"
edge_kind_text edge_depends_on = bytes "depends_on"
edge_kind_text edge_implements = bytes "implements"
edge_kind_text edge_imports = bytes "imports"
edge_kind_text edge_inherits = bytes "inherits"
edge_kind_text edge_overrides = bytes "overrides"
edge_kind_text edge_references = bytes "references"

-- fmt.Sprintf("%s|%s|%s|%d", ...)
unfoldable pub edge_text : Edge → Str
edge_text e =
    e.source_id ++ b'|' ∷ e.target_id ++ b'|' ∷ edge_kind_text e.kind ++ b'|' ∷ itoa e.line

unfoldable pub edge_map : List Edge → List (Str × Edge) → List (Str × Edge)
unfolding edge_text
edge_map [] m = m
edge_map (e ∷ es) m = edge_map es (insert (edge_text e) e m)

pub record ResolutionResult : Type 0 where
  pub nodes : List Node
  pub edges : List Edge
  pub stats : ResolutionStats

abbrev pub start_progress : Progress
start_progress = record {
  edges = [];
  ext_nodes = [];
  seen_ext = [];
  stats = record { total_refs = 0; exact = 0; ambiguous = 0; name_match = 0; unknown = 0 };
}

unfoldable pub resolve : Registry → Str → List LangIr → ResolutionResult
unfolding group_files resolve_families edge_map
resolve registry repo_root files =
    let groups = group_files files [] in
    let r =
      resolve_families registry repo_root groups (sort_by str_lt (map (λ (k, _). k) groups)) []
        start_progress in
    record {
      nodes = sort_by resolved_less (r.0 ++ r.1.ext_nodes);
      edges = sort_by edge_less (values (edge_map r.1.edges []));
      stats = r.1.stats;
    }
