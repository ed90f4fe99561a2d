-- ===== src/Store/Types.antt =====
-- pkg/store/types.go. A string enumeration of the source is a data type with its constants. Line
-- numbers and byte offsets are never negative in the program, and are numbers here.
use native.Mathlib.Decide.{ℕ_discrete}
use graph_context.Base.{
  ℕ, ◌≡◌, ◌↔◌, Bool, true, ◌&&◌, Comparable, nat_beq, nat_beq_iff, Str, str_beq, str_beq_iff, arith,
  if◌then◌else◌, refl,
}

pub data NodeKind : Type 0 where
  kind_file kind_module kind_class kind_interface kind_function kind_method : NodeKind
  kind_package kind_external : NodeKind

pub data EdgeKind : Type 0 where
  edge_contains edge_imports edge_calls edge_inherits edge_implements edge_overrides : EdgeKind
  edge_references edge_decorates edge_depends_on : EdgeKind

pub data Confidence : Type 0 where
  conf_exact conf_ambiguous conf_name_match conf_unknown : Confidence

pub data EntrypointKind : Type 0 where
  entry_none entry_main entry_route entry_cli entry_handler entry_fixture : EntrypointKind

pub data Visibility : Type 0 where
  vis_none vis_exported vis_private : Visibility

-- The place of an edge kind's string in the order of strings.
abbrev pub edge_kind_rank : EdgeKind → ℕ
edge_kind_rank edge_calls = 0
edge_kind_rank edge_contains = 1
edge_kind_rank edge_decorates = 2
edge_kind_rank edge_depends_on = 3
edge_kind_rank edge_implements = 4
edge_kind_rank edge_imports = 5
edge_kind_rank edge_inherits = 6
edge_kind_rank edge_overrides = 7
edge_kind_rank edge_references = 8

abbrev pub confidence_rank : Confidence → ℕ
confidence_rank conf_ambiguous = 0
confidence_rank conf_exact = 1
confidence_rank conf_name_match = 2
confidence_rank conf_unknown = 3

edge_kind_of : ℕ → EdgeKind
edge_kind_of n =
    if nat_beq n 0
    then edge_calls
    else if nat_beq n 1
    then edge_contains
    else if nat_beq n 2
    then edge_decorates
    else if nat_beq n 3
    then edge_depends_on
    else if nat_beq n 4
    then edge_implements
    else if nat_beq n 5
    then edge_imports
    else if nat_beq n 6
    then edge_inherits
    else if nat_beq n 7
    then edge_overrides
    else edge_references

edge_kind_of-edge_kind_rank : (k : EdgeKind) → edge_kind_of (edge_kind_rank k) ≡ k
unfolding edge_kind_of
edge_kind_of-edge_kind_rank edge_calls = refl
edge_kind_of-edge_kind_rank _ = refl

abbrev pub edge_kind_beq : EdgeKind → EdgeKind → Bool
edge_kind_beq a b = nat_beq (edge_kind_rank a) (edge_kind_rank b)

pub edge_kind_beq_iff : (a b : EdgeKind) → (edge_kind_beq a b ≡ true) ↔ (a ≡ b)
edge_kind_beq_iff a b = ground (
  arith,
  nat_beq_iff (edge_kind_rank a) (edge_kind_rank b),
  edge_kind_of-edge_kind_rank a,
  edge_kind_of-edge_kind_rank b,
)

instance abbrev pub edge_kind_eq : Comparable EdgeKind
edge_kind_eq = record { same_iff = edge_kind_beq_iff; same = edge_kind_beq }

-- One entity of the graph. Its ID is "<file_path>:<qualified_name>".
pub record Node : Type 0 where
  pub id : Str
  pub kind : NodeKind
  pub name : Str
  pub qualified_name : Str
  pub file_path : Str
  pub start_line : ℕ
  pub end_line : ℕ
  pub start_byte : ℕ
  pub end_byte : ℕ
  pub language : Str
  pub signature : Str
  pub docstring : Str
  pub is_test : Bool
  pub is_entrypoint : Bool
  pub entrypoint_kind : EntrypointKind
  pub visibility : Visibility

abbrev pub node_id : Node → Str
node_id n = n.id

-- One directed relationship between two nodes.
pub record Edge : Type 0 where
  pub source_id : Str
  pub target_id : Str
  pub kind : EdgeKind
  pub line : ℕ
  pub confidence : Confidence
  pub candidate_count : ℕ

-- A file's content hash and its stat when it was hashed. `indexed_at` is in seconds.
pub record FileRecord : Type 0 where
  pub path : Str
  pub content_hash : Str
  pub indexed_at : ℕ
  pub size : ℕ
  pub mod_time_ns : ℕ

-- A file's cached parse result.
pub record FileIr : Type 0 where
  pub path : Str
  pub content_hash : Str
  pub encoded : Str

-- Go's `==` on the structs compares field by field.
pub Node-discrete : Discrete Node
Node-discrete = hlevel ℕ_discrete

pub Edge-discrete : Discrete Edge
Edge-discrete = hlevel ℕ_discrete

-- The primary key of an edge.
pub record EdgeKey : Type 0 where
  pub source : Str
  pub target : Str
  pub kind : EdgeKind
  pub line : ℕ

abbrev pub key_of : Edge → EdgeKey
key_of e = record { source = e.source_id; target = e.target_id; kind = e.kind; line = e.line }

abbrev pub edge_key_beq : EdgeKey → EdgeKey → Bool
edge_key_beq a b =
    str_beq a.source b.source
    && str_beq a.target b.target
    && edge_kind_beq a.kind b.kind
    && nat_beq a.line b.line

pub edge_key_beq_iff : (a b : EdgeKey) → (edge_key_beq a b ≡ true) ↔ (a ≡ b)
edge_key_beq_iff a b = ground (
  arith,
  str_beq_iff a.source b.source,
  str_beq_iff a.target b.target,
  edge_kind_beq_iff a.kind b.kind,
  nat_beq_iff a.line b.line,
)

instance abbrev pub edge_key_eq : Comparable EdgeKey
edge_key_eq = record { same_iff = edge_key_beq_iff; same = edge_key_beq }
