-- ===== src/Store/Query.antt =====
-- pkg/store/query.go: the reads of the store, which do not fail.
use graph_context.Base.{
  ℕ, zero, suc, List, [], ◌∷◌, ◌++◌, Str, Bool, ltb, nat_beq, str_lt, str_eq, ◌==◌, if◌then◌else◌,
  sort_by, keep, map, Option, lookup, length, values,
}
use graph_context.Store.Types.{
  Node, Edge, edge_kind_eq, edge_key_eq, edge_kind_rank, FileRecord, FileIr, Confidence, conf_exact,
  conf_ambiguous, conf_name_match, conf_unknown, confidence_rank,
}
use graph_context.Store.Db.{Db}

-- ORDER BY id
abbrev pub node_id_less : Node → Node → Bool
node_id_less a b = str_lt a.id b.id

-- ORDER BY source_id, target_id, kind, line
abbrev pub edge_less : Edge → Edge → Bool
edge_less a b =
    if a.source_id == b.source_id
    then if a.target_id == b.target_id
      then if a.kind == b.kind
        then ltb a.line b.line
        else ltb (edge_kind_rank a.kind) (edge_kind_rank b.kind)
      else str_lt a.target_id b.target_id
    else str_lt a.source_id b.source_id

-- Node: a missing node is none.
unfoldable pub node : Db → Str → Option Node
node db id = lookup id db.nodes

-- ORDER BY start_byte, id
abbrev pub in_file_less : Node → Node → Bool
in_file_less a b =
    if nat_beq a.start_byte b.start_byte then str_lt a.id b.id else ltb a.start_byte b.start_byte

-- NodesInFile
unfoldable pub nodes_in_file : Db → Str → List Node
nodes_in_file db path = sort_by in_file_less (keep (λ n. n.file_path == path) (values db.nodes))

unfoldable pub all_nodes : Db → List Node
all_nodes db = sort_by node_id_less (values db.nodes)

unfoldable pub all_edges : Db → List Edge
all_edges db = sort_by edge_less (values db.edges)

unfoldable pub out_edges : Db → Str → List Edge
out_edges db id = sort_by edge_less (keep (λ e. e.source_id == id) (values db.edges))

unfoldable pub in_edges : Db → Str → List Edge
in_edges db id = sort_by edge_less (keep (λ e. e.target_id == id) (values db.edges))

unfoldable pub counts : Db → ℕ × ℕ
counts db = (length db.nodes, length db.edges)

-- FileHashes, FileRecords and FileIRs: a row for each path.
unfoldable pub file_hashes : Db → List (Str × Str)
file_hashes db = map (λ (p, f). (p, f.content_hash)) db.files

unfoldable pub file_records : Db → List (Str × FileRecord)
file_records db = db.files

unfoldable pub file_irs : Db → List (Str × FileIr)
file_irs db = db.irs

abbrev pub has_confidence : Confidence → Edge → Bool
has_confidence c e = nat_beq (confidence_rank c) (confidence_rank e.confidence)

-- GROUP BY confidence: a level that no edge carries has no row.
abbrev pub count_row : Confidence → ℕ → List (Confidence × ℕ)
count_row c zero = []
count_row c (suc n) = (c, suc n) ∷ []

unfoldable pub confidence_count : Db → Confidence → ℕ
confidence_count db c = length (keep (has_confidence c) (values db.edges))

-- ConfidenceCounts: in the order of the levels' strings.
unfoldable pub confidence_counts : Db → List (Confidence × ℕ)
unfolding confidence_count
confidence_counts db =
    count_row conf_ambiguous (confidence_count db conf_ambiguous)
    ++ count_row conf_exact (confidence_count db conf_exact)
    ++ count_row conf_name_match (confidence_count db conf_name_match)
    ++ count_row conf_unknown (confidence_count db conf_unknown)
