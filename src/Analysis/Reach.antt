-- ===== src/Analysis/Reach.antt =====
-- pkg/analysis/algorithms.go: ReverseReach and ForwardReach. The two loops of the source differ in
-- the adjacency map and in the end of the edge that they go to, which are parameters here. A
-- negative depth or limit acts as 0.
pub mod Walk
pub mod Round
pub mod Levels
pub mod Order
pub mod Correct
use graph_context.Base.{
  ℕ, zero, suc, ◌+◌, List, [], ◌∷◌, ◌++◌, Str, Bool, true, false, not, ◌&&◌, ◌||◌, Option, none,
  some, str_eq, contains, lookup, get_list, length, leb, ltb, nat_beq, if◌then◌else◌, ◌==◌, str_lt,
  sort_by,
}
use graph_context.Store.Types.{Node, Edge, EdgeKind, Confidence}
use graph_context.Analysis.Graph.{Graph}

pub record Reached : Type 0 where
  pub node : Node
  pub depth : ℕ
  pub confidence : Confidence

-- What the loops read: the nodes, one adjacency map, the end of an edge, the kinds and the limit.
pub record View : Type 0 where
  pub nodes : List (Str × Node)
  pub adj : List (Str × List Edge)
  pub far : Edge → Str
  pub kinds : EdgeKind → Bool
  pub limit : ℕ

-- The variables of a round.
pub record Search : Type 0 where
  pub visited : List Str
  pub results : List Reached
  pub next : List Str

-- `cut` is the early return at the limit.
pub data Scan : Type 0 where
  running : Search → Scan
  cut : List Reached → Scan

-- `cut` ends what would follow.
infixl 5 ◌>>=◌
abbrev pub ◌>>=◌ : Scan → (Search → Scan) → Scan
running s >>= f = f s
cut rs >>= f = cut rs

-- `if n, ok := g.Nodes[id]; ok { results = append(results, ...) }`
unfoldable pub add_found : Option Node → ℕ → Edge → List Reached → List Reached
add_found none d e rs = rs
add_found (some n) d e rs = rs ++ record { node = n; depth = d; confidence = e.confidence } ∷ []

-- The body of the innermost loop, for an edge at a depth.
unfoldable pub offer : View → ℕ → Search → Edge → Scan
unfolding add_found
offer w d s e =
    if not (w.kinds e.kind) || contains s.visited (w.far e)
    then running s
    else if leb w.limit (length s.results)
    then cut s.results
    else running (record {
      visited = w.far e ∷ s.visited;
      results = add_found (lookup (w.far e) w.nodes) d e s.results;
      next = s.next ++ w.far e ∷ [];
    })

-- `for _, e := range g.In[id]`
unfoldable pub scan_edges : View → ℕ → Search → List Edge → Scan
unfolding offer
scan_edges w d s [] = running s
scan_edges w d s (e ∷ es) = offer w d s e >>= λ t. scan_edges w d t es

-- `for _, id := range frontier`
unfoldable pub scan_frontier : View → ℕ → Search → List Str → Scan
unfolding scan_edges
scan_frontier w d s [] = running s
scan_frontier w d s (id ∷ ids) =
    scan_edges w d s (get_list id w.adj) >>= λ t. scan_frontier w d t ids

pub reached_less : Reached → Reached → Bool
reached_less a b =
    if nat_beq a.depth b.depth then str_lt a.node.id b.node.id else ltb a.depth b.depth

-- The outer loop, with the rounds that the depth leaves; the flag says that the limit cut it off.
unfoldable pub levels : View → ℕ → ℕ → List Str → List Reached → List Str → List Reached × Bool
unfolding scan_frontier reached_less
levels w zero d visited results frontier = (sort_by reached_less results, false)
levels w (suc rounds) d visited results [] = (sort_by reached_less results, false)
levels w (suc rounds) d visited results (id ∷ ids) =
    elim (scan_frontier w d (record { visited = visited; results = results; next = [] })
      (id ∷ ids)) [
        | cut rs ↦ (rs, true)
        | running t ↦ levels w rounds (suc d) t.visited t.results t.next
      ]

unfoldable pub reach : View → Str → ℕ → List Reached × Bool
unfolding levels
reach w seed max_depth = levels w max_depth 1 (seed ∷ []) [] (seed ∷ [])

abbrev pub callers_view : Graph → (EdgeKind → Bool) → ℕ → View
callers_view g kinds limit = record {
  nodes = g.nodes;
  adj = g.in_edges;
  far = λ e. e.source_id;
  kinds = kinds;
  limit = limit;
}

abbrev pub callees_view : Graph → (EdgeKind → Bool) → ℕ → View
callees_view g kinds limit = record {
  nodes = g.nodes;
  adj = g.out;
  far = λ e. e.target_id;
  kinds = kinds;
  limit = limit;
}

unfoldable pub reverse_reach : Graph → Str → (EdgeKind → Bool) → ℕ → ℕ → List Reached × Bool
unfolding reach
reverse_reach g seed kinds max_depth limit = reach (callers_view g kinds limit) seed max_depth

unfoldable pub forward_reach : Graph → Str → (EdgeKind → Bool) → ℕ → ℕ → List Reached × Bool
unfolding reach
forward_reach g seed kinds max_depth limit = reach (callees_view g kinds limit) seed max_depth
