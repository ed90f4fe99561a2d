-- ===== src/Analysis/Paths.antt =====
-- pkg/analysis/paths.go: the paths between two vertices, by a search in depth that keeps no vertex
-- twice on the current path. `visited` of the source holds exactly the IDs of the current path, which
-- is handed down here. A negative depth or limit acts as 0.
pub mod Route
pub mod Collects
pub mod Order
pub mod Correct
use graph_context.Base.{
  ℕ, zero, suc, List, [], ◌∷◌, ◌++◌, Str, str_eq, str_lt, Bool, true, false, ltb, leb, nat_beq,
  contains, get_list, length, map, if◌then◌else◌, ◌==◌, sort_by,
}
use graph_context.Store.Types.{Edge}
use graph_context.Analysis.Graph.{Graph}

pub record Found : Type 0 where
  pub paths : List (List Str)
  pub truncated : Bool

-- The loop over the edges, with the call of `dfs` for a target.
unfoldable pub visit_targets : (Str → Found → Found) → List Str → List Edge → Found → Found
visit_targets dfs current [] acc = acc
visit_targets dfs current (e ∷ es) acc =
    let skipped = visit_targets dfs current es acc in
    let visited = visit_targets dfs current es (dfs e.target_id acc) in
    if contains current e.target_id then skipped else visited

-- `dfs`, with the depth that is left and the path that leads to the vertex.
module _ (g : Graph) (to : Str) (limit : ℕ) where
  unfoldable pub dfs : ℕ → List Str → Str → Found → Found
  unfolding visit_targets
  dfs zero path curr acc =
      if leb limit (length acc.paths)
      then record acc { truncated = true }
      else if curr == to
      then record acc { paths = acc.paths ++ (path ++ curr ∷ []) ∷ [] }
      else acc
  dfs (suc left) path curr acc =
      let current = path ++ curr ∷ [] in
      let deeper = visit_targets (dfs left current) current (get_list curr g.out) acc in
      if leb limit (length acc.paths)
      then record acc { truncated = true }
      else if curr == to
      then record acc { paths = acc.paths ++ current ∷ [] }
      else deeper

-- `for k := 0; k < len(paths[i]); k++`, on paths of the same length.
pub lex_less : List Str → List Str → Bool
lex_less (a ∷ s) (b ∷ t) = let rest = lex_less s t in if a == b then rest else str_lt a b
lex_less _ _ = false

pub path_less : List Str → List Str → Bool
path_less p q = if nat_beq (length p) (length q) then lex_less p q else ltb (length p) (length q)

unfoldable pub paths_between : Graph → Str → Str → ℕ → ℕ → List (List Str) × Bool
unfolding dfs path_less lex_less
paths_between g from to max_depth limit =
    let found = dfs g to limit max_depth [] from (record { paths = []; truncated = false }) in
    (sort_by path_less found.paths, found.truncated)

pub record DegreeInfo : Type 0 where
  pub in_degree : ℕ
  pub out_degree : ℕ

unfoldable pub degree_metrics : Graph → List (Str × DegreeInfo)
degree_metrics g =
    map
      (λ (id, _). (
        id,
        record {
          in_degree = length (get_list id g.in_edges);
          out_degree = length (get_list id g.out);
        },
      ))
      g.nodes
