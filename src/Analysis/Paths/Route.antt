-- ===== src/Analysis/Paths/Route.antt =====
-- Routes of a graph that visit no vertex twice.
use graph_context.Base.{
  ℕ, suc, ◌≡◌, ◌≢◌, refl, ◌⊎◌, inl, inr, List, [], ◌∷◌, ◌++◌, Str, str_eq, false, contains,
  get_list, Memᴰ,
}
use graph_context.Store.Types.{Edge}
use graph_context.Analysis.Graph.{Graph}

-- The vertices of a route from a vertex to `to`, of at most so many edges, which enters neither the
-- vertices to avoid nor one of its own again.
pub data Route (g : Graph) (to : Str) : List Str → Str → ℕ → List Str → Type 0 where
  arrive : {avoid : List Str} {left : ℕ} → Route g to avoid to left (to ∷ [])
  leave :
      {avoid : List Str} {curr : Str} {left : ℕ} {rest : List Str} (e : Edge)
      → curr ≢ to
      → Memᴰ e (get_list curr g.out)
      → contains (avoid ++ curr ∷ []) e.target_id ≡ false
      → Route g to (avoid ++ curr ∷ []) e.target_id left rest
      → Route g to avoid curr (suc left) (curr ∷ rest)

-- The first edge of a route, and the route from there.
abbrev pub Leaves : Graph → Str → List Str → Str → ℕ → List Str → Type 0
Leaves g to avoid curr left route =
    (l : ℕ) × (rest : List Str) × (e : Edge) × (left ≡ suc l)
    × (route ≡ curr ∷ rest)
    × Memᴰ e (get_list curr g.out)
    × (contains (avoid ++ curr ∷ []) e.target_id ≡ false)
    × Route g to (avoid ++ curr ∷ []) e.target_id l rest

pub Route-cases :
    (g : Graph) (to : Str) (avoid : List Str) (curr : Str) (left : ℕ) (route : List Str)
    → Route g to avoid curr left route
    → ((curr ≡ to) × (route ≡ to ∷ [])) ⊎ ((curr ≢ to) × Leaves g to avoid curr left route)
Route-cases g to avoid curr left route arrive = inl (refl, refl)
Route-cases g to avoid curr left route (leave {left = l} {rest = rest} e ne m f r) =
    inr (ne, (l, rest, e, refl, refl, m, f, r))
