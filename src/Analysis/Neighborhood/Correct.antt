-- ===== src/Analysis/Neighborhood/Correct.antt =====
-- pkg/analysis/algorithms.go: the subgraph that Neighborhood gives.
use graph_context.Base.{
  ℕ, zero, suc, ◌≤◌, ◌≡◌, refl, sym, subst, List, [], ◌∷◌, Str, str_eq, Bool, true, false, Option,
  none, some, Bool-cases, contains_iff, lookup, map, length, Memᴰ, not-Memᴰ-nil, inl, inr, ◌⊎◌, ◌↔◌,
  arith, sort_by, Memᴰ-sort_by, length-sort_by, IsSortedBy, sort_by-IsSortedBy, All, mem-All,
}
use mathlib.Core.List.Memᴰ
use graph_context.Store.Types.{Node, node_id, Edge}
use graph_context.Analysis.Graph.{Graph}
use graph_context.Analysis.Neighborhood.{
  ball, seed_ids, take_nodes, inner_edges, node_less, inner_less, NeighborhoodResult, neighborhood,
}
use graph_context.Analysis.Neighborhood.Ball.{Near, here}
use graph_context.Analysis.Neighborhood.Rounds.{Within, Met, ball-Met}
use graph_context.Analysis.Neighborhood.Parts.{
  node_less-IsOrder, Takes, IsUnder, take_nodes-Takes, IsInner, mem-inner_edges,
}

-- Within the radius of the seed there is an ID under which the node stands.
abbrev pub IsNear : Graph → Str → ℕ → Node → Type 0
IsNear g seed radius n =
    (id : Str) × (k : ℕ) × (k ≤ radius) × Near g seed k id × (lookup id g.nodes ≡ some n)

abbrev pub Subgraph : Graph → Str → ℕ → ℕ → NeighborhoodResult → Type 0
Subgraph g seed radius limit r =
    All (IsNear g seed radius) r.nodes
    × (length r.nodes ≤ limit)
    × IsSortedBy node_less r.nodes
    × ((e : Edge) → Memᴰ e r.edges ↔ IsInner g r.nodes e)
    × (((r.truncated ≡ true) × (length r.nodes ≡ limit))
        ⊎ ((r.truncated ≡ false) × ((n : Node) → Memᴰ n r.nodes ↔ IsNear g seed radius n)))

-- The IDs that the search starts with: the seed, if it has a node.
start-Within :
    (g : Graph) (seed : Str)
    → Within g seed
        (seed_ids (lookup seed g.nodes) seed)
        0
        (seed ∷ [])
        (seed_ids (lookup seed g.nodes) seed)
        (seed ∷ [])
start-Within g seed = record {
  near = λ v m. at_seed (lookup seed g.nodes) v m;
  met = λ v m. inr (Memᴰ.eq_of_singleton m);
  start = Memᴰ.head refl;
  kept = λ v m. m;
  front = λ v m. subst (Near g seed 0) (sym (Memᴰ.eq_of_singleton m)) here;
  closed = λ v m. inl m;
  full = λ k v le n. only_seed k v le n;
}
  where
    at_seed :
        (o : Option Node) (v : Str) → Memᴰ v (seed_ids o seed) → (k : ℕ) × (k ≤ 0) × Near g seed k v
    at_seed none v m = absurd (not-Memᴰ-nil m)
    at_seed (some n) v m =
        (0, omega arith, subst (Near g seed 0) (sym (Memᴰ.eq_of_singleton m)) here)

    only_seed : (k : ℕ) (v : Str) → k ≤ 0 → Near g seed k v → Memᴰ v (seed ∷ [])
    only_seed zero v le here = Memᴰ.head refl
    only_seed (suc k) v le n = absurd (omega arith)

-- The IDs met by the search, as far as they have nodes, are those within the radius.
IsUnder-IsNear :
    (g : Graph) (seed : Str) (radius : ℕ) (ids : List Str)
    → Met g seed (seed_ids (lookup seed g.nodes) seed) radius ids
    → (n : Node) → IsUnder g ids n ↔ IsNear g seed radius n
IsUnder-IsNear g seed radius ids met n = (
  λ (id, m, q). let (k, le, near) = met.near id m in (id, k, le, near, q),
  λ (id, k, le, near, q). elim (met.full k id le near) [
    | inl m ↦ (id, m, q)
    | inr at ↦ (id, met.kept id (seed_in id at q), q)
  ],
)
  where
    seed_in :
        (id : Str)
        → id ≡ seed
        → lookup id g.nodes ≡ some n
        → Memᴰ id (seed_ids (lookup seed g.nodes) seed)
    seed_in id at q =
        subst (λ o. Memᴰ id (seed_ids o seed)) (sym (subst (λ j. lookup j g.nodes ≡ some n) at q))
          (Memᴰ.head at)

-- The edges given are those among the nodes taken.
inner_edges-IsInner :
    (g : Graph) (taken : List Node) (e : Edge)
    → Memᴰ e (sort_by inner_less (inner_edges g (map node_id taken) taken))
      ↔ IsInner g (sort_by node_less taken) e
inner_edges-IsInner g taken e =
    let (sto, sof) = Memᴰ-sort_by inner_less e (inner_edges g (map node_id taken) taken) in
    let (ito, iof) = mem-inner_edges g (map node_id taken) taken e in
    let (has, is) = contains_iff (map node_id taken) e.target_id in
    (
      λ m.
          let ((n, nm, at), q) = ito (sto m) in
          let (t, tm, te) = Memᴰ.of_map node_id taken (has q) in
          (
            (n, (Memᴰ-sort_by node_less n taken).1 nm, at),
            (t, (Memᴰ-sort_by node_less t taken).1 tm, te),
          ),
      λ ((n, nm, at), (t, tm, te)). sof (
          iof (
            (n, (Memᴰ-sort_by node_less n taken).0 nm, at),
            is (
                subst (λ j. Memᴰ j (map node_id taken)) te
                  (Memᴰ.map node_id ((Memᴰ-sort_by node_less t taken).0 tm))),
          )),
    )

-- The nodes given stand under IDs within the radius of the seed, along edges either way; there are
-- at most as many as the limit, and they are sorted by ID. The edges given are exactly those that
-- leave one of the nodes and enter one of them. Marked truncated, there are as many nodes as the
-- limit; not marked, the nodes are all that stand under IDs within the radius.
pub neighborhood-Subgraph :
    (g : Graph) (seed : Str) (radius limit : ℕ)
    → Subgraph g seed radius limit (neighborhood g seed radius limit)
unfolding neighborhood
neighborhood-Subgraph g seed radius limit = (
  mem-All (IsNear g seed radius) (sort_by node_less taken.0) (λ n m. near n m),
  omega (arith, takes.short (omega arith), length-sort_by node_less taken.0),
  sort_by-IsSortedBy node_less-IsOrder taken.0,
  inner_edges-IsInner g taken.0,
  elim (Bool-cases taken.1) [
    | inl t ↦
        inl (
          t,
          omega (arith, takes.cut t, takes.short (omega arith), length-sort_by node_less taken.0),
        )
    | inr f ↦ inr (
      f,
      λ n. (
        near n,
        λ h.
            (Memᴰ-sort_by node_less n taken.0).1
              (takes.full f n ((IsUnder-IsNear g seed radius ids met n).1 h)),
      ),
    )
  ],
)
  where
    first : List Str
    first = seed_ids (lookup seed g.nodes) seed

    ids : List Str
    ids = ball g radius (seed ∷ []) first (seed ∷ [])

    met : Met g seed first radius ids
    met =
        ball-Met g seed first radius 0 radius (seed ∷ []) first (seed ∷ []) (omega arith)
          (start-Within g seed)

    taken : List Node × Bool
    taken = take_nodes g limit [] ids

    takes : Takes g limit [] ids taken
    takes = take_nodes-Takes g limit [] ids

    near : (n : Node) → Memᴰ n (sort_by node_less taken.0) → IsNear g seed radius n
    near n m = elim (takes.sound n ((Memᴰ-sort_by node_less n taken.0).0 m)) [
      | inl none_found ↦ absurd (not-Memᴰ-nil none_found)
      | inr u ↦ (IsUnder-IsNear g seed radius ids met n).0 u
    ]
