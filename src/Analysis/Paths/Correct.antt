-- ===== src/Analysis/Paths/Correct.antt =====
-- pkg/analysis/paths.go: the paths that the search finds.
use graph_context.Base.{
  ℕ, zero, suc, ◌≤◌, ◌≡◌, ◌≢◌, refl, sym, ap, ◌∙◌, subst, List, [], ◌∷◌, ◌++◌, Str, str_eq, Bool,
  true, false, contains, get_list, length, All, mem-All, Memᴰ, not-Memᴰ-nil, Bool-cases, ◌⊎◌, inl,
  inr, ⊎_elim, ◌↔◌, arith, leb, leb→le, leb→lt, ◌==◌, eq_iff, sort_by, Memᴰ-sort_by, length-sort_by,
  IsSortedBy, sort_by-IsSortedBy,
}
use mathlib.Core.List.Memᴰ
use mathlib.Core.List.{append_assoc}
use graph_context.Store.Types.{Edge}
use graph_context.Analysis.Graph.{Graph}
use graph_context.Analysis.Paths.{Found, visit_targets, dfs, path_less, paths_between}
use graph_context.Analysis.Paths.Route.{Route, arrive, leave, Route-cases}
use graph_context.Analysis.Paths.Collects.{
  Collects, Collects-then, Collects-as, Collects-none, Collects-cut, Collects-one,
}
use graph_context.Analysis.Paths.Order.{path_less-IsOrder}

module _ (g : Graph) (to : Str) (limit : ℕ) where
  -- A path is what leads to a vertex and a route from there.
  abbrev Onward : ℕ → List Str → Str → List Str → Type 0
  Onward left path curr p = (rest : List Str) × (p ≡ path ++ rest) × Route g to path curr left rest

  -- The same over one of the edges, to a vertex that is not on the path.
  abbrev Over : ℕ → List Str → List Edge → List Str → Type 0
  Over left current es p =
      (e : Edge) × Memᴰ e es
      × (contains current e.target_id ≡ false)
      × Onward left current e.target_id p

  Over-skip :
      (left : ℕ) (current : List Str) (e : Edge) (es : List Edge)
      → contains current e.target_id ≡ true
      → (p : List Str) → Over left current es p ↔ Over left current (e ∷ es) p
  Over-skip left current e es t p = (
    λ (x, m, f, o). (x, Memᴰ.tail m, f, o),
    λ (x, m, f, o). elim (Memᴰ.cases_cons m) [
      | inr tl ↦ (x, tl, f, o)
      | inl q ↦ absurd (ground (arith, ap (λ (y : Edge). contains current y.target_id) q))
    ],
  )

  Over-visit :
      (left : ℕ) (current : List Str) (e : Edge) (es : List Edge)
      → contains current e.target_id ≡ false
      → (p : List Str)
      → (Onward left current e.target_id p ⊎ Over left current es p) ↔ Over left current (e ∷ es) p
  Over-visit left current e es f p = (
    ⊎_elim (λ o. (e, Memᴰ.head refl, f, o)) (λ (x, m, h, o). (x, Memᴰ.tail m, h, o)),
    λ (x, m, h, o). elim (Memᴰ.cases_cons m) [
      | inr tl ↦ inr (x, tl, h, o)
      | inl q ↦ inl (subst (λ (y : Edge). Onward left current y.target_id p) q o)
    ],
  )

  visit_targets-Collects :
      (left : ℕ) (current : List Str) (es : List Edge) (a : Found)
      → ((v : Str) (b : Found)
          → Collects limit (Onward left current v) b (dfs g to limit left current v b))
      → Collects limit
          (Over left current es)
          a
          (visit_targets (dfs g to limit left current) current es a)
  unfolding visit_targets
  visit_targets-Collects left current [] a h =
      Collects-none limit (Over left current []) a (λ p (x, m, f, o). not-Memᴰ-nil m)
  visit_targets-Collects left current (e ∷ es) a h =
      elim (Bool-cases (contains current e.target_id)) [
        | inl t ↦ rw t (
            Collects-as limit (Over left current es) (Over left current (e ∷ es)) a
              (visit_targets (dfs g to limit left current) current es a)
              (Over-skip left current e es t) (visit_targets-Collects left current es a h))
        | inr f ↦
            let b = dfs g to limit left current e.target_id a in
            let c = visit_targets (dfs g to limit left current) current es b in
            rw f (
              Collects-as limit (λ p. Onward left current e.target_id p ⊎ Over left current es p)
                (Over left current (e ∷ es)) a c (Over-visit left current e es f)
                (Collects-then limit (Onward left current e.target_id) (Over left current es) a b c
                  (h e.target_id a) (visit_targets-Collects left current es b h)))
      ]

  Onward-arrive :
      (left : ℕ) (path : List Str) (curr : Str)
      → curr ≡ to
      → (p : List Str) → Onward left path curr p ↔ (p ≡ path ++ curr ∷ [])
  Onward-arrive left path curr at p = (
    λ (rest, q, r). elim (Route-cases g to path curr left rest r) [
      | inl (_, only) ↦ q ∙ ap (λ s. path ++ s) (only ∙ ap (λ v. v ∷ []) (sym at))
      | inr (ne, _) ↦ absurd (ne at)
    ],
    λ q. (curr ∷ [], q, subst (λ v. Route g to path v left (v ∷ [])) (sym at) arrive),
  )

  Onward-zero :
      (path : List Str) (curr : Str) → curr ≢ to → (p : List Str) → ¬ Onward zero path curr p
  Onward-zero path curr ne p (rest, q, r) = elim (Route-cases g to path curr zero rest r) [
    | inl (at, _) ↦ ne at
    | inr (_, (l, _, _, z, _, _, _, _)) ↦ absurd (omega arith)
  ]

  Onward-leave :
      (left : ℕ) (path : List Str) (curr : Str)
      → curr ≢ to
      → (p : List Str)
      → Over left (path ++ curr ∷ []) (get_list curr g.out) p ↔ Onward (suc left) path curr p
  Onward-leave left path curr ne p = (
    λ (e, m, f, (rest, q, r)).
        (curr ∷ rest, q ∙ append_assoc path (curr ∷ []) rest, leave e ne m f r),
    λ (route, q, r). elim (Route-cases g to path curr (suc left) route r) [
      | inl (at, _) ↦ absurd (ne at)
      | inr (_, (l, rest, e, same, begin, m, f, r')) ↦
          let lower : l ≡ left = omega arith in
          (
            e,
            m,
            f,
            (
              rest,
              q ∙ ap (λ s. path ++ s) begin ∙ sym (append_assoc path (curr ∷ []) rest),
              subst (λ k. Route g to (path ++ curr ∷ []) e.target_id k rest) lower r',
            ),
          )
    ],
  )

  -- Where the limit is not reached and the vertex is the last.
  stop-Collects :
      (left : ℕ) (path : List Str) (curr : Str) (a : Found)
      → leb limit (length a.paths) ≡ false
      → curr ≡ to
      → Collects limit
          (Onward left path curr)
          a
          (record a { paths = a.paths ++ (path ++ curr ∷ []) ∷ [] })
  stop-Collects left path curr a f at =
      Collects-one limit (Onward left path curr) a (path ++ curr ∷ [])
        (leb→lt limit (length a.paths) f) (Onward-arrive left path curr at)

  dfs-Collects :
      (left : ℕ) (path : List Str) (curr : Str) (a : Found)
      → Collects limit (Onward left path curr) a (dfs g to limit left path curr a)
  unfolding dfs
  dfs-Collects zero path curr a = elim (Bool-cases (leb limit (length a.paths))) [
    | inl t ↦ rw t (Collects-cut limit (Onward zero path curr) a (leb→le limit (length a.paths) t))
    | inr f ↦ elim (Bool-cases (curr == to)) [
      | inl at ↦ rw (f, at) (stop-Collects zero path curr a f ((eq_iff curr to).0 at))
      | inr no_stop ↦
          rw (f, no_stop)
            (Collects-none limit (Onward zero path curr) a
              (Onward-zero path curr (λ e. absurd (ground (arith, eq_iff curr to)))))
    ]
  ]
  dfs-Collects (suc left) path curr a = elim (Bool-cases (leb limit (length a.paths))) [
    | inl t ↦
        rw t (Collects-cut limit (Onward (suc left) path curr) a (leb→le limit (length a.paths) t))
    | inr f ↦ elim (Bool-cases (curr == to)) [
      | inl at ↦ rw (f, at) (stop-Collects (suc left) path curr a f ((eq_iff curr to).0 at))
      | inr no_stop ↦
          let current = path ++ curr ∷ [] in
          let es = get_list curr g.out in
          rw (f, no_stop)
            (Collects-as limit (Over left current es) (Onward (suc left) path curr) a
              (visit_targets (dfs g to limit left current) current es a)
              (Onward-leave left path curr (λ e. absurd (ground (arith, eq_iff curr to))))
              (visit_targets-Collects left current es a (λ v b. dfs-Collects left current v b)))
    ]
  ]

-- The paths are routes, at most as many as the limit and sorted; marked truncated, they are as many
-- as the limit; not marked, they are all routes.
abbrev pub PathsOutcome : Graph → Str → Str → ℕ → ℕ → List (List Str) × Bool → Type 0
PathsOutcome g from to max_depth limit (paths, truncated) =
    All (Route g to [] from max_depth) paths
    × (length paths ≤ limit)
    × IsSortedBy path_less paths
    × (((truncated ≡ true) × (length paths ≡ limit))
        ⊎ ((truncated ≡ false) × ((p : List Str) → Memᴰ p paths ↔ Route g to [] from max_depth p)))

-- The paths between two vertices are routes of at most `max_depth` edges from the one to the other
-- on which no vertex stands twice. There are at most `limit`, sorted by length and then by the IDs
-- along them. If the answer is marked truncated there are just as many as the limit; if not, they
-- are exactly these routes.
pub paths_between-PathsOutcome :
    (g : Graph) (from to : Str) (max_depth limit : ℕ)
    → PathsOutcome g from to max_depth limit (paths_between g from to max_depth limit)
unfolding paths_between
paths_between-PathsOutcome g from to max_depth limit = (
  mem-All (Route g to [] from max_depth) (sort_by path_less out.paths)
      (λ p m. is_route p ((Memᴰ-sort_by path_less p out.paths).0 m)),
  omega (arith, c.short (omega arith), length-sort_by path_less out.paths),
  sort_by-IsSortedBy path_less-IsOrder out.paths,
  elim (Bool-cases out.truncated) [
    | inl t ↦ inl (
      t,
      omega (
        arith,
        c.cut (λ f. absurd (ground arith)) t,
        c.short (omega arith),
        length-sort_by path_less out.paths,
      ),
    )
    | inr f ↦ inr (
      f,
      λ p. (
        λ m. is_route p ((Memᴰ-sort_by path_less p out.paths).0 m),
        λ r. (Memᴰ-sort_by path_less p out.paths).1 (c.full f p (p, refl, r)),
      ),
    )
  ],
)
  where
    first : Found
    first = record { paths = []; truncated = false }

    out : Found
    out = dfs g to limit max_depth [] from first

    c : Collects limit (Onward g to limit max_depth [] from) first out
    c = dfs-Collects g to limit max_depth [] from first

    is_route : (p : List Str) → Memᴰ p out.paths → Route g to [] from max_depth p
    is_route p m = elim (c.sound p m) [
      | inl n ↦ absurd (not-Memᴰ-nil n)
      | inr (rest, q, r) ↦ subst (Route g to [] from max_depth) (sym q) r
    ]
