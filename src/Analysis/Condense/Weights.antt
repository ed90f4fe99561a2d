-- ===== src/Analysis/Condense/Weights.antt =====
-- pkg/analysis/condense.go: what the weights count.
use graph_context.Base.{
  ℕ, suc, ◌+◌, ◌≡◌, refl, ap, ◌∙◌, List, [], ◌∷◌, ◌++◌, Str, str_eq, Bool, false, not, ◌&&◌, Option,
  none, some, lookup, insert, lookup-insert, eq_iff, keep, length, if◌then◌else◌, ◌==◌, arith,
  Bool-cases, inl, inr,
}
use graph_context.Store.Types.{Node, Edge}
use graph_context.Analysis.Graph.{Graph}
use graph_context.Analysis.Condense.{row_of, weight_of, bump, joins, weigh, weigh_edges, weigh_all}

weight_of-bump :
    (a b from to : Str) (ws : List (Str × List (Str × ℕ)))
    → weight_of a b (bump from to ws)
      ≡ (if from == a && to == b then suc (weight_of a b ws) else weight_of a b ws)
unfolding bump
weight_of-bump a b from to ws =
    let row = insert to (suc (weight_of from to ws)) (row_of (lookup from ws)) in
    elim (Bool-cases (from == a)) [
      | inr f ↦ rw (lookup-insert from a row ws, f) refl
      | inl t ↦
          let same = (eq_iff from a).0 t in
          rw (lookup-insert from a row ws, t)
            (ground (
              arith,
              lookup-insert to b (suc (weight_of from to ws)) (row_of (lookup from ws)),
              eq_iff to b,
              ap (λ k. weight_of k to ws) same,
              ap (λ k. weight_of k b ws) same,
            ))
    ]

-- All edges of the adjacency lists.
abbrev pub edges_of : List (Str × List Edge) → List Edge
edges_of [] = []
edges_of ((_, es) ∷ m) = es ++ edges_of m

length-keep_append :
    (p : Edge → Bool) (xs ys : List Edge)
    → length (keep p (xs ++ ys)) ≡ length (keep p xs) + length (keep p ys)
length-keep_append p [] ys = omega arith
length-keep_append p (x ∷ xs) ys = ground (arith, length-keep_append p xs ys)

module _ (group_of : Node → Str) (a b : Str) where
  -- Both ends are nodes, the one in module a and the other in another module b.
  abbrev pub crosses : Option Node → Option Node → Bool
  crosses (some s) (some t) =
      not (joins group_of (group_of s) (group_of t)) && (group_of s == a && group_of t == b)
  crosses _ _ = false

  abbrev pub edge_crosses : Graph → Edge → Bool
  edge_crosses g e = crosses (lookup e.source_id g.nodes) (lookup e.target_id g.nodes)

  weight_of-weigh :
      (o p : Option Node) (ws : List (Str × List (Str × ℕ)))
      → weight_of a b (weigh group_of o p ws)
        ≡ (if crosses o p then suc (weight_of a b ws) else weight_of a b ws)
  unfolding weigh
  weight_of-weigh none p ws = refl
  weight_of-weigh (some s) none ws = refl
  weight_of-weigh (some s) (some t) ws =
      elim (Bool-cases (joins group_of (group_of s) (group_of t))) [
        | inl y ↦ rw y refl
        | inr f ↦ rw f (weight_of-bump a b (group_of s) (group_of t) ws)
      ]

  weight_of-weigh_edges :
      (g : Graph) (es : List Edge) (ws : List (Str × List (Str × ℕ)))
      → weight_of a b (weigh_edges group_of g es ws)
        ≡ weight_of a b ws + length (keep (edge_crosses g) es)
  unfolding weigh_edges
  weight_of-weigh_edges g [] ws = omega arith
  weight_of-weigh_edges g (e ∷ es) ws =
      let s = lookup e.source_id g.nodes in
      let t = lookup e.target_id g.nodes in
      weight_of-weigh_edges g es (weigh group_of s t ws)
      ∙ ap (λ n. n + length (keep (edge_crosses g) es)) (weight_of-weigh s t ws)
      ∙ elim (Bool-cases (edge_crosses g e)) [ inl y ↦ rw y (omega arith) | inr f ↦ rw f refl ]

  weight_of-weigh_more :
      (g : Graph) (m : List (Str × List Edge)) (ws : List (Str × List (Str × ℕ)))
      → weight_of a b (weigh_all group_of g m ws)
        ≡ weight_of a b ws + length (keep (edge_crosses g) (edges_of m))
  unfolding weigh_all
  weight_of-weigh_more g [] ws = omega arith
  weight_of-weigh_more g ((k, es) ∷ m) ws = omega (
    arith,
    weight_of-weigh_more g m (weigh_edges group_of g es ws),
    weight_of-weigh_edges g es ws,
    length-keep_append (edge_crosses g) es (edges_of m),
  )

  -- The weight of one module to another is the number of the edges of the graph that run from a node
  -- of the one to a node of the other; it is 0 where the modules are the same or one has no name.
  pub weight_of-weigh_all :
      (g : Graph)
      → weight_of a b (weigh_all group_of g g.out [])
        ≡ length (keep (edge_crosses g) (edges_of g.out))
  weight_of-weigh_all g = weight_of-weigh_more g g.out [] ∙ omega arith
