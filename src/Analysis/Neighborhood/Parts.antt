-- ===== src/Analysis/Neighborhood/Parts.antt =====
-- pkg/analysis/algorithms.go: what Neighborhood takes of the IDs, and the edges among the nodes.
use graph_context.Base.{
  ℕ, suc, ◌≤◌, ◌≡◌, refl, sym, ap, subst, List, [], ◌∷◌, Str, str_eq, Bool, true, false, Option,
  none, some, Bool-cases, contains, lookup, get_list, keep, length, length-append, Memᴰ,
  Memᴰ-append, Memᴰ-concat, Memᴰ-keep, not-Memᴰ-nil, inl, inr, ◌⊎◌, ⊎_elim, ◌↔◌, arith, leb, leb→le,
  leb→lt, IsOrder, str_lt-asym, str_lt-chain,
}
use mathlib.Core.List.Memᴰ
use graph_context.Store.Types.{Node, Edge}
use graph_context.Analysis.Graph.{Graph}
use graph_context.Analysis.Neighborhood.{add_node, take_nodes, inner_edges, node_less}

pub node_less-IsOrder : IsOrder node_less
node_less-IsOrder = record {
  asym = λ a b. str_lt-asym a.id b.id;
  chain = λ a b c. str_lt-chain a.id b.id c.id;
}

-- The node stands in the graph under one of the IDs.
abbrev pub IsUnder : Graph → List Str → Node → Type 0
IsUnder g ids n = (id : Str) × Memᴰ id ids × (lookup id g.nodes ≡ some n)

pub record Takes (g : Graph) (limit : ℕ) (found : List Node) (ids : List Str) (r : List Node × Bool)
    : Type 0 where
  pub keeps : (n : Node) → Memᴰ n found → Memᴰ n r.0
  pub sound : (n : Node) → Memᴰ n r.0 → Memᴰ n found ⊎ IsUnder g ids n
  pub short : length found ≤ limit → length r.0 ≤ limit
  pub cut : r.1 ≡ true → limit ≤ length r.0
  pub full : r.1 ≡ false → (n : Node) → IsUnder g ids n → Memᴰ n r.0

mem-add_node :
    (n : Node) (found : List Node) (o : Option Node)
    → Memᴰ n (add_node found o) ↔ (Memᴰ n found ⊎ (o ≡ some n))
mem-add_node n found none = (inl, ⊎_elim (λ m. m) (λ q. absurd (ground arith)))
mem-add_node n found (some x) = (
  λ m. ⊎_elim inl (λ q. inr (ap some (sym q))) ((Memᴰ-concat n x found).0 m),
  λ m. (Memᴰ-concat n x found).1 (⊎_elim inl (λ q. inr (ground arith)) m),
)

length-add_node :
    (found : List Node) (o : Option Node) → length (add_node found o) ≤ suc (length found)
length-add_node found none = omega arith
length-add_node found (some x) = omega (arith, length-append found (x ∷ []))

pub take_nodes-Takes :
    (g : Graph) (limit : ℕ) (found : List Node) (ids : List Str)
    → Takes g limit found ids (take_nodes g limit found ids)
unfolding take_nodes
take_nodes-Takes g limit found [] = record {
  keeps = λ n m. m;
  sound = λ n m. inl m;
  short = λ s. s;
  cut = λ q. absurd (ground arith);
  full = λ f n (id, m, q). absurd (not-Memᴰ-nil m);
}
take_nodes-Takes g limit found (id ∷ ids) =
    let o = lookup id g.nodes in
    let rest = take_nodes-Takes g limit (add_node found o) ids in
    elim (Bool-cases (leb limit (length found))) [
      | inl t ↦ rw t (record {
        keeps = λ n m. m;
        sound = λ n m. inl m;
        short = λ s. s;
        cut = λ q. leb→le limit (length found) t;
        full = λ f n u. absurd (ground arith);
      })
      | inr f ↦ rw f (record {
        keeps = λ n m. rest.keeps n ((mem-add_node n found o).1 (inl m));
        sound = λ n m. elim (rest.sound n m) [
          | inr (k, at, q) ↦ inr (k, Memᴰ.tail at, q)
          | inl new ↦ elim ((mem-add_node n found o).0 new) [
            | inl old ↦ inl old
            | inr q ↦ inr (id, Memᴰ.head refl, q)
          ]
        ];
        short = λ s.
            let room = leb→lt limit (length found) f in
            rest.short (omega (arith, length-add_node found o));
        cut = rest.cut;
        full = λ u n (k, at, q). elim (Memᴰ.cases_cons at) [
          | inr later ↦ rest.full u n (k, later, q)
          | inl same ↦
              rest.keeps n
                ((mem-add_node n found o).1 (inr (subst (λ j. lookup j g.nodes ≡ some n) same q)))
        ];
      })
    ]

-- An edge that leaves one of the nodes and enters one of them.
abbrev pub IsInner : Graph → List Node → Edge → Type 0
IsInner g ns e =
    ((n : Node) × Memᴰ n ns × Memᴰ e (get_list n.id g.out))
    × ((n : Node) × Memᴰ n ns × (n.id ≡ e.target_id))

pub mem-inner_edges :
    (g : Graph) (set : List Str) (ns : List Node) (e : Edge)
    → Memᴰ e (inner_edges g set ns) ↔ (
        ((n : Node) × Memᴰ n ns × Memᴰ e (get_list n.id g.out)) × (contains set e.target_id ≡ true))
unfolding inner_edges
mem-inner_edges g set [] e =
    (λ m. absurd (not-Memᴰ-nil m), λ ((n, m, _), _). absurd (not-Memᴰ-nil m))
mem-inner_edges g set (x ∷ ns) e =
    let mine = keep (λ (d : Edge). contains set d.target_id) (get_list x.id g.out) in
    let (to, of) = mem-inner_edges g set ns e in
    let (kto, kof) = Memᴰ-keep (λ (d : Edge). contains set d.target_id) e (get_list x.id g.out) in
    let (ato, aof) = Memᴰ-append e mine (inner_edges g set ns) in
    (
      λ m. elim (ato m) [
        | inl a ↦ let (at, q) = kto a in ((x, Memᴰ.head refl, at), q)
        | inr b ↦ let ((n, nm, at), q) = to b in ((n, Memᴰ.tail nm, at), q)
      ],
      λ ((n, nm, at), q). elim (Memᴰ.cases_cons nm) [
        | inl same ↦ aof (inl (kof (subst (λ (y : Node). Memᴰ e (get_list y.id g.out)) same at, q)))
        | inr later ↦ aof (inr (of ((n, later, at), q)))
      ],
    )
