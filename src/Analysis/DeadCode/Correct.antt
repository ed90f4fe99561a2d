-- ===== src/Analysis/DeadCode/Correct.antt =====
-- pkg/analysis/deadcode.go: what is reported dead is what no root reaches by calls.
use graph_context.Base.{
  ◌≡◌, ◌↔◌, inl, inr, List, Str, true, false, some, str_eq, contains, contains_iff, contains-no,
  length, Memᴰ, Bool-cases, not-Memᴰ-nil, sort_by, Memᴰ-sort_by, IsSortedBy, sort_by-IsSortedBy,
  IsOrder, str_lt-asym, str_lt-chain,
}
use graph_context.Store.Types.{Node, edge_kind_eq}
use graph_context.Analysis.Graph.{Graph}
use graph_context.Analysis.DeadCode.{
  rounds, roots, is_callable, unreached, id_less, dead_candidates,
}
use graph_context.Analysis.DeadCode.Rounds.{close-rounds_returns}
use graph_context.Analysis.DeadCode.Closure.{Live, root, call, Calls, close-Live}
use graph_context.Analysis.DeadCode.Members.{mem-roots, mem-unreached}

pub id_less-IsOrder : IsOrder id_less
id_less-IsOrder = record {
  asym = λ a b. str_lt-asym a.id b.id;
  chain = λ a b c. str_lt-chain a.id b.id c.id;
}

-- A function or method of the graph that no root reaches by calls.
abbrev pub IsDead : Graph → Node → Type 0
IsDead g n = (id : Str) × Memᴰ (id, n) g.nodes × (is_callable n.kind ≡ true) × (¬ Live g id)

-- The search for dead code returns within its rounds, with the number of the roots of the graph.
-- The list it gives is sorted by ID, and holds a node exactly when it is a function or method in
-- the graph under an ID to which no chain of call edges leads from a root.
pub dead_candidates_lem :
    (g : Graph)
    → (dead : List Node) × (dead_candidates g ≡ some (length (roots g.nodes), dead))
      × ((n : Node) → Memᴰ n dead ↔ IsDead g n)
      × IsSortedBy id_less dead
unfolding dead_candidates
dead_candidates_lem g =
    let start = roots g.nodes in
    let (seen, ends) = close-rounds_returns g start in
    let (sound, holds, closed) =
      close-Live g (rounds g) start start seen
        (record {
          sound = λ v m. let (n, at, r) = (mem-roots v g.nodes).0 m in root n at r;
          listed = λ v m. absurd (not-Memᴰ-nil m);
          closed = λ u v m c. inl (inr m);
        })
        (λ u m. m) ends in
    (
      sort_by id_less (unreached seen g.nodes),
      rw (ends, dead_candidates),
      λ n.
          let (to, of) = mem-unreached seen n g.nodes in
          let (sto, sof) = Memᴰ-sort_by id_less n (unreached seen g.nodes) in
          (
            λ m.
                let (id, at, c, v) = to (sto m) in
                (id, at, c, λ l. contains-no seen id v (full seen holds closed l)),
            λ (id, at, c, dead). sof (of (id, at, c, not_seen seen sound id dead)),
          ),
      sort_by-IsSortedBy id_less-IsOrder (unreached seen g.nodes),
    )
  where
    full :
        (seen : List Str)
        → ((v : Str) → Memᴰ v (roots g.nodes) → Memᴰ v seen)
        → ((u v : Str) → Memᴰ u seen → Calls g u v → Memᴰ v seen)
        → {v : Str} → Live g v
        → Memᴰ v seen
    full seen holds closed (root {id = v} n at r) = holds v ((mem-roots v g.nodes).1 (n, at, r))
    full seen holds closed (call {u = u} {v = v} l c) = closed u v (full seen holds closed l) c

    not_seen :
        (seen : List Str)
        → ((v : Str) → Memᴰ v seen → Live g v)
        → (id : Str) → ¬ Live g id
        → contains seen id ≡ false
    not_seen seen sound id dead = elim (Bool-cases (contains seen id)) [
      | inl t ↦ absurd (dead (sound id ((contains_iff seen id).0 t)))
      | inr f ↦ f
    ]
