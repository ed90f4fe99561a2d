-- ===== src/Analysis/Neighborhood/Rounds.antt =====
-- pkg/analysis/algorithms.go: the rounds of Neighborhood.
use graph_context.Base.{
  ℕ, zero, suc, ◌+◌, ◌≤◌, ◌≡◌, List, [], ◌∷◌, Str, str_eq, Memᴰ, not-Memᴰ-nil, inl, inr, ◌⊎◌, arith,
}
use graph_context.Analysis.Graph.{Graph}
use graph_context.Analysis.Neighborhood.{Ring, spread, ball}
use graph_context.Analysis.Neighborhood.Ball.{
  IsNextTo, Near, here, onward, spread-Grows, spread_visits,
}

module _ (g : Graph) (seed : Str) (first : List Str) where
  -- After so many rounds, what is visited lies within that many steps and what lies within them is
  -- visited; a vertex whose neighbours are not all visited is on the frontier.
  pub record Within (r : ℕ) (visited ids frontier : List Str) : Type 0 where
    pub near : (v : Str) → Memᴰ v ids → (k : ℕ) × (k ≤ r) × Near g seed k v
    pub met : (v : Str) → Memᴰ v visited → Memᴰ v ids ⊎ (v ≡ seed)
    pub start : Memᴰ seed visited
    pub kept : (v : Str) → Memᴰ v first → Memᴰ v ids
    pub front : (v : Str) → Memᴰ v frontier → Near g seed r v
    pub closed :
        (v : Str) → Memᴰ v visited → Memᴰ v frontier ⊎ ((w : Str) → IsNextTo g v w → Memᴰ w visited)
    pub full : (k : ℕ) (v : Str) → k ≤ r → Near g seed k v → Memᴰ v visited

  -- What is met in all.
  pub record Met (radius : ℕ) (ids : List Str) : Type 0 where
    pub near : (v : Str) → Memᴰ v ids → (k : ℕ) × (k ≤ radius) × Near g seed k v
    pub kept : (v : Str) → Memᴰ v first → Memᴰ v ids
    pub full : (k : ℕ) (v : Str) → k ≤ radius → Near g seed k v → Memᴰ v ids ⊎ (v ≡ seed)

  round-Within :
      (r : ℕ) (visited ids frontier : List Str)
      → Within r visited ids frontier
      → let s = spread g (record { visited = visited; ids = ids; next = [] }) frontier in
        Within (suc r) s.visited s.ids s.next
  round-Within r visited ids frontier w =
      let a : Ring = record { visited = visited; ids = ids; next = [] } in
      let P = Near g seed (suc r) in
      let step : (u v : Str) → Memᴰ u frontier → IsNextTo g u v → Near g seed (suc r) v =
        λ u v m n. onward (w.front u m) n in
      let grown = spread-Grows g P a frontier step in
      let visits = spread_visits g P a frontier step in
      record {
        near = λ v m. elim (grown.ids_sound v m) [
          | inl old ↦ let (k, le, n) = w.near v old in (k, omega arith, n)
          | inr n ↦ (suc r, omega arith, n)
        ];
        met = λ v m. elim (grown.sound v m) [
          | inr (_, i, _) ↦ inl i
          | inl old ↦ elim (w.met v old) [ inl i ↦ inl (grown.ids_keep v i) | inr q ↦ inr q ]
        ];
        start = grown.keeps seed w.start;
        kept = λ v m. grown.ids_keep v (w.kept v m);
        front = λ v m. elim (grown.next_sound v m) [ inl n ↦ absurd (not-Memᴰ-nil n) | inr p ↦ p ];
        closed = λ v m. elim (grown.sound v m) [
          | inr (_, _, n) ↦ inl n
          | inl old ↦ elim (w.closed v old) [
            | inl f ↦ inr (λ x n. visits v x f n)
            | inr done ↦ inr (λ x n. grown.keeps x (done x n))
          ]
        ];
        full = λ k v le n. full grown.keeps visits k v le n;
      }
    where
      full :
          {b : List Str}
          → ((v : Str) → Memᴰ v visited → Memᴰ v b)
          → ((u v : Str) → Memᴰ u frontier → IsNextTo g u v → Memᴰ v b)
          → (k : ℕ) (v : Str) → k ≤ suc r
          → Near g seed k v
          → Memᴰ v b
      full keeps visits zero v le here = keeps v w.start
      full keeps visits (suc k) v le (onward {u = u} n next) =
          elim (w.closed u (w.full k u (omega arith) n)) [
            | inl f ↦ visits u v f next
            | inr done ↦ keeps v (done v next)
          ]

  -- With no frontier, every walk stays among the visited.
  all_visited :
      (r : ℕ) (visited ids : List Str)
      → Within r visited ids []
      → (k : ℕ) (v : Str) → Near g seed k v
      → Memᴰ v visited
  all_visited r visited ids w zero v here = w.start
  all_visited r visited ids w (suc k) v (onward {u = u} n next) =
      elim (w.closed u (all_visited r visited ids w k u n)) [
        | inl f ↦ absurd (not-Memᴰ-nil f)
        | inr done ↦ done v next
      ]

  pub ball-Met :
      (rounds r radius : ℕ) (visited ids frontier : List Str)
      → r + rounds ≡ radius
      → Within r visited ids frontier
      → Met radius (ball g rounds visited ids frontier)
  unfolding ball
  ball-Met zero r radius visited ids frontier h w = record {
    near = λ v m. let (k, le, n) = w.near v m in (k, omega arith, n);
    kept = w.kept;
    full = λ k v le n. w.met v (w.full k v (omega arith) n);
  }
  ball-Met (suc rounds) r radius visited ids [] h w = record {
    near = λ v m. let (k, le, n) = w.near v m in (k, omega arith, n);
    kept = w.kept;
    full = λ k v le n. w.met v (all_visited r visited ids w k v n);
  }
  ball-Met (suc rounds) r radius visited ids (id ∷ rest) h w =
      let s = spread g (record { visited = visited; ids = ids; next = [] }) (id ∷ rest) in
      ball-Met rounds (suc r) radius s.visited s.ids s.next (omega arith)
        (round-Within r visited ids (id ∷ rest) w)
