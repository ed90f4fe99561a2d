-- ===== src/Analysis/DeadCode/Closure.antt =====
-- pkg/analysis/deadcode.go: the sweep visits what chains of calls reach.
use graph_context.Base.{
  ℕ, zero, suc, ◌≡◌, refl, subst, ◌⊎◌, inl, inr, List, [], ◌∷◌, ◌++◌, Str, true, some, str_eq,
  contains, contains_iff, get_list, ◌==◌, eq_iff, Memᴰ, Memᴰ-concat, Bool-cases, not-Memᴰ-nil,
  arith,
}
use mathlib.Core.Option.{some-injective}
use mathlib.Core.List.Memᴰ
use graph_context.Store.Types.{Edge, Node, edge_calls, edge_kind_eq}
use graph_context.Analysis.Graph.{Graph}
use graph_context.Analysis.DeadCode.{Sweep, visit, sweep_edges, sweep, close, is_root}

-- A call from `u` to `v`.
abbrev pub Calls : Graph → Str → Str → Type 0
Calls g u v = (e : Edge) × Memᴰ e (get_list u g.out) × (e.kind ≡ edge_calls) × (v ≡ e.target_id)

-- The IDs that a chain of calls reaches from a root.
pub data Live (g : Graph) : Str → Type 0 where
  root : {id : Str} (n : Node) → Memᴰ (id, n) g.nodes → is_root n ≡ true → Live g id
  call : {u v : Str} → Live g u → Calls g u v → Live g v

module _ (g : Graph) where
  -- A state of the sweep with the frontier `todo` still to scan.
  pub record Inv (todo : List Str) (s : Sweep) : Type 0 where
    pub sound : (v : Str) → Memᴰ v s.visited → Live g v
    pub listed : (v : Str) → Memᴰ v s.next → Memᴰ v s.visited
    pub closed :
        (u v : Str)
        → Memᴰ u s.visited
        → Calls g u v
        → (Memᴰ u s.next ⊎ Memᴰ u todo) ⊎ Memᴰ v s.visited

  abbrev Grows : Sweep → Sweep → Type 0
  Grows s t = (v : Str) → Memᴰ v s.visited → Memᴰ v t.visited

  enter :
      (todo : List Str) (s : Sweep) (v : Str)
      → Inv todo s
      → Live g v
      → Inv todo (record { visited = v ∷ s.visited; next = s.next ++ v ∷ [] })
  enter todo s v i live = record {
    sound = λ x m. elim (Memᴰ.cases_cons m) [ inl q ↦ rw q live | inr old ↦ i.sound x old ];
    listed = λ x m. elim ((Memᴰ-concat x v s.next).0 m) [
      | inl old ↦ Memᴰ.tail (i.listed x old)
      | inr q ↦ Memᴰ.head q
    ];
    closed = λ x y m c. elim (Memᴰ.cases_cons m) [
      | inl q ↦ inl (inl ((Memᴰ-concat x v s.next).1 (inr q)))
      | inr old ↦ elim (i.closed x y old c) [
        | inl (inl a) ↦ inl (inl ((Memᴰ-concat x v s.next).1 (inl a)))
        | inl (inr b) ↦ inl (inr b)
        | inr done ↦ inr (Memᴰ.tail done)
      ]
    ];
  }

  visit-Inv :
      (todo : List Str) (s : Sweep) (u : Str) (e : Edge)
      → Inv todo s
      → Live g u
      → Memᴰ e (get_list u g.out)
      → Inv todo (visit s e)
        × Grows s (visit s e)
        × (e.kind ≡ edge_calls → Memᴰ e.target_id (visit s e).visited)
  unfolding visit
  visit-Inv todo s u e i live at = elim (Bool-cases (e.kind == edge_calls)) [
    | inr other ↦ rw other (i, λ v m. m, λ k. ground (arith, eq_iff e.kind edge_calls))
    | inl kind ↦ elim (Bool-cases (contains s.visited e.target_id)) [
      | inl old ↦ rw (kind, old) (i, λ v m. m, λ _. (contains_iff s.visited e.target_id).0 old)
      | inr new ↦
          rw (kind, new)
            (
              enter todo s e.target_id i
                  (call live (e, at, (eq_iff e.kind edge_calls).0 kind, refl)),
              λ v m. Memᴰ.tail m,
              λ _. Memᴰ.head refl,
            )
    ]
  ]

  sweep_edges-Inv :
      (todo : List Str) (s : Sweep) (u : Str) (es : List Edge)
      → Inv todo s
      → Live g u
      → ((e : Edge) → Memᴰ e es → Memᴰ e (get_list u g.out))
      → Inv todo (sweep_edges s es)
        × Grows s (sweep_edges s es)
        × ((e : Edge)
            → Memᴰ e es
            → e.kind ≡ edge_calls
            → Memᴰ e.target_id (sweep_edges s es).visited)
  unfolding sweep_edges
  sweep_edges-Inv todo s u [] i live at = (i, λ v m. m, λ e m. absurd (not-Memᴰ-nil m))
  sweep_edges-Inv todo s u (e ∷ es) i live at =
      let (i1, g1, seen1) = visit-Inv todo s u e i live (at e (Memᴰ.head refl)) in
      let (i2, g2, seen2) =
        sweep_edges-Inv todo (visit s e) u es i1 live (λ d m. at d (Memᴰ.tail m)) in
      (
        i2,
        λ v m. g2 v (g1 v m),
        λ d m k. elim (Memᴰ.cases_cons m) [
          | inl q ↦ rw q (g2 e.target_id (seen1 (subst (λ (d : Edge). d.kind ≡ edge_calls) q k)))
          | inr m' ↦ seen2 d m' k
        ],
      )

  -- After its edges are scanned a vertex of the frontier is closed.
  sweep-Inv :
      (s : Sweep) (ids : List Str)
      → Inv ids s
      → ((u : Str) → Memᴰ u ids → Live g u)
      → Inv [] (sweep g s ids) × Grows s (sweep g s ids)
  unfolding sweep
  sweep-Inv s [] i live = (i, λ v m. m)
  sweep-Inv s (u ∷ ids) i live =
      let (i1, g1, seen) =
        sweep_edges-Inv (u ∷ ids) s u (get_list u g.out) i (live u (Memᴰ.head refl)) (λ e m. m) in
      let (i2, g2) =
        sweep-Inv (sweep_edges s (get_list u g.out)) ids
          (record {
            sound = i1.sound;
            listed = i1.listed;
            closed = λ x y m c. elim (i1.closed x y m c) [
              | inl (inl a) ↦ inl (inl a)
              | inl (inr b) ↦ elim (Memᴰ.cases_cons b) [
                | inl q ↦
                    let (e, at, kind, end) = subst (λ z. Calls g z y) q c in
                    inr (rw end (seen e at kind))
                | inr b' ↦ inl (inr b')
              ]
              | inr done ↦ inr done
            ];
          })
          (λ x m. live x (Memᴰ.tail m)) in
      (i2, λ v m. g2 v (g1 v m))

  -- The visited set that the loop ends with is closed under calls and holds the start.
  pub close-Live :
      (fuel : ℕ) (visited frontier seen : List Str)
      → Inv frontier (record { visited = visited; next = [] })
      → ((u : Str) → Memᴰ u frontier → Memᴰ u visited)
      → close g fuel visited frontier ≡ some seen
      → ((v : Str) → Memᴰ v seen → Live g v)
        × ((v : Str) → Memᴰ v visited → Memᴰ v seen)
        × ((u v : Str) → Memᴰ u seen → Calls g u v → Memᴰ v seen)
  unfolding close
  close-Live fuel visited [] seen i sub h =
      let q : visited ≡ seen = some-injective visited seen h in
      (
        λ v m. i.sound v (rw (← q) at m),
        λ v m. rw (← q) m,
        λ u v m c. elim (i.closed u v (rw (← q) at m) c) [
          | inl (inl a) ↦ absurd (not-Memᴰ-nil a)
          | inl (inr b) ↦ absurd (not-Memᴰ-nil b)
          | inr done ↦ rw (← q) done
        ],
      )
  close-Live zero visited (id ∷ ids) seen i sub h = cc
  close-Live (suc fuel) visited (id ∷ ids) seen i sub h =
      let before : Sweep = record { visited = visited; next = [] } in
      let s : Sweep = sweep g before (id ∷ ids) in
      let (j, grows) = sweep-Inv before (id ∷ ids) i (λ u m. i.sound u (sub u m)) in
      let (sound, holds, closed) =
        close-Live fuel s.visited s.next seen
          (record {
            sound = j.sound;
            listed = λ v m. absurd (not-Memᴰ-nil m);
            closed = λ x y m c. elim (j.closed x y m c) [
              | inl (inl a) ↦ inl (inr a)
              | inl (inr b) ↦ absurd (not-Memᴰ-nil b)
              | inr done ↦ inr done
            ];
          })
          j.listed h in
      (sound, λ v m. holds v (grows v m), closed)
