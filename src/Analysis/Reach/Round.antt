-- ===== src/Analysis/Reach/Round.antt =====
-- One round of the search: what the variables mean while the edges of a frontier are scanned.
use graph_context.Base.{
  ℕ, suc, ◌+◌, ◌≤◌, ◌<◌, ◌≡◌, refl, sym, ap, ◌∙◌, ◌≢◌, ◌⊎◌, inl, inr, ⊎_elim, Option, none, some,
  List, [], ◌∷◌, ◌++◌, Str, str_eq, lookup, length, length-append, Memᴰ, Memᴰ-concat, arith,
}
use mathlib.Core.List.Memᴰ
use graph_context.Store.Types.{Edge, Node}
use graph_context.Analysis.Reach.{View, Reached, Search, Scan, running, cut, add_found}
use graph_context.Analysis.Reach.Walk.{Link, Walk, step, IsLeast, IsNearest}

module _ (w : View) (seed : Str) where
  -- The results that an early return gives.
  pub record IsCut (d : ℕ) (rs : List Reached) : Type 0 where
    pub sound : (r : Reached) → Memᴰ r rs → IsNearest w seed r
    pub bounded : (r : Reached) → Memᴰ r rs → r.depth ≤ d
    pub at_limit : length rs ≡ w.limit

  -- The state in the round of depth `d`, with the vertices `todo` of the frontier still to scan.
  pub record Inv (d : ℕ) (todo : List Str) (s : Search) : Type 0 where
    pub start : Memᴰ seed s.visited
    pub full : (k : ℕ) (v : Str) → k < d → Walk w seed k v → Memᴰ v s.visited
    pub ahead : (v : Str) → Memᴰ v s.next → Walk w seed d v × IsLeast w seed v d
    pub closed :
        (u : Str)
        → Memᴰ u s.visited
        → (Memᴰ u s.next ⊎ Memᴰ u todo) ⊎ ((v : Str) → Link w u v → Memᴰ v s.visited)
    pub sound : (r : Reached) → Memᴰ r s.results → IsNearest w seed r
    pub bounded : (r : Reached) → Memᴰ r s.results → r.depth ≤ d
    pub complete :
        (v : Str) (n : Node)
        → Memᴰ v s.visited
        → v ≢ seed
        → lookup v w.nodes ≡ some n
        → (r : Reached) × Memᴰ r s.results × (r.node ≡ n) × IsLeast w seed v r.depth
    pub short : length s.results ≤ w.limit

  -- What a scan returns satisfies `P` if it went through, and is a cut list otherwise.
  abbrev pub Ensures : ℕ → (Search → Type 0) → Scan → Type 0
  Ensures d P (running t) = P t
  Ensures d P (cut rs) = IsCut d rs

  abbrev pub result_at : ℕ → Edge → Node → Reached
  result_at d e n = record { node = n; depth = d; confidence = e.confidence }

  module _ (d : ℕ) (e : Edge) (rs : List Reached) where
    mem-add_found :
        (o : Option Node) (r : Reached)
        → Memᴰ r (add_found o d e rs)
        → Memᴰ r rs ⊎ ((n : Node) × (o ≡ some n) × (r ≡ result_at d e n))
    unfolding add_found
    mem-add_found none r m = inl m
    mem-add_found (some n) r m =
        ⊎_elim inl (λ q. inr (n, refl, q)) ((Memᴰ-concat r (result_at d e n) rs).0 m)

    add_found-keeps : (o : Option Node) (r : Reached) → Memᴰ r rs → Memᴰ r (add_found o d e rs)
    unfolding add_found
    add_found-keeps none r m = m
    add_found-keeps (some n) r m = (Memᴰ-concat r (result_at d e n) rs).1 (inl m)

    add_found-adds :
        (o : Option Node) (n : Node) → o ≡ some n → Memᴰ (result_at d e n) (add_found o d e rs)
    unfolding add_found
    add_found-adds none n q = cc
    add_found-adds (some m) n q = (Memᴰ-concat (result_at d e n) (result_at d e m) rs).1 (inr (cc))

    length-add_found : (o : Option Node) → length (add_found o d e rs) ≤ length rs + 1
    unfolding add_found
    length-add_found none = omega arith
    length-add_found (some n) = omega (arith, length-append rs (result_at d e n ∷ []))

  -- A link to a vertex that was not visited: the state after it is visited.
  module _ (c : ℕ) (todo : List Str) (s : Search) (inv : Inv (suc c) todo s) (u : Str) (e : Edge)
      (walk_u : Walk w seed c u) (lk : Link w u (w.far e)) (new : ¬ Memᴰ (w.far e) s.visited) where
    open inv use {start, full, ahead, closed, sound, bounded, complete, short}

    abbrev pub far : Str
    far = w.far e

    abbrev pub entered : Search
    entered = record {
      visited = far ∷ s.visited;
      results = add_found (lookup far w.nodes) (suc c) e s.results;
      next = s.next ++ far ∷ [];
    }

    walk_far : Walk w seed (suc c) far
    walk_far = step walk_u lk

    -- A shorter walk would have been found before.
    far-IsLeast : IsLeast w seed far (suc c)
    far-IsLeast k p = let f = λ (h : k < suc c). new (full k far h p) in omega arith

    enter_sound : (r : Reached) → Memᴰ r entered.results → IsNearest w seed r × (r.depth ≤ suc c)
    enter_sound r m = elim (mem-add_found (suc c) e s.results (lookup far w.nodes) r m) [
      | inl old ↦ (sound r old, bounded r old)
      | inr (n, found, q) ↦ rw q (
        record {
          key = far;
          found = found;
          walk = walk_far;
          least = far-IsLeast;
          positive = omega arith;
        },
        omega arith,
      )
    ]

    enter_complete :
        (v : Str) (n : Node)
        → Memᴰ v entered.visited
        → v ≢ seed
        → lookup v w.nodes ≡ some n
        → (r : Reached) × Memᴰ r entered.results × (r.node ≡ n) × IsLeast w seed v r.depth
    enter_complete v n m ne found = elim (Memᴰ.cases_cons m) [
      | inl q ↦ (
        result_at (suc c) e n,
        add_found-adds (suc c) e s.results (lookup far w.nodes) n
            (ap (λ k. lookup k w.nodes) (sym q) ∙ found),
        refl,
        rw q far-IsLeast,
      )
      | inr old ↦
          let (r, at, node, least) = complete v n old ne found in
          (r, add_found-keeps (suc c) e s.results (lookup far w.nodes) r at, node, least)
    ]

    pub enter-Inv : length s.results < w.limit → Inv (suc c) todo entered
    enter-Inv room = record {
      start = Memᴰ.tail start;
      full = λ k v h p. Memᴰ.tail (full k v h p);
      ahead = λ v m. elim ((Memᴰ-concat v far s.next).0 m) [
        | inl old ↦ ahead v old
        | inr q ↦ rw q (walk_far, far-IsLeast)
      ];
      closed = λ x m. elim (Memᴰ.cases_cons m) [
        | inl q ↦ inl (inl ((Memᴰ-concat x far s.next).1 (inr q)))
        | inr old ↦ elim (closed x old) [
          | inl (inl a) ↦ inl (inl ((Memᴰ-concat x far s.next).1 (inl a)))
          | inl (inr b) ↦ inl (inr b)
          | inr done ↦ inr (λ v l. Memᴰ.tail (done v l))
        ]
      ];
      sound = λ r m. (enter_sound r m).0;
      bounded = λ r m. (enter_sound r m).1;
      complete = enter_complete;
      short = omega (arith, length-add_found (suc c) e s.results (lookup far w.nodes));
    }
