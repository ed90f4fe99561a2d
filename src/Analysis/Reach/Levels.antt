-- ===== src/Analysis/Reach/Levels.antt =====
-- The loops over edges, frontier and depth keep the invariant of a round.
use graph_context.Base.{
  ℕ, suc, ◌≤◌, ◌<◌, ◌≡◌, refl, ◌≢◌, inl, inr, Bool, true, false, some, List, [], ◌∷◌, Str, str_eq,
  contains, contains_iff, contains-no, lookup, get_list, length, leb, leb→le, leb→lt, Memᴰ,
  not-Memᴰ-nil, Bool-cases, arith, subst, IsSortedBy,
}
use mathlib.Core.List.Memᴰ
use graph_context.Store.Types.{Edge, Node}
use graph_context.Analysis.Reach.{
  View, Reached, Search, Scan, running, cut, offer, scan_edges, scan_frontier, ◌>>=◌, reached_less,
}
use graph_context.Analysis.Reach.Walk.{Link, link, Walk, here, step, IsLeast, IsNearest}
use graph_context.Analysis.Reach.Round.{Inv, Ensures, enter-Inv}

module _ (w : View) (seed : Str) where
  Ensures-bind :
      (d : ℕ) (P Q : Search → Type 0) (r : Scan) (f : Search → Scan)
      → Ensures w seed d P r
      → ((t : Search) → P t → Ensures w seed d Q (f t))
      → Ensures w seed d Q (r >>= f)
  Ensures-bind d P Q (running t) f h k = k t h
  Ensures-bind d P Q (cut rs) f h k = h

  Ensures-weaken :
      (d : ℕ) (P Q : Search → Type 0) (r : Scan)
      → ((t : Search) → P t → Q t)
      → Ensures w seed d P r
      → Ensures w seed d Q r
  Ensures-weaken d P Q (running t) k h = k t h
  Ensures-weaken d P Q (cut rs) k h = h

  abbrev Grows : Search → Search → Type 0
  Grows s t = (v : Str) → Memᴰ v s.visited → Memᴰ v t.visited

  module _ (c : ℕ) (todo : List Str) (u : Str) (walk_u : Walk w seed c u) where
    -- After an edge is offered, its far end is visited if its kind is one of those followed.
    record Offered (s : Search) (e : Edge) (t : Search) : Type 0 where
      inv : Inv w seed (suc c) todo t
      grows : Grows s t
      seen : w.kinds e.kind ≡ true → Memᴰ (w.far e) t.visited

    offer-Ensures :
        (s : Search) (e : Edge)
        → Memᴰ e (get_list u w.adj)
        → Inv w seed (suc c) todo s
        → Ensures w seed (suc c) (Offered s e) (offer w (suc c) s e)
    unfolding offer
    offer-Ensures s e at i = elim (Bool-cases (w.kinds e.kind)) [
      | inr other ↦ rw other (record { inv = i; grows = λ v m. m; seen = λ k. cc })
      | inl kind ↦ elim (Bool-cases (contains s.visited (w.far e))) [
        | inl old ↦
            rw (kind, old)
              (record { inv = i; grows = λ v m. m; seen = λ _. (contains_iff s.visited _).0 old })
        | inr new ↦ elim (Bool-cases (leb w.limit (length s.results))) [
          | inl at_limit ↦
              rw (kind, new, at_limit)
                (record {
                  sound = i.sound;
                  bounded = i.bounded;
                  at_limit = omega (arith, i.short, leb→le w.limit (length s.results) at_limit);
                })
          | inr room ↦
              rw (kind, new, room)
                (record {
                  inv =
                      enter-Inv w seed c todo s i u e walk_u (link e at kind refl)
                        (contains-no s.visited (w.far e) new)
                        (leb→lt w.limit (length s.results) room);
                  grows = λ v m. Memᴰ.tail m;
                  seen = λ _. Memᴰ.head refl;
                })
        ]
      ]
    ]

    -- After a scan of some edges the far end of each of them is visited.
    record Scanned (s : Search) (es : List Edge) (t : Search) : Type 0 where
      inv : Inv w seed (suc c) todo t
      grows : Grows s t
      seen : (e : Edge) → Memᴰ e es → w.kinds e.kind ≡ true → Memᴰ (w.far e) t.visited

    scan_edges-Ensures :
        (s : Search) (es : List Edge)
        → ((e : Edge) → Memᴰ e es → Memᴰ e (get_list u w.adj))
        → Inv w seed (suc c) todo s
        → Ensures w seed (suc c) (Scanned s es) (scan_edges w (suc c) s es)
    unfolding scan_edges
    scan_edges-Ensures s [] at i = record {
      inv = i;
      grows = λ v m. m;
      seen = λ e m. absurd (not-Memᴰ-nil m);
    }
    scan_edges-Ensures s (e ∷ es) at i =
        Ensures-bind (suc c) (Offered s e) (Scanned s (e ∷ es)) (offer w (suc c) s e)
          (λ t. scan_edges w (suc c) t es) (offer-Ensures s e (at e (Memᴰ.head refl)) i)
          (λ t o.
            Ensures-weaken (suc c) (Scanned t es) (Scanned s (e ∷ es)) (scan_edges w (suc c) t es)
              (widen t o) (scan_edges-Ensures t es (λ d m. at d (Memᴰ.tail m)) o.inv))
      where
        widen : (t : Search) → Offered s e t → (x : Search) → Scanned t es x → Scanned s (e ∷ es) x
        widen t o x r = record {
          inv = r.inv;
          grows = λ v m. r.grows v (o.grows v m);
          seen = λ d m k. elim (Memᴰ.cases_cons m) [
            | inl q ↦ rw q (r.grows (w.far e) (o.seen (subst (λ d. w.kinds d.kind ≡ true) q k)))
            | inr m' ↦ r.seen d m' k
          ];
        }

  -- With all the edges of a vertex scanned, it is no longer to do.
  Scanned-done :
      (c : ℕ) (todo : List Str) (u : Str) (walk_u : Walk w seed c u) (s t : Search)
      → Scanned c (u ∷ todo) u walk_u s (get_list u w.adj) t
      → Inv w seed (suc c) todo t
  Scanned-done c todo u walk_u s t r = record {
    start = i.start;
    full = i.full;
    ahead = i.ahead;
    closed = λ x m. elim (i.closed x m) [
      | inl (inl a) ↦ inl (inl a)
      | inl (inr b) ↦ elim (Memᴰ.cases_cons b) [
        | inl q ↦ inr (λ v l. targets v (subst (λ y. Link w y v) q l))
        | inr b' ↦ inl (inr b')
      ]
      | inr done ↦ inr done
    ];
    sound = i.sound;
    bounded = i.bounded;
    complete = i.complete;
    short = i.short;
  }
    where
      i : Inv w seed (suc c) (u ∷ todo) t
      i = r.inv

      targets : (v : Str) → Link w u v → Memᴰ v t.visited
      targets v (link e at kind q) = rw q (r.seen e at kind)

  pub scan_frontier-Ensures :
      (c : ℕ) (s : Search) (todo : List Str)
      → ((u : Str) → Memᴰ u todo → Walk w seed c u)
      → Inv w seed (suc c) todo s
      → Ensures w seed (suc c) (Inv w seed (suc c) []) (scan_frontier w (suc c) s todo)
  unfolding scan_frontier
  scan_frontier-Ensures c s [] walks i = i
  scan_frontier-Ensures c s (u ∷ todo) walks i =
      let walk_u = walks u (Memᴰ.head refl) in
      Ensures-bind (suc c) (Scanned c (u ∷ todo) u walk_u s (get_list u w.adj))
        (Inv w seed (suc c) []) (scan_edges w (suc c) s (get_list u w.adj))
        (λ t. scan_frontier w (suc c) t todo)
        (scan_edges-Ensures c (u ∷ todo) u walk_u s (get_list u w.adj) (λ e m. m) i)
        (λ t r.
          scan_frontier-Ensures c t todo (λ x m. walks x (Memᴰ.tail m))
            (Scanned-done c todo u walk_u s t r))

  -- Between two rounds: `c` rounds are done, and the frontier is what the last of them found.
  pub record Between (c : ℕ) (visited : List Str) (results : List Reached) (frontier : List Str)
      : Type 0 where
    pub inv :
        Inv w seed (suc c) frontier (record { visited = visited; results = results; next = [] })
    pub walks : (u : Str) → Memᴰ u frontier → Walk w seed c u
    pub within : (r : Reached) → Memᴰ r results → r.depth ≤ c

  pub Between-start : Between 0 (seed ∷ []) [] (seed ∷ [])
  Between-start = record {
    inv = record {
      start = Memᴰ.head refl;
      full = λ k v h p. first k v h p;
      ahead = λ v m. absurd (not-Memᴰ-nil m);
      closed = λ u m. inl (inr m);
      sound = λ r m. absurd (not-Memᴰ-nil m);
      bounded = λ r m. absurd (not-Memᴰ-nil m);
      complete = λ v n m ne _. absurd (ne (Memᴰ.eq_of_singleton m));
      short = omega arith;
    };
    walks = λ u m. rw (Memᴰ.eq_of_singleton m) here;
    within = λ r m. absurd (not-Memᴰ-nil m);
  }
    where
      first : (k : ℕ) (v : Str) → k < 1 → Walk w seed k v → Memᴰ v (seed ∷ [])
      first k v h here = Memᴰ.head refl
      first k v h (step p l) = absurd (omega arith)

  -- What the last round found is the frontier of the next.
  pub Between-next :
      (c : ℕ) (t : Search) → Inv w seed (suc c) [] t → Between (suc c) t.visited t.results t.next
  Between-next c t i = record {
    inv = record {
      start = i.start;
      full = further;
      ahead = λ v m. absurd (not-Memᴰ-nil m);
      closed = λ u m. elim (i.closed u m) [
        | inl (inl a) ↦ inl (inr a)
        | inl (inr b) ↦ absurd (not-Memᴰ-nil b)
        | inr done ↦ inr done
      ];
      sound = i.sound;
      bounded = λ r m. omega (arith, i.bounded r m);
      complete = i.complete;
      short = i.short;
    };
    walks = λ u m. (i.ahead u m).0;
    within = i.bounded;
  }
    where
      -- A vertex that the round found is too far away to have a walk of `k` edges.
      targets : (k : ℕ) (u v : Str) → k < suc c → Walk w seed k u → Link w u v → Memᴰ v t.visited
      targets k u v h p l = elim (i.closed u (i.full k u h p)) [
        | inl (inl a) ↦ absurd (let far = (i.ahead u a).1 k p in omega arith)
        | inl (inr b) ↦ absurd (not-Memᴰ-nil b)
        | inr done ↦ done v l
      ]

      further : (k : ℕ) (v : Str) → k < suc (suc c) → Walk w seed k v → Memᴰ v t.visited
      further k v h here = i.start
      further k v h (step {k = j} {u = u} p l) = targets j u v (omega arith) p l

  -- What the search returns: its results, each at its distance, and no more than the limit.
  pub record Answer (max_depth : ℕ) (rs : List Reached) : Type 0 where
    pub sound : (r : Reached) → Memᴰ r rs → IsNearest w seed r
    pub bounded : (r : Reached) → Memᴰ r rs → r.depth ≤ max_depth
    pub short : length rs ≤ w.limit

  -- With no cut, every vertex within the depth is among the results.
  abbrev pub Covers : ℕ → List Reached → Type 0
  Covers max_depth rs =
      (k : ℕ) (v : Str) (n : Node)
      → k ≤ max_depth
      → Walk w seed k v
      → v ≢ seed
      → lookup v w.nodes ≡ some n
      → (r : Reached) × Memᴰ r rs × (r.node ≡ n) × IsLeast w seed v r.depth

  abbrev pub Outcome : ℕ → List Reached × Bool → Type 0
  Outcome max_depth (rs, true) = Answer max_depth rs × (length rs ≡ w.limit)
  Outcome max_depth (rs, false) =
      Answer max_depth rs × Covers max_depth rs × IsSortedBy reached_less rs
