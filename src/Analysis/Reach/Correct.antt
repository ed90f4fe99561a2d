-- ===== src/Analysis/Reach/Correct.antt =====
-- What ReverseReach and ForwardReach answer.
use graph_context.Base.{
  ℕ, zero, suc, ◌+◌, ◌≤◌, ◌≡◌, ◌≢◌, inl, inr, Bool, true, some, List, [], ◌∷◌, Str, str_eq, lookup,
  Memᴰ, not-Memᴰ-nil, arith, sort_by, Memᴰ-sort_by, length-sort_by, sort_by-IsSortedBy,
}
use graph_context.Store.Types.{Node, EdgeKind}
use graph_context.Analysis.Graph.{Graph}
use graph_context.Analysis.Reach.{
  View, Reached, Search, Scan, running, cut, scan_frontier, levels, reach, reached_less,
  reverse_reach, forward_reach, callers_view, callees_view,
}
use graph_context.Analysis.Reach.Walk.{Walk, here, step, IsLeast}
use graph_context.Analysis.Reach.Round.{Inv, Ensures}
use graph_context.Analysis.Reach.Levels.{
  Between, Between-start, Between-next, scan_frontier-Ensures, Answer, Outcome,
}
use graph_context.Analysis.Reach.Order.{reached_less-IsOrder}

module _ (w : View) (seed : Str) where
  sort-Answer :
      (c : ℕ) (visited : List Str) (results : List Reached) (frontier : List Str) (max_depth : ℕ)
      → c ≤ max_depth
      → Between w seed c visited results frontier
      → Answer w seed max_depth (sort_by reached_less results)
  sort-Answer c visited results frontier max_depth h b = record {
    sound = λ r m. b.inv.sound r ((Memᴰ-sort_by reached_less r results).0 m);
    bounded =
        λ r m. let near = b.within r ((Memᴰ-sort_by reached_less r results).0 m) in omega arith;
    short = omega (arith, b.inv.short, length-sort_by reached_less results);
  }

  -- The results of the visited vertices are still there after the sort.
  sort-covers :
      (c : ℕ) (visited : List Str) (results : List Reached) (frontier : List Str)
      → Between w seed c visited results frontier
      → (v : Str) (n : Node) → Memᴰ v visited
      → v ≢ seed
      → lookup v w.nodes ≡ some n
      → (r : Reached) × Memᴰ r (sort_by reached_less results)
        × (r.node ≡ n)
        × IsLeast w seed v r.depth
  sort-covers c visited results frontier b v n m ne found =
      let (r, at, node, least) = b.inv.complete v n m ne found in
      (r, (Memᴰ-sort_by reached_less r results).1 at, node, least)

  -- With an empty frontier every walk stays among the visited vertices.
  visited-all :
      (c : ℕ) (visited : List Str) (results : List Reached)
      → Between w seed c visited results []
      → {k : ℕ} {v : Str} → Walk w seed k v
      → Memᴰ v visited
  visited-all c visited results b here = b.inv.start
  visited-all c visited results b (step {u = u} {v = v} p l) =
      elim (b.inv.closed u (visited-all c visited results b p)) [
        | inl (inl m) ↦ absurd (not-Memᴰ-nil m)
        | inl (inr m) ↦ absurd (not-Memᴰ-nil m)
        | inr done ↦ done v l
      ]

  levels-Outcome :
      (rounds c : ℕ) (visited : List Str) (results : List Reached) (frontier : List Str)
      (max_depth : ℕ)
      → c + rounds ≡ max_depth
      → Between w seed c visited results frontier
      → Outcome w seed max_depth (levels w rounds (suc c) visited results frontier)
  unfolding levels
  levels-Outcome zero c visited results frontier max_depth h b = (
    sort-Answer c visited results frontier max_depth (omega arith) b,
    λ k v n le p ne found.
        sort-covers c visited results frontier b v n (b.inv.full k v (omega arith) p) ne found,
    sort_by-IsSortedBy reached_less-IsOrder results,
  )
  levels-Outcome (suc rounds) c visited results [] max_depth h b = (
    sort-Answer c visited results [] max_depth (omega arith) b,
    λ k v n le p ne found.
        sort-covers c visited results [] b v n (visited-all c visited results b p) ne found,
    sort_by-IsSortedBy reached_less-IsOrder results,
  )
  levels-Outcome (suc rounds) c visited results (u ∷ us) max_depth h b =
      go
        (scan_frontier w (suc c) (record { visited = visited; results = results; next = [] })
          (u ∷ us))
        (scan_frontier-Ensures w seed c (record { visited = visited; results = results; next = [] })
          (u ∷ us) b.walks b.inv)
        (λ t i.
          levels-Outcome rounds (suc c) t.visited t.results t.next max_depth (omega arith)
            (Between-next w seed c t i))
    where
      go :
          (r : Scan)
          → Ensures w seed (suc c) (Inv w seed (suc c) []) r
          → ((t : Search)
              → Inv w seed (suc c) [] t
              → Outcome w seed max_depth (levels w rounds (suc (suc c)) t.visited t.results t.next))
          → Outcome w seed max_depth (elim r [
            | cut rs ↦ (rs, true)
            | running t ↦ levels w rounds (suc (suc c)) t.visited t.results t.next
          ])
      go (cut rs) i rec = (
        record {
          sound = i.sound;
          bounded = λ r m. let near = i.bounded r m in omega arith;
          short = omega (arith, i.at_limit);
        },
        i.at_limit,
      )
      go (running t) i rec = rec t i

  pub reach-Outcome : (max_depth : ℕ) → Outcome w seed max_depth (reach w seed max_depth)
  unfolding reach
  reach-Outcome max_depth =
      levels-Outcome max_depth 0 (seed ∷ []) [] (seed ∷ []) max_depth (omega arith)
        (Between-start w seed)

-- Whatever the depth and the limit, the answer of ReverseReach is right: each result is a node of
-- the graph from which a walk over edges of the chosen kinds leads to the seed, its depth is the
-- length of the shortest such walk, positive and at most the depth asked for, and there are no more
-- results than the limit. If the answer is marked truncated, there are as many as the limit; if
-- not, every node of the graph other than the seed with a walk within the depth is among them, and
-- they are sorted by depth and then by ID.
pub reverse_reach-Outcome :
    (g : Graph) (seed : Str) (kinds : EdgeKind → Bool) (max_depth limit : ℕ)
    → Outcome
        (callers_view g kinds limit)
        seed
        max_depth
        (reverse_reach g seed kinds max_depth limit)
unfolding reverse_reach
reverse_reach-Outcome g seed kinds max_depth limit =
    reach-Outcome (callers_view g kinds limit) seed max_depth

-- Whatever the depth and the limit, the answer of ForwardReach is right: each result is a node of
-- the graph to which a walk over edges of the chosen kinds leads from the seed, its depth is the
-- length of the shortest such walk, positive and at most the depth asked for, and there are no more
-- results than the limit. If the answer is marked truncated, there are as many as the limit; if not,
-- every node of the graph other than the seed with a walk within the depth is among them, and they
-- are sorted by depth and then by ID.
pub forward_reach-Outcome :
    (g : Graph) (seed : Str) (kinds : EdgeKind → Bool) (max_depth limit : ℕ)
    → Outcome
        (callees_view g kinds limit)
        seed
        max_depth
        (forward_reach g seed kinds max_depth limit)
unfolding forward_reach
forward_reach-Outcome g seed kinds max_depth limit =
    reach-Outcome (callees_view g kinds limit) seed max_depth
