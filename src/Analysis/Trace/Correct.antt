-- ===== src/Analysis/Trace/Correct.antt =====
-- pkg/analysis/algorithms.go: the tree that Trace gives.
use graph_context.Base.{
  ℕ, zero, suc, ◌≤◌, ◌<◌, ◌≡◌, refl, ap, subst, List, [], ◌∷◌, Str, str_eq, true, false, Bool-cases,
  inl, inr, ◌⊎◌, contains, lookup, get_list, keep, map, arith, sort_by, leb, leb→le, leb→lt,
}
use graph_context.Store.Types.{Edge, edge_kind_eq}
use graph_context.Analysis.Graph.{Graph}
use graph_context.Analysis.Trace.{
  TraceNode, trace_node, no_calls, call_then, Purse, label_of, call_less, visit_calls, walk, trace,
}
use graph_context.Analysis.Trace.Reference.{
  of_list, is_call, whole_trace, call_count, call_count_all,
}
use graph_context.Analysis.Trace.Budget.{
  Spends, Walks, Visits, one_more, one_more-Visits, none-Visits,
}

visit_calls-Visits :
    (w : Edge → Purse → TraceNode × Purse) (t : Edge → TraceNode) (es : List Edge)
    → ((e : Edge) → Walks (w e) (t e))
    → Visits (visit_calls w es) (of_list (map t (keep is_call es)))
unfolding visit_calls
visit_calls-Visits w t [] h = none-Visits
visit_calls-Visits w t (e ∷ es) h =
    let ts = of_list (map t (keep is_call es)) in
    let rest = visit_calls-Visits w t es h in
    elim (Bool-cases (is_call e)) [
      | inl y ↦ rw y (
          subst (λ v. Visits v (call_then (t e) ts)) (λ i s. listed y rest s i)
            (one_more-Visits (w e) (t e) (h e) (visit_calls w es) ts rest))
      | inr f ↦ rw f (subst (λ v. Visits v ts) (λ i s. skipped f s i) rest)
    ]
  where
    listed :
        is_call e ≡ true
        → (rest : Visits (visit_calls w es) (of_list (map t (keep is_call es)))) → (s : Purse)
        → one_more (w e) (t e) (h e) (visit_calls w es) (of_list (map t (keep is_call es))) rest s
          ≡ visit_calls w (e ∷ es) s
    listed y rest s = rw y refl

    skipped : is_call e ≡ false → (s : Purse) → visit_calls w es s ≡ visit_calls w (e ∷ es) s
    skipped f s = rw f refl

leaf-Walks : (t : TraceNode) → call_count t ≡ 0 → Walks (λ s. (t, s)) t
leaf-Walks t z = record {
  spends = λ s. record { paid = omega arith; stays = λ f. f; cut = λ c. c };
  whole = λ s f. refl;
  enough = λ s le u. u;
}

walk-Walks :
    (g : Graph) (left : ℕ) (path : List Str) (id : Str) (line : ℕ)
    → Walks (walk g left path id line) (whole_trace g left path id line)
unfolding walk call_count call_count_all
walk-Walks g zero path id line =
    leaf-Walks (trace_node (label_of (lookup id g.nodes) id line (contains path id)) no_calls) refl
walk-Walks g (suc left) path id line =
    let w = λ (e : Edge). walk g left (id ∷ path) e.target_id e.line in
    let t = λ (e : Edge). whole_trace g left (id ∷ path) e.target_id e.line in
    let es = sort_by call_less (get_list id g.out) in
    let calls = visit_calls-Visits w t es (λ e. walk-Walks g left (id ∷ path) e.target_id e.line) in
    elim (Bool-cases (contains path id)) [
      | inl y ↦
          let leaf = trace_node (label_of (lookup id g.nodes) id line true) no_calls in
          rw y (subst (λ v. Walks v leaf) (λ i s. on_path y s i) (leaf-Walks leaf refl))
      | inr f ↦
          let label = label_of (lookup id g.nodes) id line false in
          rw f (
            subst (λ v. Walks v (trace_node label (of_list (map t (keep is_call es)))))
              (λ i s. off_path f s i)
              (record {
                spends = calls.spends;
                whole = λ s u. ap (trace_node label) (calls.whole s u);
                enough = calls.enough;
              }))
    ]
  where
    on_path :
        contains path id ≡ true
        → (s : Purse)
        → (trace_node (label_of (lookup id g.nodes) id line true) no_calls, s)
          ≡ walk g (suc left) path id line s
    on_path y s = rw y refl

    off_path :
        contains path id ≡ false
        → (s : Purse)
        → (let calls =
              visit_calls
                (λ e. walk g left (id ∷ path) e.target_id e.line)
                (sort_by call_less (get_list id g.out))
                s in
            (trace_node (label_of (lookup id g.nodes) id line false) calls.0, calls.1))
          ≡ walk g (suc left) path id line s
    off_path f s = rw f refl

-- A trace has at most `limit` calls. Either it is the whole tree of the calls to the depth, which
-- has no more than that, and is not marked truncated; or the whole tree has more, and the trace is
-- marked truncated and has just as many as the limit.
pub trace-whole_trace :
    (g : Graph) (entry : Str) (max_depth limit : ℕ)
    → let whole = whole_trace g max_depth [] entry 0 in
      (((trace g entry max_depth limit ≡ (whole, false)) × (call_count whole ≤ limit))
        ⊎ (((trace g entry max_depth limit).1 ≡ true)
            × (limit < call_count whole)
            × (call_count (trace g entry max_depth limit).0 ≡ limit)))
unfolding trace
trace-whole_trace g entry max_depth limit =
    elim (Bool-cases (walk g max_depth [] entry 0 first).1.truncated) [
      | inr f ↦
          let same = h.whole first f in
          inl (λ i. (same i, f i), omega (arith, spent.paid, ap call_count same))
      | inl t ↦ inr (t, more t, omega (arith, spent.paid, spent.cut (λ q. absurd (ground arith)) t))
    ]
  where
    first : Purse
    first = record { budget = limit; truncated = false }

    h : Walks (walk g max_depth [] entry 0) (whole_trace g max_depth [] entry 0)
    h = walk-Walks g max_depth [] entry 0

    spent :
        Spends
          (call_count (walk g max_depth [] entry 0 first).0)
          first
          (walk g max_depth [] entry 0 first).1
    spent = h.spends first

    more :
        (walk g max_depth [] entry 0 first).1.truncated ≡ true
        → limit < call_count (whole_trace g max_depth [] entry 0)
    more t = elim (Bool-cases (leb (call_count (whole_trace g max_depth [] entry 0)) limit)) [
      | inr f ↦ leb→lt (call_count (whole_trace g max_depth [] entry 0)) limit f
      | inl y ↦
          let small = leb→le (call_count (whole_trace g max_depth [] entry 0)) limit y in
          let open_still = h.enough first small refl in absurd (ground arith)
    ]
