-- ===== src/Analysis/Trace/Budget.antt =====
-- pkg/analysis/algorithms.go: what Trace spends of its budget, and when the budget is enough.
use graph_context.Base.{
  ℕ, ◌+◌, ◌-◌, ◌≤◌, ◌≡◌, refl, ap, str_eq, true, false, Bool-cases, inl, inr, nat_beq, nat_beq_iff,
  if◌then◌else◌, arith,
}
use graph_context.Store.Types.{edge_kind_eq}
use graph_context.Analysis.Trace.{TraceNode, TraceNodes, no_calls, call_then, Purse}
use graph_context.Analysis.Trace.Reference.{call_count, call_count_all}

-- So many calls are paid for; once a call was left out, nothing is left.
pub record Spends (n : ℕ) (a b : Purse) : Type 0 where
  pub paid : b.budget + n ≡ a.budget
  pub stays : b.truncated ≡ false → a.truncated ≡ false
  pub cut : (a.truncated ≡ true → a.budget ≡ 0) → b.truncated ≡ true → b.budget ≡ 0

-- A walk that pays for its calls, gives the tree it stands for unless it was cut, and is not cut
-- where the budget is enough.
pub record Walks (w : Purse → TraceNode × Purse) (t : TraceNode) : Type 0 where
  pub spends : (s : Purse) → Spends (call_count (w s).0) s (w s).1
  pub whole : (s : Purse) → (w s).1.truncated ≡ false → (w s).0 ≡ t
  pub enough :
      (s : Purse) → call_count t ≤ s.budget → s.truncated ≡ false → (w s).1.truncated ≡ false

-- The same of a loop over calls.
pub record Visits (w : Purse → TraceNodes × Purse) (ts : TraceNodes) : Type 0 where
  pub spends : (s : Purse) → Spends (call_count_all (w s).0) s (w s).1
  pub whole : (s : Purse) → (w s).1.truncated ≡ false → (w s).0 ≡ ts
  pub enough :
      (s : Purse) → call_count_all ts ≤ s.budget → s.truncated ≡ false → (w s).1.truncated ≡ false

abbrev pub paid_one : Purse → Purse
paid_one s = record s { budget = s.budget - 1 }

module _ (w : Purse → TraceNode × Purse) (t : TraceNode) (h : Walks w t)
    (v : Purse → TraceNodes × Purse) (ts : TraceNodes) (k : Visits v ts) where
  -- A call, and the loop over those that follow.
  abbrev pub one_more : Purse → TraceNodes × Purse
  one_more s =
      let child = w (paid_one s) in
      let rest = v child.1 in
      if nat_beq s.budget 0
      then (no_calls, record s { truncated = true })
      else (call_then child.0 rest.0, rest.1)

  one_more-Spends : (s : Purse) → Spends (call_count_all (one_more s).0) s (one_more s).1
  unfolding call_count_all call_count
  one_more-Spends s = elim (Bool-cases (nat_beq s.budget 0)) [
    | inl z ↦ rw z (record {
      paid = omega arith;
      stays = λ f. absurd (ground arith);
      cut = λ _ _. (nat_beq_iff s.budget 0).0 z;
    })
    | inr f ↦
        let a = h.spends (paid_one s) in
        let b = k.spends (w (paid_one s)).1 in
        rw f (record {
          paid = ground (arith, a.paid, b.paid);
          stays = λ q. a.stays (b.stays q);
          cut = λ c. b.cut (a.cut (λ q. omega (arith, c q)));
        })
  ]

  one_more_whole : (s : Purse) → (one_more s).1.truncated ≡ false → (one_more s).0 ≡ call_then t ts
  one_more_whole s q = elim (Bool-cases (nat_beq s.budget 0)) [
    | inl z ↦ absurd (ground arith)
    | inr f ↦
        let r = rw f at q in
        let child = w (paid_one s) in
        rw f (λ i.
          call_then (h.whole (paid_one s) ((k.spends child.1).stays r) i) (k.whole child.1 r i))
  ]

  one_more_enough :
      (s : Purse)
      → call_count_all (call_then t ts) ≤ s.budget
      → s.truncated ≡ false
      → (one_more s).1.truncated ≡ false
  unfolding call_count_all call_count
  one_more_enough s le u = elim (Bool-cases (nat_beq s.budget 0)) [
    | inl z ↦ absurd (omega (arith, (nat_beq_iff s.budget 0).0 z))
    | inr f ↦
        let child = w (paid_one s) in
        let open_still = h.enough (paid_one s) (omega arith) u in
        let same = ap call_count (h.whole (paid_one s) open_still) in
        let a = (h.spends (paid_one s)).paid in
        rw f (k.enough child.1 (omega (arith, a, same)) open_still)
  ]

  pub one_more-Visits : Visits one_more (call_then t ts)
  one_more-Visits = record {
    spends = one_more-Spends;
    whole = one_more_whole;
    enough = one_more_enough;
  }

pub none-Visits : Visits (λ s. (no_calls, s)) no_calls
unfolding call_count_all call_count
none-Visits = record {
  spends = λ s. record { paid = omega arith; stays = λ f. f; cut = λ c. c };
  whole = λ s f. refl;
  enough = λ s le u. u;
}
