-- ===== src/Analysis/DeadCode/Rounds.antt =====
-- pkg/analysis/deadcode.go: the loop over the frontiers ends within the rounds allowed.
use graph_context.Base.{
  fresh, fresh-lt, ℕ, zero, suc, ◌+◌, ◌≤◌, ◌<◌, ◌≡◌, refl, ◌⊎◌, inl, inr, List, [], ◌∷◌, ◌++◌, Str,
  not, some, str_eq, contains, get_list, length, length-append, if◌then◌else◌, ◌==◌, Memᴰ, subst,
  get_list-cons, length-keep, Bool-cases, not-Memᴰ-nil, map, length-map, arith,
}
use mathlib.Core.List.Memᴰ
use graph_context.Store.Types.{Edge, edge_kind_eq}
use graph_context.Analysis.Graph.{Graph, count_edges, edge_count}
use graph_context.Analysis.DeadCode.{Sweep, visit, sweep_edges, sweep, close, rounds}

-- The targets of all the edges of the adjacency map.
abbrev targets : List Edge → List Str
targets es = map (λ e. e.target_id) es

abbrev universe : List (Str × List Edge) → List Str
universe [] = []
universe ((_, es) ∷ m) = targets es ++ universe m

length-universe : (m : List (Str × List Edge)) → length (universe m) ≡ count_edges m
unfolding count_edges
length-universe [] = refl
length-universe ((k, es) ∷ m) = omega (
  arith,
  length-append (targets es) (universe m),
  length-map (λ (e : Edge). e.target_id) es,
  length-universe m,
)

mem-universe :
    (id : Str) (e : Edge) (m : List (Str × List Edge))
    → Memᴰ e (get_list id m)
    → Memᴰ e.target_id (universe m)
mem-universe id e [] h = absurd (not-Memᴰ-nil h)
mem-universe id e ((k, es) ∷ m) h =
    split (mem-universe id e m) (subst (Memᴰ e) (get_list-cons k id es m) h)
  where
    split :
        (Memᴰ e (get_list id m) → Memᴰ e.target_id (universe m))
        → Memᴰ e (if k == id then es else get_list id m)
        → Memᴰ e.target_id (targets es ++ universe m)
    split mem-rest h = elim (Bool-cases (k == id)) [
      | inl t ↦ Memᴰ.append_left _ (Memᴰ.map (λ d. d.target_id) (rw t at h))
      | inr f ↦ Memᴰ.append_right (targets es) (mem-rest (rw f at h))
    ]

module _ (g : Graph) where
  abbrev left : Sweep → ℕ
  left s = fresh s.visited (universe g.out) + length s.next

  visit-left :
      (s : Sweep) (e : Edge) → Memᴰ e.target_id (universe g.out) → left (visit s e) ≤ left s
  unfolding visit
  visit-left s e m = elim (Bool-cases (contains s.visited e.target_id)) [
    | inl old ↦ ground arith
    | inr new ↦ ground (
      arith,
      fresh-lt e.target_id s.visited (universe g.out) m new,
      length-append s.next (e.target_id ∷ []),
    )
  ]

  sweep_edges-left :
      (s : Sweep) (es : List Edge)
      → ((e : Edge) → Memᴰ e es → Memᴰ e.target_id (universe g.out))
      → left (sweep_edges s es) ≤ left s
  unfolding sweep_edges
  sweep_edges-left s [] h = omega arith
  sweep_edges-left s (e ∷ es) h = omega (
    arith,
    visit-left s e (h e (Memᴰ.head refl)),
    sweep_edges-left (visit s e) es (λ d m. h d (Memᴰ.tail m)),
  )

  sweep-left : (s : Sweep) (ids : List Str) → left (sweep g s ids) ≤ left s
  unfolding sweep
  sweep-left s [] = omega arith
  sweep-left s (id ∷ ids) = omega (
    arith,
    sweep_edges-left s (get_list id g.out) (λ e m. mem-universe id e g.out m),
    sweep-left (sweep_edges s (get_list id g.out)) ids,
  )

  close-returns :
      (fuel : ℕ) (visited frontier : List Str)
      → fresh visited (universe g.out) < fuel ⊎ (frontier ≡ [])
      → (seen : List Str) × (close g fuel visited frontier ≡ some seen)
  unfolding close
  close-returns fuel visited [] h = (visited, refl)
  close-returns zero visited (id ∷ ids) h = ground arith
  close-returns (suc fuel) visited (id ∷ ids) h =
      let s = sweep g (record { visited = visited; next = [] }) (id ∷ ids) in
      close-returns fuel s.visited s.next
        (again s.next (sweep-left (record { visited = visited; next = [] }) (id ∷ ids)))
    where
      again :
          (next : List Str)
          → fresh
                (sweep g (record { visited = visited; next = [] }) (id ∷ ids)).visited
                (universe g.out)
              + length next
            ≤ fresh visited (universe g.out) + 0
          → fresh
                (sweep g (record { visited = visited; next = [] }) (id ∷ ids)).visited
                (universe g.out)
              < fuel
            ⊎ (next ≡ [])
      again [] le = inr refl
      again (x ∷ xs) le = inl (ground arith)

  -- The fuel given to the loop is enough.
  pub close-rounds_returns :
      (start : List Str) → (seen : List Str) × (close g (rounds g) start start ≡ some seen)
  unfolding edge_count
  close-rounds_returns start = close-returns (rounds g) start start (
      inl (
        omega (
          arith,
          length-keep (λ t. not (contains start t)) (universe g.out),
          length-universe g.out,
        )))
