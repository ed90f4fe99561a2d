-- ===== src/Analysis/Neighborhood/Ball.antt =====
-- pkg/analysis/algorithms.go: the IDs that Neighborhood meets are those within the radius.
use graph_context.Base.{
  ℕ, suc, refl, sym, subst, List, [], ◌∷◌, Str, str_eq, Bool-cases, contains, contains_iff,
  get_list, map, Memᴰ, Memᴰ-concat, not-Memᴰ-nil, inl, inr, ◌⊎◌,
}
use mathlib.Core.List.Memᴰ
use graph_context.Analysis.Graph.{Graph}
use graph_context.Analysis.Neighborhood.{Ring, meet, meet_all, target_of, source_of, spread}

-- The neighbours of an ID, along its edges either way.
abbrev pub IsNextTo : Graph → Str → Str → Type 0
IsNextTo g u v =
    Memᴰ v (map target_of (get_list u g.out)) ⊎ Memᴰ v (map source_of (get_list u g.in_edges))

-- A walk of so many steps from the seed.
pub data Near (g : Graph) (seed : Str) : ℕ → Str → Type 0 where
  here : Near g seed 0 seed
  onward : {k : ℕ} {u v : Str} → Near g seed k u → IsNextTo g u v → Near g seed (suc k) v

-- What a round adds is within P, and nothing is lost.
pub record Grows (P : Str → Type 0) (a b : Ring) : Type 0 where
  pub keeps : (v : Str) → Memᴰ v a.visited → Memᴰ v b.visited
  pub sound : (v : Str) → Memᴰ v b.visited → Memᴰ v a.visited ⊎ (P v × Memᴰ v b.ids × Memᴰ v b.next)
  pub ids_keep : (v : Str) → Memᴰ v a.ids → Memᴰ v b.ids
  pub next_keep : (v : Str) → Memᴰ v a.next → Memᴰ v b.next
  pub ids_sound : (v : Str) → Memᴰ v b.ids → Memᴰ v a.ids ⊎ P v
  pub next_sound : (v : Str) → Memᴰ v b.next → Memᴰ v a.next ⊎ P v

module _ (P : Str → Type 0) where
  Grows-same : (a : Ring) → Grows P a a
  Grows-same a = record {
    keeps = λ v m. m;
    sound = λ v m. inl m;
    ids_keep = λ v m. m;
    next_keep = λ v m. m;
    ids_sound = λ v m. inl m;
    next_sound = λ v m. inl m;
  }

  Grows-then : (a b c : Ring) → Grows P a b → Grows P b c → Grows P a c
  Grows-then a b c h k = record {
    keeps = λ v m. k.keeps v (h.keeps v m);
    sound = λ v m. elim (k.sound v m) [
      | inr new ↦ inr new
      | inl old ↦ elim (h.sound v old) [
        | inl older ↦ inl older
        | inr (p, i, n) ↦ inr (p, k.ids_keep v i, k.next_keep v n)
      ]
    ];
    ids_keep = λ v m. k.ids_keep v (h.ids_keep v m);
    next_keep = λ v m. k.next_keep v (h.next_keep v m);
    ids_sound = λ v m. elim (k.ids_sound v m) [ inl old ↦ h.ids_sound v old | inr p ↦ inr p ];
    next_sound = λ v m. elim (k.next_sound v m) [ inl old ↦ h.next_sound v old | inr p ↦ inr p ];
  }

  meet-Grows : (s : Ring) (v : Str) → P v → Grows P s (meet s v)
  unfolding meet
  meet-Grows s v p = elim (Bool-cases (contains s.visited v)) [
    | inl t ↦ rw t (Grows-same s)
    | inr f ↦ rw f (record {
      keeps = λ u m. Memᴰ.tail m;
      sound = λ u m. elim (Memᴰ.cases_cons m) [
        | inr old ↦ inl old
        | inl q ↦ inr (
          subst P (sym q) p,
          (Memᴰ-concat u v s.ids).1 (inr q),
          (Memᴰ-concat u v s.next).1 (inr q),
        )
      ];
      ids_keep = λ u m. (Memᴰ-concat u v s.ids).1 (inl m);
      next_keep = λ u m. (Memᴰ-concat u v s.next).1 (inl m);
      ids_sound = λ u m. elim ((Memᴰ-concat u v s.ids).0 m) [
        | inl old ↦ inl old
        | inr q ↦ inr (subst P (sym q) p)
      ];
      next_sound = λ u m. elim ((Memᴰ-concat u v s.next).0 m) [
        | inl old ↦ inl old
        | inr q ↦ inr (subst P (sym q) p)
      ];
    })
  ]

  meet_all-Grows :
      (s : Ring) (vs : List Str) → ((v : Str) → Memᴰ v vs → P v) → Grows P s (meet_all s vs)
  unfolding meet_all
  meet_all-Grows s [] h = Grows-same s
  meet_all-Grows s (v ∷ vs) h =
      Grows-then s (meet s v) (meet_all (meet s v) vs) (meet-Grows s v (h v (Memᴰ.head refl)))
        (meet_all-Grows (meet s v) vs (λ u m. h u (Memᴰ.tail m)))

  -- What was offered is visited.
  meet_all_visits :
      (s : Ring) (vs : List Str)
      → ((v : Str) → Memᴰ v vs → P v)
      → (v : Str) → Memᴰ v vs
      → Memᴰ v (meet_all s vs).visited
  unfolding meet_all meet
  meet_all_visits s [] h v m = absurd (not-Memᴰ-nil m)
  meet_all_visits s (u ∷ vs) h v m = elim (Memᴰ.cases_cons m) [
    | inr later ↦ meet_all_visits (meet s u) vs (λ x at. h x (Memᴰ.tail at)) v later
    | inl q ↦
        (meet_all-Grows (meet s u) vs (λ x at. h x (Memᴰ.tail at))).keeps v
          (subst (λ x. Memᴰ x (meet s u).visited) (sym q) visited)
  ]
    where
      visited : Memᴰ u (meet s u).visited
      visited = elim (Bool-cases (contains s.visited u)) [
        | inl t ↦ rw t ((contains_iff s.visited u).0 t)
        | inr f ↦ rw f (Memᴰ.head refl)
      ]

module _ (g : Graph) (P : Str → Type 0) where
  turn : Ring → Str → Ring
  turn s id =
      meet_all (meet_all s (map target_of (get_list id g.out)))
        (map source_of (get_list id g.in_edges))

  turn-Grows : (s : Ring) (id : Str) → ((v : Str) → IsNextTo g id v → P v) → Grows P s (turn s id)
  unfolding turn
  turn-Grows s id h =
      let mid = meet_all s (map target_of (get_list id g.out)) in
      Grows-then P s mid (turn s id)
        (meet_all-Grows P s (map target_of (get_list id g.out)) (λ v m. h v (inl m)))
        (meet_all-Grows P mid (map source_of (get_list id g.in_edges)) (λ v m. h v (inr m)))

  turn_visits :
      (s : Ring) (id : Str)
      → ((v : Str) → IsNextTo g id v → P v)
      → (v : Str) → IsNextTo g id v
      → Memᴰ v (turn s id).visited
  unfolding turn
  turn_visits s id h v (inr m) =
      meet_all_visits P (meet_all s (map target_of (get_list id g.out)))
        (map source_of (get_list id g.in_edges)) (λ u at. h u (inr at)) v m
  turn_visits s id h v (inl m) =
      let mid = meet_all s (map target_of (get_list id g.out)) in
      (meet_all-Grows P mid (map source_of (get_list id g.in_edges)) (λ u at. h u (inr at))).keeps v
        (meet_all_visits P s (map target_of (get_list id g.out)) (λ u at. h u (inl at)) v m)

  pub spread-Grows :
      (s : Ring) (ids : List Str)
      → ((u v : Str) → Memᴰ u ids → IsNextTo g u v → P v)
      → Grows P s (spread g s ids)
  unfolding spread turn
  spread-Grows s [] h = Grows-same P s
  spread-Grows s (id ∷ ids) h =
      Grows-then P s (turn s id) (spread g (turn s id) ids)
        (turn-Grows s id (λ v n. h id v (Memᴰ.head refl) n))
        (spread-Grows (turn s id) ids (λ u v m n. h u v (Memᴰ.tail m) n))

  -- The neighbours of the frontier are visited.
  pub spread_visits :
      (s : Ring) (ids : List Str)
      → ((u v : Str) → Memᴰ u ids → IsNextTo g u v → P v)
      → (u v : Str) → Memᴰ u ids
      → IsNextTo g u v
      → Memᴰ v (spread g s ids).visited
  unfolding spread turn
  spread_visits s [] h u v m n = absurd (not-Memᴰ-nil m)
  spread_visits s (id ∷ ids) h u v m n = elim (Memᴰ.cases_cons m) [
    | inr later ↦ spread_visits (turn s id) ids (λ x y at nx. h x y (Memᴰ.tail at) nx) u v later n
    | inl q ↦
        (spread-Grows (turn s id) ids (λ x y at nx. h x y (Memᴰ.tail at) nx)).keeps v (
          turn_visits s id (λ y nx. h id y (Memᴰ.head refl) nx) v (subst (λ x. IsNextTo g x v) q n))
  ]
