-- ===== src/Indexer/Diff/Queue.antt =====
-- pkg/indexer/diff.go: what is queued, and the table that results, for nodes and edges alike.
use graph_context.Base.{
  ◌≡◌, refl, sym, ap, ◌∙◌, subst, ◌⊎◌, inl, inr, ⊎_elim, List, [], ◌∷◌, ◌++◌, Option, none, some,
  Comparable, map, lookup, last_by, last_by-cases, last_by-mem, Memᴰ, not-Memᴰ-nil,
}
use mathlib.Core.List.Memᴰ
use mathlib.Core.Option.{some-injective}
use graph_context.Indexer.Diff.Entries.{last_by-default, index_by-mem}
use graph_context.Indexer.Diff.{index_by, queue_unless, changed_one, changed}

module _ {K V : Type 0} ⦃e : Comparable K⦄ (key : V → K) where
  module _ (dec : Discrete V) where
    -- What is queued is what the new map holds under its key.
    pub mem-changed :
        (stored new : List (K × V)) (w : V) (vs : List V)
        → Memᴰ w (changed key dec stored new vs)
        → (v : V) × Memᴰ v vs × (lookup (key v) new ≡ some w)
    unfolding changed
    mem-changed stored new w [] m = absurd (not-Memᴰ-nil m)
    mem-changed stored new w (v ∷ vs) m =
        elim (Memᴰ.append_cases (changed_one key dec (lookup (key v) stored) (lookup (key v) new))
          m) [
            | inl at ↦ (v, Memᴰ.head refl, one (lookup (key v) stored) (lookup (key v) new) at)
            | inr at ↦ let (x, there, q) = mem-changed stored new w vs at in (x, Memᴰ.tail there, q)
          ]
      where
        one : (o n : Option V) → Memᴰ w (changed_one key dec o n) → n ≡ some w
        one o none m = absurd (not-Memᴰ-nil m)
        one none (some x) m = ap some (sym (Memᴰ.eq_of_singleton m))
        one (some y) (some x) m = pick (dec y x) m
          where
            pick :
                (d : Dec (y ≡ x)) → Memᴰ w (queue_unless d) → ◌≡◌ {A = Option V} (some x) (some w)
            pick (yes _) m = absurd (not-Memᴰ-nil m)
            pick (no _) m = ap some (sym (Memᴰ.eq_of_singleton m))

    -- An entry of the new map that the stored map does not hold so is queued.
    pub changed-mem :
        (stored new : List (K × V)) (w : V) (vs : List V) {v : V}
        → Memᴰ v vs
        → lookup (key v) new ≡ some w
        → (lookup (key v) stored ≡ some w) ⊎ Memᴰ w (changed key dec stored new vs)
    unfolding changed
    changed-mem stored new w [] m q = absurd (not-Memᴰ-nil m)
    changed-mem stored new w (x ∷ vs) {v} m q = elim (Memᴰ.cases_cons m) [
      | inl vx ↦
          ⊎_elim (λ s. inl (subst (λ z. lookup (key z) stored ≡ some w) (sym vx) s))
            (λ at. inr (Memᴰ.append_left _ at))
            (one (lookup (key x) stored) (lookup (key x) new)
              (subst (λ z. lookup (key z) new ≡ some w) vx q))
      | inr m' ↦ ⊎_elim inl (λ at. inr (Memᴰ.append_right _ at)) (changed-mem stored new w vs m' q)
    ]
      where
        one : (o n : Option V) → n ≡ some w → (o ≡ some w) ⊎ Memᴰ w (changed_one key dec o n)
        one o none q = absurd (cc)
        one none (some x) q = inr (Memᴰ.head (some-injective w x (sym q)))
        one (some y) (some x) q = pick (dec y x)
          where
            xw : x ≡ w
            xw = some-injective x w q

            pick :
                (d : Dec (y ≡ x)) → ◌≡◌ {A = Option V} (some y) (some w) ⊎ Memᴰ w (queue_unless d)
            pick (yes yx) = inl (ap some (yx ∙ xw))
            pick (no _) = inr (Memᴰ.head (sym xw))

    -- The queue looks at the keys of the slice alone.
    pub changed-map :
        (f : V → V)
        → ((v : V) → key (f v) ≡ key v)
        → (stored new : List (K × V)) (vs : List V)
        → changed key dec stored new (map f vs) ≡ changed key dec stored new vs
    unfolding changed
    changed-map f same stored new [] = refl
    changed-map f same stored new (v ∷ vs) = λ i.
        changed_one key dec (lookup (same v i) stored) (lookup (same v i) new)
        ++ changed-map f same stored new vs i

    -- A table that agrees with the stored map on the keys of the new map and has no other key
    -- becomes the new map when what is queued is put into it.
    pub changed-final :
        (stored : List (K × V)) (vs : List V) (k : K) (d : Option V)
        → (lookup k (index_by key vs []) ≡ none → d ≡ none)
        → ((w : V) → lookup k (index_by key vs []) ≡ some w → d ≡ lookup k stored)
        → last_by key k (changed key dec stored (index_by key vs []) vs) d
          ≡ lookup k (index_by key vs [])
    changed-final stored vs k d lacks agrees =
        last_by-default key k queued d ∙ go (last_by key k queued none) refl (lookup k new) refl
      where
        new : List (K × V)
        new = index_by key vs []

        queued : List V
        queued = changed key dec stored new vs

        go :
            (a : Option V)
            → last_by key k queued none ≡ a
            → (b : Option V) → lookup k new ≡ b
            → (elim a [ none ↦ d | some w ↦ some w ]) ≡ lookup k new
        go (some x) p b q = elim (last_by-cases key k queued none x p) [
          | inr r ↦ absurd (cc)
          | inl (at, kx) ↦
              let (v, _, found) = mem-changed stored new x vs at in
              let kv = (index_by-mem key (key v) vs x found).1 in
              sym (subst (λ j. lookup j new ≡ some x) (sym kv ∙ kx) found)
        ]
        go none p none q = lacks q ∙ sym q
        go none p (some w) q =
            let (at, kw) = index_by-mem key k vs w q in
            let same = subst (λ j. lookup j new ≡ some w) (sym kw) q in
            elim (changed-mem stored new w vs at same) [
              | inl s ↦ agrees w q ∙ subst (λ j. lookup j stored ≡ some w) kw s ∙ sym q
              | inr queued_w ↦
                  let (x, r) = last_by-mem key queued none queued_w in
                  absurd (clash x p (subst (λ j. last_by key j queued none ≡ some x) kw r))
            ]
          where
            clash : (x : V) {o : Option V} → o ≡ none → o ≡ some x → ⊥
            clash x a b = cc
