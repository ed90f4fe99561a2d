-- ===== src/Indexer/Diff/Entries.antt =====
-- pkg/indexer/diff.go: the maps of the two graphs and the entries that differ, for nodes and edges
-- alike.
use graph_context.Base.{
  ◌≡◌, refl, sym, ap, ◌∙◌, subst, inl, inr, ◌↔◌, List, [], ◌∷◌, Bool, true, false, Option, none,
  some, Comparable, ◌==◌, lookup, insert, lookup-insert, IsMap, IsKeyed, last_by, last_by-cases,
  last_by-mem, last_by-some, lookup_of_mem, mem_of_lookup, key_of_lookup, Memᴰ, Memᴰ-cons,
  not-Memᴰ-nil, contains, contains_iff, map, Bool-cases, values, mem-values, values-mem, arith,
  sort_by, Memᴰ-sort_by,
}
use mathlib.Core.List.Memᴰ
use graph_context.Indexer.Diff.{index_by, gone}

module _ {K V : Type 0} ⦃e : Comparable K⦄ (key : V → K) where
  -- What the last entry with the key is, or else the default.
  pub last_by-default :
      (k : K) (vs : List V) (d : Option V)
      → last_by key k vs d ≡ (elim (last_by key k vs none) [ none ↦ d | some w ↦ some w ])
  last_by-default k [] d = refl
  last_by-default k (v ∷ vs) d = elim (Bool-cases (key v == k)) [
    | inl t ↦ let (w, q) = last_by-some key k vs v in rw (t, q)
    | inr f ↦ rw f (last_by-default k vs d)
  ]

  pub lookup-index_by :
      (k : K) (vs : List V) (m : List (K × V))
      → lookup k (index_by key vs m) ≡ last_by key k vs (lookup k m)
  unfolding index_by
  lookup-index_by k [] m = refl
  lookup-index_by k (v ∷ vs) m =
      lookup-index_by k vs (insert (key v) v m)
      ∙ ap (last_by key k vs) (lookup-insert (key v) k v m)

  -- An entry of the map of a slice is an entry of the slice, under its own key.
  pub index_by-mem :
      (k : K) (vs : List V) (v : V)
      → lookup k (index_by key vs []) ≡ some v
      → Memᴰ v vs × (key v ≡ k)
  index_by-mem k vs v h = elim (last_by-cases key k vs none v (sym (lookup-index_by k vs []) ∙ h)) [
    | inl m ↦ m
    | inr q ↦ absurd (cc)
  ]

  pub index_by-has :
      (vs : List V) {v : V} → Memᴰ v vs → (w : V) × (lookup (key v) (index_by key vs []) ≡ some w)
  index_by-has vs {v} m =
      let (w, q) = last_by-mem key vs none m in (w, lookup-index_by (key v) vs [] ∙ q)

  -- The map of all the rows of a table, in any order, is the table.
  pub lookup-rows :
      (less : V → V → Bool) (m : List (K × V)) (k : K)
      → IsMap m
      → IsKeyed key m
      → lookup k (index_by key (sort_by less (values m)) []) ≡ lookup k m
  lookup-rows less m k unique keyed = go (lookup k m) refl (lookup k (index_by key rows [])) refl
    where
      rows : List V
      rows = sort_by less (values m)

      in_rows : (v : V) → lookup k m ≡ some v → Memᴰ v rows
      in_rows v q = (Memᴰ-sort_by less v (values m)).1 (values-mem k v m (mem_of_lookup k v m q))

      in_table : (v : V) → lookup k (index_by key rows []) ≡ some v → lookup k m ≡ some v
      in_table v q =
          let (at, kv) = index_by-mem k rows v q in
          let here = mem-values key v m keyed ((Memᴰ-sort_by less v (values m)).0 at) in
          subst (λ j. lookup j m ≡ some v) kv (lookup_of_mem (key v) v m unique here)

      go :
          (a : Option V)
          → lookup k m ≡ a
          → (b : Option V) → lookup k (index_by key rows []) ≡ b
          → lookup k (index_by key rows []) ≡ lookup k m
      go none p none q = q ∙ sym p
      go none p (some w) q = absurd (clash p (in_table w q))
        where
          clash : {o : Option V} → o ≡ none → o ≡ some w → ⊥
          clash a b = cc
      go (some v) p b q =
          let (w, there) = index_by-has rows (in_rows v p) in
          let found =
            subst (λ j. lookup j (index_by key rows []) ≡ some w) (key_of_lookup key k v m keyed p)
              there in
          found ∙ sym (in_table w found)

  -- The stored entries that are gone are those whose key the new map lacks.
  pub mem-gone :
      (new : List (K × V)) (v : V) (vs : List V)
      → Memᴰ v (gone key new vs) ↔ (Memᴰ v vs × (lookup (key v) new ≡ none))
  unfolding gone
  mem-gone new v [] = (λ m. absurd (not-Memᴰ-nil m), λ (m, _). absurd (not-Memᴰ-nil m))
  mem-gone new v (x ∷ vs) = ground (
    arith,
    mem-gone new v vs,
    Memᴰ-cons v x vs,
    Memᴰ-cons v x (gone key new vs),
    λ (q : v ≡ x). ap (λ z. lookup (key z) new) q,
  )

  pub rows-mem :
      (less : V → V → Bool) (k : K) (v : V) (m : List (K × V))
      → lookup k m ≡ some v
      → Memᴰ v (sort_by less (values m))
  rows-mem less k v m q =
      (Memᴰ-sort_by less v (values m)).1 (values-mem k v m (mem_of_lookup k v m q))

  -- A key of the new map is not among those that are gone.
  pub gone-no :
      (new : List (K × V)) (vs : List V) (k : K) (w : V)
      → lookup k new ≡ some w
      → contains (map key (gone key new vs)) k ≡ false
  gone-no new vs k w q = elim (Bool-cases (contains (map key (gone key new vs)) k)) [
    | inr f ↦ f
    | inl t ↦
        let (v, at, kv) = Memᴰ.of_map key (gone key new vs) ((contains_iff _ k).0 t) in
        let lacks = ((mem-gone new v vs).0 at).1 in
        absurd (clash (subst (λ j. lookup j new ≡ none) kv lacks) q)
  ]
    where
      clash : {o : Option V} → o ≡ none → o ≡ some w → ⊥
      clash a b = cc

  pub gone-yes :
      (new : List (K × V)) (vs : List V) (v : V)
      → Memᴰ v vs
      → lookup (key v) new ≡ none
      → contains (map key (gone key new vs)) (key v) ≡ true
  gone-yes new vs v m q = (contains_iff _ (key v)).1 (Memᴰ.map key ((mem-gone new v vs).1 (m, q)))
