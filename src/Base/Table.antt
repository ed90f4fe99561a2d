-- ===== src/Base/Table.antt =====
-- A map whose keys are told by its values, as a table with a primary key.
use mathlib.Core.Path.{◌≡◌, refl, sym, ap, ◌∙◌, subst}
use mathlib.Core.Logic.{◌⊎◌, inl, inr}
use mathlib.Core.Bool.{Bool, true}
use mathlib.Core.Option.{Option, none, some, some-injective}
use mathlib.Core.List.{List, [], ◌∷◌, Memᴰ}
use mathlib.Core.List.Memᴰ
use native.Mathlib.Omega.{arith}
use graph_context.Base.Tests.{if◌then◌else◌, Comparable, ◌==◌, eq_iff, Bool-cases}
use graph_context.Base.Lists.{keep, All, All-mem, Memᴰ-keep, not-Memᴰ-nil}
use graph_context.Base.Dict.{lookup, insert, delete, lookup-insert, lookup-delete}

module _ {ℓ κ} {K : Type ℓ} {V : Type κ} ⦃e : Comparable K⦄ where
  -- No key stands twice.
  abbrev pub IsMap : List (K × V) → Type κ
  IsMap [] = Unit
  IsMap ((k, v) ∷ m) = (lookup k m ≡ none) × IsMap m

  abbrev pub IsKeyed : (V → K) → List (K × V) → Type ℓ
  IsKeyed key m = All (λ (k, v). key v ≡ k) m

  -- m[k], and what a later entry of the list puts there.
  abbrev pub last_by : (V → K) → K → List V → Option V → Option V
  last_by key k [] d = d
  last_by key k (v ∷ vs) d = last_by key k vs (if key v == k then some v else d)

  pub lookup-keep_found :
      (p : K × V → Bool) (k : K) (v : V) (m : List (K × V))
      → lookup k m ≡ some v
      → p (k, v) ≡ true
      → lookup k (keep p m) ≡ some v
  lookup-keep_found p k v [] h t = cc
  lookup-keep_found p k v ((j, w) ∷ m) h t = elim (Bool-cases (j == k)) [
    | inl q ↦
        let jk : j ≡ k = (eq_iff j k).0 q in
        let wv : w ≡ v = some-injective w v (rw q at h) in
        let picked : p (j, w) ≡ true = (λ i. p (jk i, wv i)) ∙ t in rw (picked, q) (ap some wv)
    | inr f ↦
        let rest = lookup-keep_found p k v m (rw f at h) t in
        elim (Bool-cases (p (j, w))) [ inl t' ↦ rw (t', f) rest | inr f' ↦ rw f' rest ]
  ]

  pub lookup-keep_missing :
      (p : K × V → Bool) (k : K) (m : List (K × V)) → lookup k m ≡ none → lookup k (keep p m) ≡ none
  lookup-keep_missing p k [] h = refl
  lookup-keep_missing p k ((j, w) ∷ m) h = ground (arith, lookup-keep_missing p k m)

  pub IsMap-keep : (p : K × V → Bool) (m : List (K × V)) → IsMap m → IsMap (keep p m)
  IsMap-keep p [] h = tt
  IsMap-keep p ((j, w) ∷ m) h = elim (Bool-cases (p (j, w))) [
    | inl t ↦ rw t (lookup-keep_missing p j m h.0, IsMap-keep p m h.1)
    | inr f ↦ rw f (IsMap-keep p m h.1)
  ]

  pub IsMap-delete : (k : K) (m : List (K × V)) → IsMap m → IsMap (delete k m)
  IsMap-delete k [] h = tt
  IsMap-delete k ((j, w) ∷ m) h = elim (Bool-cases (j == k)) [
    | inl t ↦ rw t (IsMap-delete k m h.1)
    | inr f ↦ rw f (ground (arith, lookup-delete k j m, h.0), IsMap-delete k m h.1)
  ]

  pub IsMap-insert : (k : K) (v : V) (m : List (K × V)) → IsMap m → IsMap (insert k v m)
  IsMap-insert k v [] h = (refl, tt)
  IsMap-insert k v ((j, w) ∷ m) h = elim (Bool-cases (j == k)) [
    | inl t ↦ rw t (subst (λ i. lookup i m ≡ none) ((eq_iff j k).0 t) h.0, h.1)
    | inr f ↦
        rw f (
          ground (arith, lookup-insert k j v m, eq_iff j k, eq_iff k j, h.0),
          IsMap-insert k v m h.1,
        )
  ]

  pub lookup_of_mem :
      (k : K) (v : V) (m : List (K × V)) → IsMap m → Memᴰ (k, v) m → lookup k m ≡ some v
  lookup_of_mem k v [] h m = absurd (not-Memᴰ-nil m)
  lookup_of_mem k v ((j, w) ∷ m) h at = elim (Memᴰ.cases_cons at) [
    | inl q ↦
        rw ((eq_iff j k).1 (sym (ap (λ (x : K × V). x.0) q))) (ap (λ (x : K × V). some x.1) (sym q))
    | inr at' ↦
        let found = lookup_of_mem k v m h.1 at' in
        elim (Bool-cases (j == k)) [
          | inl q ↦ absurd (clash (subst (λ i. lookup i m ≡ none) ((eq_iff j k).0 q) h.0) found)
          | inr f ↦ rw f found
        ]
  ]
    where
      clash : {o : Option V} → o ≡ none → o ≡ some v → ⊥
      clash a b = cc

  pub mem_of_lookup : (k : K) (v : V) (m : List (K × V)) → lookup k m ≡ some v → Memᴰ (k, v) m
  mem_of_lookup k v [] h = cc
  mem_of_lookup k v ((j, w) ∷ m) h = elim (Bool-cases (j == k)) [
    | inl q ↦
        let jk : j ≡ k = (eq_iff j k).0 q in
        let wv : w ≡ v = some-injective w v (rw q at h) in Memᴰ.head (λ i. (sym jk i, sym wv i))
    | inr f ↦ Memᴰ.tail (mem_of_lookup k v m (rw f at h))
  ]

  -- What is found in a part of a map is found in the map.
  pub lookup_of_keep :
      (p : K × V → Bool) (k : K) (v : V) (m : List (K × V))
      → IsMap m
      → lookup k (keep p m) ≡ some v
      → (lookup k m ≡ some v) × (p (k, v) ≡ true)
  lookup_of_keep p k v m h q =
      let (at, picked) = (Memᴰ-keep p (k, v) m).0 (mem_of_lookup k v (keep p m) q) in
      (lookup_of_mem k v m h at, picked)

  abbrev pub values : List (K × V) → List V
  values [] = []
  values ((_, v) ∷ m) = v ∷ values m

  pub mem-values :
      (key : V → K) (v : V) (m : List (K × V))
      → IsKeyed key m
      → Memᴰ v (values m)
      → Memᴰ (key v, v) m
  mem-values key v [] h at = absurd (not-Memᴰ-nil at)
  mem-values key v ((k, w) ∷ m) h at = elim (Memᴰ.cases_cons at) [
    | inl q ↦ Memᴰ.head (λ i. ((ap key q ∙ h.0) i, q i))
    | inr at' ↦ Memᴰ.tail (mem-values key v m h.1 at')
  ]

  pub values-mem : (k : K) (v : V) (m : List (K × V)) → Memᴰ (k, v) m → Memᴰ v (values m)
  values-mem k v [] at = absurd (not-Memᴰ-nil at)
  values-mem k v ((j, w) ∷ m) at = elim (Memᴰ.cases_cons at) [
    | inl q ↦ Memᴰ.head (ap (λ (x : K × V). x.1) q)
    | inr at' ↦ Memᴰ.tail (values-mem k v m at')
  ]

  module _ (key : V → K) where
    pub IsKeyed-keep :
        (p : K × V → Bool) (m : List (K × V)) → IsKeyed key m → IsKeyed key (keep p m)
    IsKeyed-keep p [] h = tt
    IsKeyed-keep p ((j, w) ∷ m) h = elim (Bool-cases (p (j, w))) [
      | inl t ↦ rw t (h.0, IsKeyed-keep p m h.1)
      | inr f ↦ rw f (IsKeyed-keep p m h.1)
    ]

    pub IsKeyed-delete : (k : K) (m : List (K × V)) → IsKeyed key m → IsKeyed key (delete k m)
    IsKeyed-delete k [] h = tt
    IsKeyed-delete k ((j, w) ∷ m) h = elim (Bool-cases (j == k)) [
      | inl t ↦ rw t (IsKeyed-delete k m h.1)
      | inr f ↦ rw f (h.0, IsKeyed-delete k m h.1)
    ]

    pub IsKeyed-insert :
        (k : K) (v : V) (m : List (K × V)) → key v ≡ k → IsKeyed key m → IsKeyed key (insert k v m)
    IsKeyed-insert k v [] e h = (e, tt)
    IsKeyed-insert k v ((j, w) ∷ m) e h = elim (Bool-cases (j == k)) [
      | inl t ↦ rw t (e, h.1)
      | inr f ↦ rw f (h.0, IsKeyed-insert k v m e h.1)
    ]

    pub key_of_lookup :
        (k : K) (v : V) (m : List (K × V)) → IsKeyed key m → lookup k m ≡ some v → key v ≡ k
    key_of_lookup k v m h q = All-mem (λ (x : K × V). key x.1 ≡ x.0) m h (mem_of_lookup k v m q)

    -- What the last entry with a key is: one of those given, or the default.
    pub last_by-cases :
        (k : K) (vs : List V) (d : Option V) (v : V)
        → last_by key k vs d ≡ some v
        → (Memᴰ v vs × (key v ≡ k)) ⊎ (d ≡ some v)
    last_by-cases k [] d v h = inr h
    last_by-cases k (x ∷ vs) d v h =
        elim (last_by-cases k vs (if key x == k then some x else d) v h) [
          | inl (m, q) ↦ inl (Memᴰ.tail m, q)
          | inr q ↦ elim (Bool-cases (key x == k)) [
            | inl t ↦
                let xv : x ≡ v = some-injective x v (rw t at q) in
                inl (Memᴰ.head (sym xv), ap key (sym xv) ∙ (eq_iff (key x) k).0 t)
            | inr f ↦ inr (rw f at q)
          ]
        ]

    pub last_by-some :
        (k : K) (vs : List V) (d : V) → (v : V) × (last_by key k vs (some d) ≡ some v)
    last_by-some k [] d = (d, refl)
    last_by-some k (x ∷ vs) d = elim (Bool-cases (key x == k)) [
      | inl t ↦ rw t (last_by-some k vs x)
      | inr f ↦ rw f (last_by-some k vs d)
    ]

    -- What stood under the key of an entry before makes no difference.
    pub last_by-known :
        (vs : List V) (d d' : Option V) {v : V}
        → Memᴰ v vs
        → last_by key (key v) vs d ≡ last_by key (key v) vs d'
    last_by-known [] d d' m = absurd (not-Memᴰ-nil m)
    last_by-known (x ∷ vs) d d' {v} m = elim (Memᴰ.cases_cons m) [
      | inl q ↦ rw ((eq_iff (key x) (key v)).1 (ap key (sym q))) refl
      | inr m' ↦
          last_by-known vs (if key x == key v then some x else d)
            (if key x == key v then some x else d') m'
    ]

    -- A key that one of the entries has is there.
    pub last_by-mem :
        (vs : List V) (d : Option V) {v : V}
        → Memᴰ v vs
        → (w : V) × (last_by key (key v) vs d ≡ some w)
    last_by-mem [] d m = absurd (not-Memᴰ-nil m)
    last_by-mem (x ∷ vs) d {v} m = elim (Memᴰ.cases_cons m) [
      | inl q ↦ rw ((eq_iff (key x) (key v)).1 (ap key (sym q))) (last_by-some (key v) vs x)
      | inr m' ↦ last_by-mem vs (if key x == key v then some x else d) m'
    ]
