-- ===== src/Base/Rows.antt =====
-- What holds of every value of a map, and of every value of a map of maps.
use mathlib.Core.Path.{◌≡◌, refl, subst}
use mathlib.Core.Logic.{inl, inr}
use mathlib.Core.Bool.{Bool}
use mathlib.Core.Option.{Option, none, some, some-injective}
use mathlib.Core.List.{List, [], ◌∷◌, ◌++◌, map}
use graph_context.Base.Tests.{Comparable, ◌==◌, Bool-cases}
use graph_context.Base.Lists.{All, keep}
use graph_context.Base.Dict.{lookup, insert, get_list, push}
use graph_context.Base.Nested.{get_row, insert2, lookup2}

module _ {ℓ κ μ} {A : Type ℓ} {P : A → Type κ} {Q : A → Type μ} where
  pub All-imp : (xs : List A) → ((a : A) → P a → Q a) → All P xs → All Q xs
  All-imp [] f h = tt
  All-imp (x ∷ xs) f h = (f x h.0, All-imp xs f h.1)

module _ {ℓ κ} {A : Type ℓ} (P : A → Type κ) where
  pub All-append : (xs ys : List A) → All P xs → All P ys → All P (xs ++ ys)
  All-append [] ys h k = k
  All-append (x ∷ xs) ys h k = (h.0, All-append xs ys h.1 k)

  pub All-map {μ} :
      {B : Type μ} (f : B → A) (xs : List B) → All (λ b. P (f b)) xs → All P (map f xs)
  All-map f [] h = tt
  All-map f (x ∷ xs) h = (h.0, All-map f xs h.1)

  pub All-keep : (p : A → Bool) (xs : List A) → All P xs → All P (keep p xs)
  All-keep p [] h = tt
  All-keep p (x ∷ xs) h = elim (Bool-cases (p x)) [
    | inl t ↦ rw t (h.0, All-keep p xs h.1)
    | inr f ↦ rw f (All-keep p xs h.1)
  ]

module _ {ℓ κ μ} {K : Type ℓ} {V : Type κ} (P : V → Type μ) where
  abbrev pub AllValues : List (K × V) → Type μ
  AllValues m = All (λ (x : K × V). P x.1) m

module _ {ℓ κ μ} {K : Type ℓ} {V : Type κ} ⦃e : Comparable K⦄ (P : V → Type μ) where
  pub AllValues-insert :
      (k : K) (v : V) (m : List (K × V)) → P v → AllValues P m → AllValues P (insert k v m)
  AllValues-insert k v [] p h = (p, tt)
  AllValues-insert k v ((j, w) ∷ m) p h = elim (Bool-cases (j == k)) [
    | inl t ↦ rw t (p, h.1)
    | inr f ↦ rw f (h.0, AllValues-insert k v m p h.1)
  ]

  pub AllValues-lookup :
      (k : K) (v : V) (m : List (K × V)) → AllValues P m → lookup k m ≡ some v → P v
  AllValues-lookup k v [] h q = cc
  AllValues-lookup k v ((j, w) ∷ m) h q = elim (Bool-cases (j == k)) [
    | inl t ↦ subst P (some-injective w v (rw t at q)) h.0
    | inr f ↦ AllValues-lookup k v m h.1 (rw f at q)
  ]

module _ {ℓ κ μ} {K : Type ℓ} {V : Type κ} ⦃e : Comparable K⦄ (P : V → Type μ) where
  -- The slices of a map of slices.
  pub AllValues-get_list :
      (k : K) (m : List (K × List V)) → AllValues (All P) m → All P (get_list k m)
  AllValues-get_list k m h = go (lookup k m) refl
    where
      go : (o : Option (List V)) → lookup k m ≡ o → All P (elim o [ none ↦ [] | some vs ↦ vs ])
      go none q = tt
      go (some vs) q = AllValues-lookup (All P) k vs m h q

  pub AllValues-push :
      (k : K) (v : V) (m : List (K × List V))
      → P v
      → AllValues (All P) m
      → AllValues (All P) (push k v m)
  AllValues-push k v m p h =
      AllValues-insert (All P) k (get_list k m ++ v ∷ []) m
        (All-append P (get_list k m) (v ∷ []) (AllValues-get_list k m h) (p, tt)) h

module _ {ℓ κ μ ν} {J : Type ℓ} {K : Type κ} {V : Type μ} ⦃d : Comparable J⦄ ⦃e : Comparable K⦄
    (P : V → Type ν) where
  abbrev pub AllRows : List (J × List (K × V)) → Type ν
  AllRows m = AllValues (AllValues P) m

  pub AllRows-get_row :
      (j : J) (m : List (J × List (K × V))) → AllRows m → AllValues P (get_row j m)
  AllRows-get_row j m h = go (lookup j m) refl
    where
      go :
          (o : Option (List (K × V)))
          → lookup j m ≡ o
          → AllValues P (elim o [ none ↦ [] | some row ↦ row ])
      go none q = tt
      go (some row) q = AllValues-lookup (AllValues P) j row m h q

  pub AllRows-insert2 :
      (j : J) (k : K) (v : V) (m : List (J × List (K × V)))
      → P v
      → AllRows m
      → AllRows (insert2 j k v m)
  AllRows-insert2 j k v m p h =
      AllValues-insert (AllValues P) j (insert k v (get_row j m)) m
        (AllValues-insert P k v (get_row j m) p (AllRows-get_row j m h)) h

  pub AllRows-lookup2 :
      (j : J) (k : K) (v : V) (m : List (J × List (K × V)))
      → AllRows m
      → lookup2 j k m ≡ some v
      → P v
  AllRows-lookup2 j k v m h q = AllValues-lookup P k v (get_row j m) (AllRows-get_row j m h) q

module _ {κ μ ν ρ} {K : Type κ} {V : Type μ} {P : V → Type ν} {Q : V → Type ρ} where
  pub AllValues-imp : (m : List (K × V)) → ((v : V) → P v → Q v) → AllValues P m → AllValues Q m
  AllValues-imp m f h = All-imp m (λ x p. f x.1 p) h
