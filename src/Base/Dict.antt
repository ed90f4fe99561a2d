-- ===== src/Base/Dict.antt =====
-- A Go map is an association list with one entry for a key; a range over it takes the list's order.
use mathlib.Core.Path.{◌≡◌, refl}
use mathlib.Core.Option.{Option, none, some}
use mathlib.Core.List.{List, [], ◌∷◌, ◌++◌}
use native.Mathlib.Omega.{arith}
use graph_context.Base.Tests.{if◌then◌else◌, Comparable, ◌==◌}

module _ {ℓ κ} {K : Type ℓ} {V : Type κ} ⦃e : Comparable K⦄ where
  -- m[k], with `none` for a missing key
  abbrev pub lookup : K → List (K × V) → Option V
  lookup k [] = none
  lookup k ((i, w) ∷ rest) = if i == k then some w else lookup k rest

  -- m[k] = v
  abbrev pub insert : K → V → List (K × V) → List (K × V)
  insert k v [] = (k, v) ∷ []
  insert k v ((i, w) ∷ rest) = if i == k then (k, v) ∷ rest else (i, w) ∷ insert k v rest

  -- delete(m, k)
  abbrev pub delete : K → List (K × V) → List (K × V)
  delete k [] = []
  delete k ((j, w) ∷ m) = let rest = delete k m in if j == k then rest else (j, w) ∷ rest

  pub lookup-insert :
      (k j : K) (v : V) (m : List (K × V))
      → lookup j (insert k v m) ≡ (if k == j then some v else lookup j m)
  lookup-insert k j v [] = refl
  lookup-insert k j v ((i, w) ∷ m) =
      ground (arith, e.same_iff k j, e.same_iff i k, e.same_iff i j, lookup-insert k j v m)

  pub lookup-delete :
      (k j : K) (m : List (K × V)) → lookup j (delete k m) ≡ (if k == j then none else lookup j m)
  lookup-delete k j [] = ground arith
  lookup-delete k j ((i, w) ∷ m) =
      ground (arith, e.same_iff k j, e.same_iff i k, e.same_iff i j, lookup-delete k j m)

module _ {ℓ κ} {K : Type ℓ} {V : Type κ} ⦃e : Comparable K⦄ where
  -- m[k] of a map of slices: the nil slice where the key is missing.
  abbrev pub get_list : K → List (K × List V) → List V
  get_list k m = elim (lookup k m) [ none ↦ [] | some vs ↦ vs ]

  -- m[k] = append(m[k], v)
  abbrev pub push : K → V → List (K × List V) → List (K × List V)
  push k v m = insert k (get_list k m ++ v ∷ []) m

  pub get_list-push :
      (k j : K) (v : V) (m : List (K × List V))
      → get_list j (push k v m) ≡ (if k == j then get_list k m ++ v ∷ [] else get_list j m)
  get_list-push k j v m = ground (arith, lookup-insert k j (get_list k m ++ v ∷ []) m)

  pub get_list-cons :
      (k j : K) (vs : List V) (m : List (K × List V))
      → get_list j ((k, vs) ∷ m) ≡ (if k == j then vs else get_list j m)
  get_list-cons k j vs m = ground arith
