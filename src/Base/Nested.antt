-- ===== src/Base/Nested.antt =====
-- Go maps of maps.
use mathlib.Core.Path.{◌≡◌}
use mathlib.Core.Bool.{◌&&◌}
use mathlib.Core.Option.{Option, none, some}
use mathlib.Core.List.{List, []}
use native.Mathlib.Omega.{arith}
use graph_context.Base.Tests.{if◌then◌else◌, Comparable, ◌==◌, eq_iff}
use graph_context.Base.Dict.{lookup, insert, lookup-insert}

module _ {ℓ κ μ} {J : Type ℓ} {K : Type κ} {V : Type μ} ⦃d : Comparable J⦄ ⦃e : Comparable K⦄ where
  -- m[j], the nil map where the key is missing
  abbrev pub get_row : J → List (J × List (K × V)) → List (K × V)
  get_row j m = elim (lookup j m) [ none ↦ [] | some row ↦ row ]

  -- m[j][k]
  abbrev pub lookup2 : J → K → List (J × List (K × V)) → Option V
  lookup2 j k m = lookup k (get_row j m)

  -- m[j][k] = v, with the inner map made where it is missing
  abbrev pub insert2 : J → K → V → List (J × List (K × V)) → List (J × List (K × V))
  insert2 j k v m = insert j (insert k v (get_row j m)) m

  pub lookup2-insert2 :
      (j : J) (k : K) (i : J) (h : K) (v : V) (m : List (J × List (K × V)))
      → lookup2 i h (insert2 j k v m) ≡ (if j == i && k == h then some v else lookup2 i h m)
  lookup2-insert2 j k i h v m = ground (
    arith,
    lookup-insert j i (insert k v (get_row j m)) m,
    lookup-insert k h v (get_row j m),
    eq_iff j i,
    eq_iff k h,
  )
