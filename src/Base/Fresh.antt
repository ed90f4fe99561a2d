-- ===== src/Base/Fresh.antt =====
-- What a search has not visited, which bounds its rounds.
use Prim.Native.Nat.{ℕ, ◌≤◌, ◌<◌}
use mathlib.Core.Path.{◌≡◌, ap}
use mathlib.Core.Logic.{inl, inr}
use mathlib.Core.Bool.{false, not}
use mathlib.Core.List.{List, [], ◌∷◌, Memᴰ}
use native.Mathlib.Omega.{arith}
use graph_context.Base.Tests.{Comparable, eq_iff}
use graph_context.Base.Lists.{length, keep, contains, Memᴰ-cons, not-Memᴰ-nil}

-- The number of those that are not visited yet.
module _ {ℓ} {A : Type ℓ} ⦃e : Comparable A⦄ where
  abbrev pub fresh : List A → List A → ℕ
  fresh visited ts = length (keep (λ t. not (contains visited t)) ts)

  pub fresh-le : (v : A) (visited ts : List A) → fresh (v ∷ visited) ts ≤ fresh visited ts
  fresh-le v visited [] = omega arith
  fresh-le v visited (t ∷ ts) = ground (arith, fresh-le v visited ts)

  pub fresh-lt :
      (v : A) (visited ts : List A)
      → Memᴰ v ts
      → contains visited v ≡ false
      → fresh (v ∷ visited) ts < fresh visited ts
  fresh-lt v visited [] m h = absurd (not-Memᴰ-nil m)
  fresh-lt v visited (t ∷ ts) m h = elim ((Memᴰ-cons v t ts).0 m) [
    | inl q ↦ ground (arith, fresh-le v visited ts, eq_iff v t, ap (contains visited) q)
    | inr m' ↦ ground (arith, fresh-lt v visited ts m' h)
  ]
