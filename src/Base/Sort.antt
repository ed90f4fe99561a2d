-- ===== src/Base/Sort.antt =====
-- sort.Slice with a less function: insertion, which keeps the order of equal entries.
use Prim.Native.Nat.{suc}
use mathlib.Core.Path.{◌≡◌, refl, ap, ◌∙◌}
use mathlib.Core.Logic.{◌↔◌, ◌⊎◌, inl, inr}
use mathlib.Core.Bool.{Bool, true, false}
use mathlib.Core.List.{List, [], ◌∷◌, Memᴰ}
use native.Mathlib.Omega.{arith}
use graph_context.Base.Tests.{if◌then◌else◌, Bool-cases}
use graph_context.Base.Lists.{length, All, Memᴰ-cons}

module _ {ℓ} {A : Type ℓ} where
  abbrev pub insert_by : (A → A → Bool) → A → List A → List A
  insert_by less x [] = x ∷ []
  insert_by less x (y ∷ ys) =
      let rest = insert_by less x ys in if less y x then y ∷ rest else x ∷ y ∷ ys

  abbrev pub sort_by : (A → A → Bool) → List A → List A
  sort_by less [] = []
  sort_by less (x ∷ xs) = insert_by less x (sort_by less xs)

  -- No entry is less than one before it.
  abbrev pub IsSortedBy : (A → A → Bool) → List A → Type 0
  IsSortedBy less [] = Unit
  IsSortedBy less (x ∷ xs) = All (λ y. less y x ≡ false) xs × IsSortedBy less xs

  pub length-insert_by :
      (less : A → A → Bool) (x : A) (ys : List A) → length (insert_by less x ys) ≡ suc (length ys)
  length-insert_by less x [] = refl
  length-insert_by less x (y ∷ ys) = ground (arith, length-insert_by less x ys)

  pub length-sort_by : (less : A → A → Bool) (xs : List A) → length (sort_by less xs) ≡ length xs
  length-sort_by less [] = refl
  length-sort_by less (x ∷ xs) =
      length-insert_by less x (sort_by less xs) ∙ ap suc (length-sort_by less xs)

  Memᴰ-insert_by :
      (less : A → A → Bool) (a x : A) (ys : List A)
      → Memᴰ a (insert_by less x ys) ↔ ((a ≡ x) ⊎ Memᴰ a ys)
  Memᴰ-insert_by less a x [] = Memᴰ-cons a x []
  Memᴰ-insert_by less a x (y ∷ ys) = ground (
    arith,
    Memᴰ-insert_by less a x ys,
    Memᴰ-cons a y (insert_by less x ys),
    Memᴰ-cons a x (y ∷ ys),
    Memᴰ-cons a y ys,
  )

  pub Memᴰ-sort_by :
      (less : A → A → Bool) (a : A) (xs : List A) → Memᴰ a (sort_by less xs) ↔ Memᴰ a xs
  Memᴰ-sort_by less a [] = (λ m. m, λ m. m)
  Memᴰ-sort_by less a (x ∷ xs) =
      ground
        (arith, Memᴰ-insert_by less a x (sort_by less xs), Memᴰ-sort_by less a xs, Memᴰ-cons a x xs)

-- A less function is a strict weak order: asymmetric, and what is not less is transitive.
pub record IsOrder {ℓ} {A : Type ℓ} (less : A → A → Bool) : Type ℓ where
  pub asym : (x y : A) → less x y ≡ true → less y x ≡ false
  pub chain : (x y z : A) → less y x ≡ false → less z y ≡ false → less z x ≡ false

module _ {ℓ} {A : Type ℓ} {less : A → A → Bool} (o : IsOrder less) where
  abbrev Above : A → List A → Type 0
  Above x ys = All (λ y. less y x ≡ false) ys

  Above-chain : (x y : A) (ys : List A) → less y x ≡ false → Above y ys → Above x ys
  Above-chain x y [] h a = tt
  Above-chain x y (z ∷ ys) h a = (o.chain x y z h a.0, Above-chain x y ys h a.1)

  Above-insert_by :
      (x y : A) (ys : List A) → less x y ≡ false → Above y ys → Above y (insert_by less x ys)
  Above-insert_by x y [] h a = (h, tt)
  Above-insert_by x y (z ∷ ys) h a = elim (Bool-cases (less z x)) [
    | inl t ↦ rw t (a.0, Above-insert_by x y ys h a.1)
    | inr f ↦ rw f (h, a)
  ]

  insert_by-IsSortedBy :
      (x : A) (ys : List A) → IsSortedBy less ys → IsSortedBy less (insert_by less x ys)
  insert_by-IsSortedBy x [] s = (tt, tt)
  insert_by-IsSortedBy x (y ∷ ys) s = elim (Bool-cases (less y x)) [
    | inl t ↦ rw t (Above-insert_by x y ys (o.asym y x t) s.0, insert_by-IsSortedBy x ys s.1)
    | inr f ↦ rw f ((f, Above-chain x y ys f s.0), s)
  ]

  pub sort_by-IsSortedBy : (xs : List A) → IsSortedBy less (sort_by less xs)
  sort_by-IsSortedBy [] = tt
  sort_by-IsSortedBy (x ∷ xs) = insert_by-IsSortedBy x (sort_by less xs) (sort_by-IsSortedBy xs)
