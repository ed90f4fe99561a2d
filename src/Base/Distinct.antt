-- ===== src/Base/Distinct.antt =====
-- Lists in which no key stands twice.
use mathlib.Core.Path.{◌≡◌, refl, ap, ◌∙◌}
use mathlib.Core.Bool.{Bool, false, ◌||◌}
use mathlib.Core.List.{List, [], ◌∷◌, ◌++◌, map}
use mathlib.Core.Logic.{inl, inr}
use native.Mathlib.Omega.{arith}
use graph_context.Base.Tests.{Comparable, ◌==◌, eq_iff, Bool-cases}
use graph_context.Base.Lists.{contains}
use graph_context.Base.Sort.{insert_by, sort_by}

module _ {ℓ κ} {A : Type ℓ} {K : Type κ} ⦃e : Comparable K⦄ (key : A → K) where
  abbrev pub IsDistinct : List A → Type 0
  IsDistinct [] = Unit
  IsDistinct (x ∷ xs) = (contains (map key xs) (key x) ≡ false) × IsDistinct xs

  pub contains-concat :
      (k : K) (xs : List A) (x : A)
      → contains (map key (xs ++ x ∷ [])) k ≡ (contains (map key xs) k || key x == k)
  contains-concat k [] x = ground arith
  contains-concat k (y ∷ ys) x = ground (arith, contains-concat k ys x)

  pub IsDistinct-concat :
      (xs : List A) (x : A)
      → IsDistinct xs
      → contains (map key xs) (key x) ≡ false
      → IsDistinct (xs ++ x ∷ [])
  IsDistinct-concat [] x d h = (refl, tt)
  IsDistinct-concat (y ∷ ys) x d h = (
    ground (arith, contains-concat (key y) ys x, eq_iff (key x) (key y), eq_iff (key y) (key x)),
    IsDistinct-concat ys x d.1 (ground arith),
  )

  contains-insert_by :
      (less : A → A → Bool) (k : K) (x : A) (ys : List A)
      → contains (map key (insert_by less x ys)) k ≡ (key x == k || contains (map key ys) k)
  contains-insert_by less k x [] = refl
  contains-insert_by less k x (y ∷ ys) = ground (arith, contains-insert_by less k x ys)

  pub contains-sort_by :
      (less : A → A → Bool) (k : K) (xs : List A)
      → contains (map key (sort_by less xs)) k ≡ contains (map key xs) k
  contains-sort_by less k [] = refl
  contains-sort_by less k (x ∷ xs) =
      contains-insert_by less k x (sort_by less xs)
      ∙ ap (λ b. key x == k || b) (contains-sort_by less k xs)

  IsDistinct-insert_by :
      (less : A → A → Bool) (x : A) (ys : List A)
      → IsDistinct ys
      → contains (map key ys) (key x) ≡ false
      → IsDistinct (insert_by less x ys)
  IsDistinct-insert_by less x [] d h = (refl, tt)
  IsDistinct-insert_by less x (y ∷ ys) d h = elim (Bool-cases (less y x)) [
    | inr f ↦ rw f (h, d)
    | inl t ↦ rw t (
      ground (
        arith,
        contains-insert_by less (key y) x ys,
        eq_iff (key x) (key y),
        eq_iff (key y) (key x),
      ),
      IsDistinct-insert_by less x ys d.1 (ground arith),
    )
  ]

  pub IsDistinct-sort_by :
      (less : A → A → Bool) (xs : List A) → IsDistinct xs → IsDistinct (sort_by less xs)
  IsDistinct-sort_by less [] d = tt
  IsDistinct-sort_by less (x ∷ xs) d =
      IsDistinct-insert_by less x (sort_by less xs) (IsDistinct-sort_by less xs d.1)
        (contains-sort_by less (key x) xs ∙ d.0)
