-- ===== src/Analysis/DeadCode/Members.antt =====
-- pkg/analysis/deadcode.go: the entries of the node map that the two ranges over it pick.
use graph_context.Base.{
  ◌≡◌, ap, ◌∙◌, ◌↔◌, inl, inr, List, [], ◌∷◌, Str, Bool, true, false, not, ◌&&◌, str_eq, contains,
  Memᴰ, Bool-cases, not-Memᴰ-nil, arith,
}
use mathlib.Core.List.Memᴰ
use graph_context.Store.Types.{Node, edge_kind_eq}
use graph_context.Analysis.DeadCode.{roots, is_root, is_callable, unreached}

abbrev pub IsRootId : List (Str × Node) → Str → Type 0
IsRootId m id = (n : Node) × Memᴰ (id, n) m × (is_root n ≡ true)

mem-roots_cons :
    (id k : Str) (x : Node) (m : List (Str × Node))
    → Memᴰ id (roots m) ↔ IsRootId m id
    → Memᴰ id (roots ((k, x) ∷ m)) ↔ IsRootId ((k, x) ∷ m) id
unfolding roots
mem-roots_cons id k x m rec = elim (Bool-cases (is_root x)) [
  | inl t ↦ rw t (
    λ h. elim (Memᴰ.cases_cons h) [
      | inl q ↦ (x, Memᴰ.head (ap (λ z. (z, x)) q), t)
      | inr h' ↦ let (n, at, r) = rec.0 h' in (n, Memᴰ.tail at, r)
    ],
    λ (n, at, r). elim (Memᴰ.cases_cons at) [
      | inl q ↦ Memᴰ.head (ap (λ (p : Str × Node). p.0) q)
      | inr at' ↦ Memᴰ.tail (rec.1 (n, at', r))
    ],
  )
  | inr f ↦ rw f (
    λ h. let (n, at, r) = rec.0 h in (n, Memᴰ.tail at, r),
    λ (n, at, r). elim (Memᴰ.cases_cons at) [
      | inl q ↦ absurd (clash (ap (λ (p : Str × Node). is_root p.1) q ∙ f) r)
      | inr at' ↦ rec.1 (n, at', r)
    ],
  )
]
  where
    clash : {b : Bool} → b ≡ false → b ≡ true → ⊥
    clash p q = cc

pub mem-roots : (id : Str) (m : List (Str × Node)) → Memᴰ id (roots m) ↔ IsRootId m id
unfolding roots
mem-roots id [] = (λ m. absurd (not-Memᴰ-nil m), λ (n, m, r). absurd (not-Memᴰ-nil m))
mem-roots id ((k, x) ∷ m) = mem-roots_cons id k x m (mem-roots id m)

-- The entry of a function or method under an ID that was not visited.
abbrev pub IsUnreached : List Str → List (Str × Node) → Node → Type 0
IsUnreached visited m n =
    (id : Str) × Memᴰ (id, n) m × (is_callable n.kind ≡ true) × (contains visited id ≡ false)

mem-unreached_cons :
    (visited : List Str) (n : Node) (k : Str) (x : Node) (m : List (Str × Node))
    → Memᴰ n (unreached visited m) ↔ IsUnreached visited m n
    → Memᴰ n (unreached visited ((k, x) ∷ m)) ↔ IsUnreached visited ((k, x) ∷ m) n
unfolding unreached
mem-unreached_cons visited n k x m rec =
    elim (Bool-cases (is_callable x.kind && not (contains visited k))) [
      | inl t ↦ rw t (
        λ h. elim (Memᴰ.cases_cons h) [
          | inl q ↦ (k, Memᴰ.head (ap (λ z. (k, z)) q), rw q (ground arith), ground arith)
          | inr h' ↦ let (id, at, c, v) = rec.0 h' in (id, Memᴰ.tail at, c, v)
        ],
        λ (id, at, c, v). elim (Memᴰ.cases_cons at) [
          | inl q ↦ Memᴰ.head (ap (λ (p : Str × Node). p.1) q)
          | inr at' ↦ Memᴰ.tail (rec.1 (id, at', c, v))
        ],
      )
      | inr f ↦ rw f (
        λ h. let (id, at, c, v) = rec.0 h in (id, Memᴰ.tail at, c, v),
        λ (id, at, c, v). elim (Memᴰ.cases_cons at) [
          | inl q ↦ absurd (
              clash
                (ap (λ (p : Str × Node). is_callable p.1.kind && not (contains visited p.0)) q ∙ f)
                (both c v))
          | inr at' ↦ rec.1 (id, at', c, v)
        ],
      )
    ]
  where
    clash : {b : Bool} → b ≡ false → b ≡ true → ⊥
    clash p q = cc

    both : {a b : Bool} → a ≡ true → b ≡ false → (a && not b) ≡ true
    both p q = ground arith

pub mem-unreached :
    (visited : List Str) (n : Node) (m : List (Str × Node))
    → Memᴰ n (unreached visited m) ↔ IsUnreached visited m n
unfolding unreached
mem-unreached visited n [] =
    (λ m. absurd (not-Memᴰ-nil m), λ (id, m, c, v). absurd (not-Memᴰ-nil m))
mem-unreached visited n ((k, x) ∷ m) =
    mem-unreached_cons visited n k x m (mem-unreached visited n m)
