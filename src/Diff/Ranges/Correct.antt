-- ===== src/Diff/Ranges/Correct.antt =====
-- pkg/diff/diff.go: the ranges stand for the lines, and are as few as can be.
use graph_context.Base.{
  ℕ, zero, suc, ◌+◌, ◌<◌, ◌≡◌, refl, sym, ap, ◌∙◌, ◌≢◌, List, [], ◌∷◌, ◌++◌, nat_beq, nat_beq_iff,
  Bool-cases, inl, inr, arith,
}
use mathlib.Core.List.{append_assoc}
use graph_context.Diff.Ranges.{LineRange, condense_from, condense_line_ranges}

-- The lines start, start + 1, and so on, as many as counted.
abbrev pub run : ℕ → ℕ → List ℕ
run start zero = []
run start (suc n) = start ∷ run (start + 1) n

abbrev pub expand : List LineRange → List ℕ
expand [] = []
expand (r ∷ rs) = run r.start r.count ++ expand rs

-- The ranges are not empty, and none goes on where the one before it ends.
abbrev pub FromRun : ℕ → List LineRange → Type 0
FromRun end [] = Unit
FromRun end (r ∷ rs) = (r.start ≢ end) × (0 < r.count) × FromRun (r.start + r.count) rs

abbrev pub IsCondensed : List LineRange → Type 0
IsCondensed [] = Unit
IsCondensed (r ∷ rs) = (0 < r.count) × FromRun (r.start + r.count) rs

run-snoc : (start n : ℕ) → run start (suc n) ≡ run start n ++ (start + n) ∷ []
run-snoc start zero = ap (λ (z : ℕ). z ∷ []) (omega arith)
run-snoc start (suc n) =
    let same : start + 1 + n ≡ start + suc n = omega arith in
    ap (λ ys. start ∷ ys)
      (run-snoc (start + 1) n ∙ ap (λ (z : ℕ). run (start + 1) n ++ z ∷ []) same)

expand-condense_from :
    (start count last : ℕ) (xs : List ℕ)
    → start + count ≡ last + 1
    → expand (condense_from start count last xs) ≡ run start count ++ xs
unfolding condense_from
expand-condense_from start count last [] h = refl
expand-condense_from start count last (x ∷ xs) h = elim (Bool-cases (nat_beq x (last + 1))) [
  | inl t ↦
      let last' : start + count ≡ x = h ∙ sym ((nat_beq_iff x (last + 1)).0 t) in
      let one : count + 1 ≡ suc count = omega arith in
      rw t (
        expand-condense_from start (count + 1) x xs (omega arith)
        ∙ ap (λ n. run start n ++ xs) one
        ∙ ap (λ ys. ys ++ xs) (run-snoc start count)
        ∙ append_assoc (run start count) ((start + count) ∷ []) xs
        ∙ ap (λ (z : ℕ). run start count ++ z ∷ xs) last')
  | inr f ↦ rw f (ap (λ ys. run start count ++ ys) (expand-condense_from x 1 x xs refl))
]

-- The first range of a run begins where the run does.
abbrev StartsAt : ℕ → List LineRange → Type 0
StartsAt start [] = ⊥
StartsAt start (r ∷ rs) = r.start ≡ start

condense_from-StartsAt :
    (start count last : ℕ) (xs : List ℕ) → StartsAt start (condense_from start count last xs)
unfolding condense_from
condense_from-StartsAt start count last [] = refl
condense_from-StartsAt start count last (x ∷ xs) = elim (Bool-cases (nat_beq x (last + 1))) [
  | inl t ↦ rw t (condense_from-StartsAt start (count + 1) x xs)
  | inr f ↦ rw f refl
]

IsCondensed-FromRun :
    (end start : ℕ) (rs : List LineRange)
    → StartsAt start rs
    → start ≢ end
    → IsCondensed rs
    → FromRun end rs
IsCondensed-FromRun end start [] s ne c = tt
IsCondensed-FromRun end start (r ∷ rs) s ne c = (λ q. ne (sym s ∙ q), c.0, c.1)

condense_from-IsCondensed :
    (start count last : ℕ) (xs : List ℕ)
    → start + count ≡ last + 1
    → 0 < count
    → IsCondensed (condense_from start count last xs)
unfolding condense_from
condense_from-IsCondensed start count last [] h p = (p, tt)
condense_from-IsCondensed start count last (x ∷ xs) h p = elim (Bool-cases (nat_beq x (last + 1))) [
  | inl t ↦ rw t (
      condense_from-IsCondensed start (count + 1) x xs (ground (arith, nat_beq_iff x (last + 1)))
        (omega arith))
  | inr f ↦ rw f (
    p,
    IsCondensed-FromRun (start + count) x (condense_from x 1 x xs) (condense_from-StartsAt x 1 x xs)
        (ground (arith, nat_beq_iff x (last + 1)))
        (condense_from-IsCondensed x 1 x xs refl (omega arith)),
  )
]

-- The ranges stand for exactly the lines that were given, in order, and there are as few as can be:
-- none is empty, and none begins where the one before it ends.
pub condense_line_ranges_lem :
    (lines : List ℕ)
    → (expand (condense_line_ranges lines) ≡ lines) × IsCondensed (condense_line_ranges lines)
unfolding condense_line_ranges
condense_line_ranges_lem [] = (refl, tt)
condense_line_ranges_lem (x ∷ xs) =
    (expand-condense_from x 1 x xs refl, condense_from-IsCondensed x 1 x xs refl (omega arith))
