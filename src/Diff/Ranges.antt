-- ===== src/Diff/Ranges.antt =====
-- pkg/diff/diff.go: runs of consecutive line numbers as ranges.
pub mod Correct
use graph_context.Base.{ℕ, zero, suc, ◌+◌, List, [], ◌∷◌, ◌++◌, nat_beq, if◌then◌else◌}

pub record LineRange : Type 0 where
  pub start : ℕ
  pub count : ℕ

-- The loop: `last` is lines[i-1], and `start` and `count` are the run that ends there.
unfoldable pub condense_from : ℕ → ℕ → ℕ → List ℕ → List LineRange
condense_from start count last [] = record { start = start; count = count } ∷ []
condense_from start count last (x ∷ xs) =
    let longer = condense_from start (count + 1) x xs in
    let new_run = condense_from x 1 x xs in
    if nat_beq x (last + 1) then longer else record { start = start; count = count } ∷ new_run

unfoldable pub condense_line_ranges : List ℕ → List LineRange
unfolding condense_from
condense_line_ranges [] = []
condense_line_ranges (x ∷ xs) = condense_from x 1 x xs
