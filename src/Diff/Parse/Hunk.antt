-- ===== src/Diff/Parse/Hunk.antt =====
-- pkg/diff/diff.go: the lines of a hunk, printed as git prints them and read by the parser.
use graph_context.Base.{
  ℕ, ◌+◌, ◌≡◌, sym, ap, ◌∙◌, ◌≢◌, List, [], ◌∷◌, ◌++◌, map, Str, bytes, false, Option, none, some,
  has_prefix, arith, All, length, length-append,
}
use mathlib.Core.List.{append_assoc, append-nil}
use graph_context.Diff.Parse.{FileDiff, State, step, steps, clean_diff_path}

pub data Line : Type 0 where
  added removed context : Str → Line

abbrev pub print : Line → Str
print (added t) = b'+' ∷ t
print (removed t) = b'-' ∷ t
print (context t) = b' ' ∷ t

-- The line does not look like the header of a file, as "-- x" does where it is removed.
abbrev pub IsPlain : Line → Type 0
IsPlain (added t) = has_prefix (bytes "++ ") t ≡ false
IsPlain (removed t) = has_prefix (bytes "-- ") t ≡ false
IsPlain (context t) = Unit

-- The numbers of the added lines, counted from that of the first line in the new file.
abbrev pub added_at : ℕ → List Line → List ℕ
added_at n [] = []
added_at n (added t ∷ ls) = n ∷ added_at (n + 1) ls
added_at n (removed t ∷ ls) = added_at n ls
added_at n (context t ∷ ls) = added_at (n + 1) ls

-- The numbers of the removed lines, counted in the old file.
abbrev pub removed_at : ℕ → List Line → List ℕ
removed_at n [] = []
removed_at n (added t ∷ ls) = removed_at n ls
removed_at n (removed t ∷ ls) = n ∷ removed_at (n + 1) ls
removed_at n (context t ∷ ls) = removed_at (n + 1) ls

abbrev pub new_count : ℕ → List Line → ℕ
new_count n [] = n
new_count n (removed t ∷ ls) = new_count n ls
new_count n (_ ∷ ls) = new_count (n + 1) ls

abbrev pub old_count : ℕ → List Line → ℕ
old_count n [] = n
old_count n (added t ∷ ls) = old_count n ls
old_count n (_ ∷ ls) = old_count (n + 1) ls

-- A file that is being read, at a line of the new and the old version.
abbrev pub reading : List FileDiff → FileDiff → ℕ → ℕ → State
reading ds f new old = record { diffs = ds; current = some f; new_line = new; old_line = old }

-- The file with more lines added and removed.
abbrev pub with_lines : FileDiff → List ℕ → List ℕ → FileDiff
with_lines f plus minus = record f {
  added_lines = f.added_lines ++ plus;
  deleted_lines = f.deleted_lines ++ minus;
}

module _ (ds : List FileDiff) (f : FileDiff) (new old : ℕ) (t : Str) where
  step-added :
      has_prefix (bytes "++ ") t ≡ false
      → step (reading ds f new old) (print (added t))
        ≡ reading ds (record f { added_lines = f.added_lines ++ new ∷ [] }) (new + 1) old
  unfolding step
  step-added h = ground arith

  step-removed :
      has_prefix (bytes "-- ") t ≡ false
      → step (reading ds f new old) (print (removed t))
        ≡ reading ds (record f { deleted_lines = f.deleted_lines ++ old ∷ [] }) new (old + 1)
  unfolding step
  step-removed h = ground arith

  step-context : step (reading ds f new old) (print (context t)) ≡ reading ds f (new + 1) (old + 1)
  unfolding step
  step-context = ground arith

  -- A removed line that begins with two dashes and a space is read as the header "--- ".
  step-dashes :
      step (reading ds f new old) (print (removed (b'-' ∷ b'-' ∷ b' ' ∷ t)))
      ≡ reading ds (record f { old_path = clean_diff_path t }) new old
  unfolding step
  step-dashes = ground arith

-- A hunk of which no line looks like a header is read line by line: exactly the added lines are
-- recorded under their numbers in the new file, and the removed lines under those in the old file,
-- after what was recorded before, and the counters end behind the hunk.
pub steps-print :
    (ls : List Line) (ds : List FileDiff) (f : FileDiff) (new old : ℕ)
    → All IsPlain ls
    → steps (reading ds f new old) (map print ls)
      ≡ reading ds
          (with_lines f (added_at new ls) (removed_at old ls))
          (new_count new ls)
          (old_count old ls)
unfolding steps
steps-print [] ds f new old h = λ i.
    reading ds
      (record f {
        added_lines = sym (append-nil f.added_lines) i;
        deleted_lines = sym (append-nil f.deleted_lines) i;
      })
      new old
steps-print (added t ∷ ls) ds f new old h =
    ap (λ s. steps s (map print ls)) (step-added ds f new old t h.0)
    ∙ steps-print ls ds (record f { added_lines = f.added_lines ++ new ∷ [] }) (new + 1) old h.1
    ∙ ap
        (λ plus.
          reading ds
            (record f { added_lines = plus; deleted_lines = f.deleted_lines ++ removed_at old ls })
            (new_count (new + 1) ls) (old_count old ls))
        (append_assoc f.added_lines (new ∷ []) (added_at (new + 1) ls))
steps-print (removed t ∷ ls) ds f new old h =
    ap (λ s. steps s (map print ls)) (step-removed ds f new old t h.0)
    ∙ steps-print ls ds (record f { deleted_lines = f.deleted_lines ++ old ∷ [] }) new (old + 1) h.1
    ∙ ap
        (λ rs.
          reading ds
            (record f { added_lines = f.added_lines ++ added_at new ls; deleted_lines = rs })
            (new_count new ls) (old_count (old + 1) ls))
        (append_assoc f.deleted_lines (old ∷ []) (removed_at (old + 1) ls))
steps-print (context t ∷ ls) ds f new old h =
    ap (λ s. steps s (map print ls)) (step-context ds f new old t)
    ∙ steps-print ls ds f (new + 1) (old + 1) h.1

append_longer : (xs : List ℕ) (x : ℕ) → xs ≢ xs ++ x ∷ []
append_longer xs x q = absurd (omega (arith, ap length q, length-append xs (x ∷ [])))

-- The removal of any line that begins with two dashes and a space is not recorded: the parser takes
-- it for the header of the old file, so that the path of the old file becomes that text, and it
-- does not end in the state that the line calls for.
pub removed_dashes_lost :
    (ds : List FileDiff) (f : FileDiff) (new old : ℕ) (t : Str)
    → let line = removed (b'-' ∷ b'-' ∷ b' ' ∷ t) in
      (steps (reading ds f new old) (print line ∷ [])
        ≡ reading ds (record f { old_path = clean_diff_path t }) new old)
      × (steps (reading ds f new old) (print line ∷ [])
          ≢ reading ds
              (with_lines f (added_at new (line ∷ [])) (removed_at old (line ∷ [])))
              (new_count new (line ∷ []))
              (old_count old (line ∷ [])))
unfolding steps
removed_dashes_lost ds f new old t = (
  step-dashes ds f new old t,
  λ q.
      let same = ap removed_numbers (sym (step-dashes ds f new old t) ∙ q) in
      append_longer f.deleted_lines old same,
)
  where
    removed_of : Option FileDiff → List ℕ
    removed_of none = []
    removed_of (some g) = g.deleted_lines

    removed_numbers : State → List ℕ
    removed_numbers s = removed_of s.current
