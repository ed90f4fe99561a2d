-- ===== src/Store/Counts.antt =====
-- pkg/store/query.go: the counts.
use graph_context.Base.{
  ℕ, ◌∙◌, zero, suc, ◌+◌, ◌≡◌, refl, List, [], ◌∷◌, ◌++◌, keep, length, arith, values,
}
use graph_context.Store.Types.{
  Edge, EdgeKey, edge_key_eq, Confidence, conf_exact, conf_ambiguous, conf_name_match, conf_unknown,
}
use graph_context.Store.Db.{Db}
use graph_context.Store.Query.{
  has_confidence, count_row, confidence_count, confidence_counts, counts,
}

-- The sum of the rows.
abbrev pub total : List (Confidence × ℕ) → ℕ
total [] = 0
total ((_, n) ∷ rows) = n + total rows

total-append : (xs ys : List (Confidence × ℕ)) → total (xs ++ ys) ≡ total xs + total ys
total-append [] ys = omega arith
total-append (x ∷ xs) ys = omega (arith, total-append xs ys)

total-count_row : (c : Confidence) (n : ℕ) → total (count_row c n) ≡ n
total-count_row c zero = refl
total-count_row c (suc n) = omega arith

-- Every edge has one of the levels.
by_confidence :
    (es : List Edge)
    → length (keep (has_confidence conf_ambiguous) es)
        + (length (keep (has_confidence conf_exact) es)
            + (length (keep (has_confidence conf_name_match) es)
                + length (keep (has_confidence conf_unknown) es)))
      ≡ length es
by_confidence [] = refl
by_confidence (e ∷ es) = go e.confidence refl (by_confidence es)
  where
    go :
        (c : Confidence)
        → e.confidence ≡ c
        → (length (keep (has_confidence conf_ambiguous) es)
              + (length (keep (has_confidence conf_exact) es)
                  + (length (keep (has_confidence conf_name_match) es)
                      + length (keep (has_confidence conf_unknown) es)))
            ≡ length es)
        → length (keep (has_confidence conf_ambiguous) (e ∷ es))
            + (length (keep (has_confidence conf_exact) (e ∷ es))
                + (length (keep (has_confidence conf_name_match) (e ∷ es))
                    + length (keep (has_confidence conf_unknown) (e ∷ es))))
          ≡ suc (length es)
    go conf_ambiguous q h = rw q (omega (arith, h))
    go conf_exact q h = rw q (omega (arith, h))
    go conf_name_match q h = rw q (omega (arith, h))
    go conf_unknown q h = rw q (omega (arith, h))

length-values : (m : List (EdgeKey × Edge)) → length (values m) ≡ length m
length-values [] = refl
length-values ((k, e) ∷ m) = omega (arith, length-values m)

total-rows :
    (a b c d : ℕ)
    → total (
        count_row conf_ambiguous a
        ++ count_row conf_exact b
        ++ count_row conf_name_match c
        ++ count_row conf_unknown d)
      ≡ a + (b + (c + d))
total-rows a b c d = omega (
  arith,
  total-append (count_row conf_ambiguous a ++ count_row conf_exact b ++ count_row conf_name_match c)
      (count_row conf_unknown d),
  total-append (count_row conf_ambiguous a ++ count_row conf_exact b) (count_row conf_name_match c),
  total-append (count_row conf_ambiguous a) (count_row conf_exact b),
  total-append (count_row conf_ambiguous a)
      (count_row conf_exact b ++ count_row conf_name_match c ++ count_row conf_unknown d),
  total-append (count_row conf_exact b) (count_row conf_name_match c ++ count_row conf_unknown d),
  total-append (count_row conf_name_match c) (count_row conf_unknown d),
  total-count_row conf_ambiguous a,
  total-count_row conf_exact b,
  total-count_row conf_name_match c,
  total-count_row conf_unknown d,
)

-- The edges that the confidence levels count add up to the number of edges that Counts gives.
pub total-confidence_counts : (db : Db) → total (confidence_counts db) ≡ (counts db).1
unfolding confidence_counts confidence_count counts
total-confidence_counts db =
    total-rows _ _ _ _ ∙ by_confidence (values db.edges) ∙ length-values db.edges
