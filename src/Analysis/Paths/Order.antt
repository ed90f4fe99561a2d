-- ===== src/Analysis/Paths/Order.antt =====
-- pkg/analysis/paths.go: the order of the paths.
use graph_context.Base.{
  ◌≡◌, refl, List, [], ◌∷◌, Str, str_eq, str_lt-asym, str_lt-chain, str_lt-connex, true, false,
  length, IsOrder, eq_iff, arith,
}
use graph_context.Analysis.Paths.{lex_less, path_less}

lex_less-asym : (p q : List Str) → lex_less p q ≡ true → lex_less q p ≡ false
unfolding lex_less
lex_less-asym [] q h = ground arith
lex_less-asym (a ∷ p) [] h = refl
lex_less-asym (a ∷ p) (b ∷ q) h =
    ground (arith, lex_less-asym p q, eq_iff a b, eq_iff b a, str_lt-asym a b)

lex_less-chain :
    (p q r : List Str)
    → length p ≡ length q
    → length q ≡ length r
    → lex_less q p ≡ false
    → lex_less r q ≡ false
    → lex_less r p ≡ false
unfolding lex_less
lex_less-chain p q [] pq qr h k = refl
lex_less-chain [] q (c ∷ r) pq qr h k = refl
lex_less-chain (a ∷ p) [] (c ∷ r) pq qr h k = absurd (omega arith)
lex_less-chain (a ∷ p) (b ∷ q) (c ∷ r) pq qr h k = ground (
  arith,
  lex_less-chain p q r (omega arith) (omega arith),
  eq_iff a b,
  eq_iff b a,
  eq_iff b c,
  eq_iff c b,
  eq_iff a c,
  eq_iff c a,
  str_lt-chain a b c,
  str_lt-connex a b,
  str_lt-connex b c,
  str_lt-connex a c,
)

path_less-chain :
    (p q r : List Str) → path_less q p ≡ false → path_less r q ≡ false → path_less r p ≡ false
unfolding path_less
path_less-chain p q r h k = ground (arith, lex_less-chain p q r)

pub path_less-IsOrder : IsOrder path_less
path_less-IsOrder = record {
  asym = λ p q h. unfold path_less in ground (arith, lex_less-asym p q);
  chain = path_less-chain;
}
