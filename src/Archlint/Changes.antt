-- ===== src/Archlint/Changes.antt =====
-- pkg/archlint/linter.go: what LintDiff reports, LintGraph does.
use graph_context.Base.{
  ◌≡◌, refl, List, [], ◌∷◌, ◌++◌, Str, str_eq, Bool, true, false, not, ◌||◌, Option, none, some,
  lookup, get_list, contains, Memᴰ, Memᴰ-sort_by, not-Memᴰ-nil, mem_of_lookup, if◌then◌else◌, inl,
  inr,
}
use mathlib.Core.List.Memᴰ
use graph_context.Store.Types.{Edge}
use graph_context.Analysis.Graph.{Graph}
use graph_context.Diff.Mapper.{ChangedSymbol}
use graph_context.Archlint.{
  RuleSet, Violation, is_dependency, evaluate_edge, violation_less, lint_graph, edge_mark, lint_new,
  lint_changed, lint_diff,
}
use graph_context.Archlint.Correct.{Breach, Holds, Memᴰ-evaluate_edge, lint_graph_lem}

module _ (glob : Str → Str → Bool) (g : Graph) (rules : RuleSet) (v : Violation) where
  abbrev pub Reported : List Edge → Type 0
  Reported es = (e : Edge) × Memᴰ e es × (is_dependency e.kind ≡ true) × Breach glob g rules e v

  Memᴰ-lint_new :
      (seen : List Str) (es : List Edge) → Memᴰ v (lint_new glob g rules seen es).0 → Reported es
  unfolding lint_new
  Memᴰ-lint_new seen [] m = absurd (not-Memᴰ-nil m)
  Memᴰ-lint_new seen (e ∷ es) m =
      go (is_dependency e.kind) refl (contains seen (edge_mark glob e)) (Memᴰ-lint_new seen es)
        (Memᴰ-lint_new (edge_mark glob e ∷ seen) es) m
    where
      later : Reported es → Reported (e ∷ es)
      later (x, at, k, b) = (x, Memᴰ.tail at, k, b)

      go :
          (d : Bool)
          → is_dependency e.kind ≡ d
          → (c : Bool) → (Memᴰ v (lint_new glob g rules seen es).0 → Reported es)
          → (Memᴰ v (lint_new glob g rules (edge_mark glob e ∷ seen) es).0 → Reported es)
          → Memᴰ v
              (if not d || c then lint_new glob g rules seen es else (
                evaluate_edge glob g rules e
                    ++ (lint_new glob g rules (edge_mark glob e ∷ seen) es).0,
                (lint_new glob g rules (edge_mark glob e ∷ seen) es).1,
              )).0
          → Reported (e ∷ es)
      go false q c skip mark m = later (skip m)
      go true q true skip mark m = later (skip m)
      go true q false skip mark m = elim (Memᴰ.append_cases (evaluate_edge glob g rules e) m) [
        | inl l ↦ (e, Memᴰ.head refl, q, (Memᴰ-evaluate_edge glob g rules e v).0 l)
        | inr r ↦ later (mark r)
      ]

  Holds-get_list : (e : Edge) (k : Str) → Memᴰ e (get_list k g.out) → Holds glob g.out e
  Holds-get_list e k m = go (lookup k g.out) refl m
    where
      go :
          (o : Option (List Edge))
          → lookup k g.out ≡ o
          → Memᴰ e (elim o [ none ↦ [] | some vs ↦ vs ])
          → Holds glob g.out e
      go none q h = absurd (not-Memᴰ-nil h)
      go (some es) q h = ((k, es), mem_of_lookup k es g.out q, h)

  Memᴰ-lint_changed :
      (seen : List Str) (cs : List ChangedSymbol)
      → Memᴰ v (lint_changed glob g rules seen cs)
      → (c : ChangedSymbol) × Memᴰ c cs × Reported (get_list c.node.id g.out)
  unfolding lint_changed
  Memᴰ-lint_changed seen [] m = absurd (not-Memᴰ-nil m)
  Memᴰ-lint_changed seen (c ∷ cs) m =
      let r = lint_new glob g rules seen (get_list c.node.id g.out) in
      elim (Memᴰ.append_cases r.0 m) [
        | inl l ↦ (c, Memᴰ.head refl, Memᴰ-lint_new seen (get_list c.node.id g.out) l)
        | inr t ↦ let (x, at, rep) = Memᴰ-lint_changed r.1 cs t in (x, Memᴰ.tail at, rep)
      ]

  -- Every violation that LintDiff reports is of an edge that leaves a changed symbol, and LintGraph
  -- reports it too.
  pub lint_diff-lint_graph :
      (changed : List ChangedSymbol)
      → Memᴰ v (lint_diff glob changed g rules)
      → ((c : ChangedSymbol) × Memᴰ c changed × Reported (get_list c.node.id g.out))
        × Memᴰ v (lint_graph glob g rules)
  unfolding lint_diff
  lint_diff-lint_graph changed m =
      let found =
        Memᴰ-lint_changed [] changed
          ((Memᴰ-sort_by (violation_less glob) v (lint_changed glob g rules [] changed)).0 m) in
      let (c, among, (e, at, k, b)) = found in
      (found, (lint_graph_lem glob g rules v).1 (e, Holds-get_list e c.node.id at, k, b))
