-- ===== src/Archlint/Correct.antt =====
-- pkg/archlint/linter.go: a violation is reported exactly for an edge that breaks a rule.
use graph_context.Base.{
  ℕ, ◌≡◌, refl, sym, ap, ◌∙◌, subst, List, [], ◌∷◌, ◌⊎◌, ◌↔◌, Str, str_eq, bytes, Bool, true, false,
  Option, none, some, lookup, Memᴰ, Memᴰ-sort_by, not-Memᴰ-nil, ltb, ◌==◌, Bool-cases, inl, inr,
}
use mathlib.Core.List.Memᴰ
use mathlib.Core.Option.{some-injective, none-ne-some}
use graph_context.Store.Types.{Node, Edge}
use graph_context.Analysis.Graph.{Graph}
use graph_context.Archlint.{
  ForbiddenRule, RuleSet, Violation, is_dependency, find_layer, violation_of, message_of, breaks,
  forbidden_violations, layer_message, inversion, judge, evaluate_edge, lint_edges, lint_rows,
  violation_less, lint_graph,
}

module _ (glob : Str → Str → Bool) where
  -- An edge breaks a rule that forbids it.
  abbrev pub Forbidden : RuleSet → Edge → Node → Node → Violation → Type 0
  Forbidden rules e src tgt v =
      (r : ForbiddenRule) × Memᴰ r rules.forbidden
      × (breaks glob r src tgt ≡ true)
      × (v ≡ violation_of glob (bytes "forbidden") (message_of glob r) e src tgt)

  -- An edge leads from a later layer to an earlier one.
  abbrev pub Inverted : RuleSet → Edge → Node → Node → Violation → Type 0
  Inverted rules e src tgt v =
      (i : ℕ) × (l : Str) × (j : ℕ) × (m : Str) × (find_layer glob 0 rules.layers src.file_path
        ≡ some (i, l))
      × (find_layer glob 0 rules.layers tgt.file_path ≡ some (j, m))
      × (ltb j i ≡ true)
      × (v ≡ violation_of glob (bytes "layer_inversion") (layer_message glob l m) e src tgt)

  abbrev pub Breach : Graph → RuleSet → Edge → Violation → Type 0
  Breach g rules e v =
      (src : Node) × (tgt : Node) × (lookup e.source_id g.nodes ≡ some src)
      × (lookup e.target_id g.nodes ≡ some tgt)
      × ((src.file_path == tgt.file_path) ≡ false)
      × (Forbidden rules e src tgt v ⊎ Inverted rules e src tgt v)

  Memᴰ-forbidden_violations :
      (rs : List ForbiddenRule) (ls : List Str) (e : Edge) (src tgt : Node) (v : Violation)
      → Memᴰ v (forbidden_violations glob rs e src tgt)
        ↔ Forbidden (record { forbidden = rs; layers = ls }) e src tgt v
  unfolding forbidden_violations
  Memᴰ-forbidden_violations [] ls e src tgt v =
      (λ m. absurd (not-Memᴰ-nil m), λ (r, m, b, q). absurd (not-Memᴰ-nil m))
  Memᴰ-forbidden_violations (r ∷ rs) ls e src tgt v =
      let (there, back) = Memᴰ-forbidden_violations rs ls e src tgt v in
      elim (Bool-cases (breaks glob r src tgt)) [
        | inl t ↦ rw t (
          λ m. elim (Memᴰ.cases_cons m) [
            | inl q ↦ (r, Memᴰ.head refl, t, q)
            | inr m' ↦ let (x, at, b, q) = there m' in (x, Memᴰ.tail at, b, q)
          ],
          λ (x, at, b, q). elim (Memᴰ.cases_cons at) [
            | inl same ↦ Memᴰ.head (
                q
                ∙ ap (λ y. violation_of glob (bytes "forbidden") (message_of glob y) e src tgt)
                    same)
            | inr at' ↦ Memᴰ.tail (back (x, at', b, q))
          ],
        )
        | inr f ↦ rw f (
          λ m. let (x, at, b, q) = there m in (x, Memᴰ.tail at, b, q),
          λ (x, at, b, q). elim (Memᴰ.cases_cons at) [
            | inl same ↦
                let clash : false ≡ true = sym f ∙ ap (λ y. breaks glob y src tgt) (sym same) ∙ b in
                absurd (cc)
            | inr at' ↦ back (x, at', b, q)
          ],
        )
      ]

  Memᴰ-inversion :
      (rules : RuleSet) (e : Edge) (src tgt : Node) (v : Violation)
      → Memᴰ v (
          inversion glob e src tgt
            (find_layer glob 0 rules.layers src.file_path)
            (find_layer glob 0 rules.layers tgt.file_path))
        ↔ Inverted rules e src tgt v
  Memᴰ-inversion rules e src tgt v =
      go (find_layer glob 0 rules.layers src.file_path)
        (find_layer glob 0 rules.layers tgt.file_path)
    where
      go :
          (a b : Option (ℕ × Str))
          → Memᴰ v (inversion glob e src tgt a b) ↔ (
              (i : ℕ) × (l : Str) × (j : ℕ) × (m : Str) × (a ≡ some (i, l))
              × (b ≡ some (j, m))
              × (ltb j i ≡ true)
              × (v
                  ≡ violation_of glob (bytes "layer_inversion") (layer_message glob l m) e src tgt))
      go none b =
          (λ m. absurd (not-Memᴰ-nil m), λ (i, l, j, m, p, q, t, x). absurd (none-ne-some _ p))
      go (some a) none =
          (λ m. absurd (not-Memᴰ-nil m), λ (i, l, j, m, p, q, t, x). absurd (none-ne-some _ q))
      go (some a) (some b) = elim (Bool-cases (ltb b.0 a.0)) [
        | inl t ↦ rw t (
          λ at. (a.0, a.1, b.0, b.1, refl, refl, t, Memᴰ.eq_of_singleton at),
          λ (i, l, j, m, p, q, u, x). Memᴰ.head (
              x
              ∙ ap
                  (λ (y : (ℕ × Str) × (ℕ × Str)).
                    violation_of glob (bytes "layer_inversion") (layer_message glob y.0.1 y.1.1) e
                      src tgt)
                  (λ k. (sym (some-injective a (i, l) p) k, sym (some-injective b (j, m) q) k))),
        )
        | inr f ↦ rw f (
          λ at. absurd (not-Memᴰ-nil at),
          λ (i, l, j, m, p, q, u, x).
              let clash : false ≡ true =
                sym f
                ∙ (λ k. ltb (some-injective b (j, m) q k).0 (some-injective a (i, l) p k).0)
                ∙ u in
              absurd (cc),
        )
      ]

  pub Memᴰ-evaluate_edge :
      (g : Graph) (rules : RuleSet) (e : Edge) (v : Violation)
      → Memᴰ v (evaluate_edge glob g rules e) ↔ Breach g rules e v
  unfolding evaluate_edge
  Memᴰ-evaluate_edge g rules e v = go (lookup e.source_id g.nodes) (lookup e.target_id g.nodes)
    where
      K : Node → Node → Type 0
      K src tgt =
          ((src.file_path == tgt.file_path) ≡ false)
          × (Forbidden rules e src tgt v ⊎ Inverted rules e src tgt v)

      both : (s t : Node) → Memᴰ v (judge glob rules e (some s) (some t)) ↔ K s t
      both s t = elim (Bool-cases (s.file_path == t.file_path)) [
        | inl y ↦
            rw y
              (λ m. absurd (not-Memᴰ-nil m), λ (d, o). let clash : true ≡ false = d in absurd (cc))
        | inr f ↦
            let forbids = Memᴰ-forbidden_violations rules.forbidden rules.layers e s t v in
            let inverts = Memᴰ-inversion rules e s t v in
            rw f (
              λ m. (
                refl,
                elim (Memᴰ.append_cases (forbidden_violations glob rules.forbidden e s t) m) [
                  | inl l ↦ inl (forbids.0 l)
                  | inr r ↦ inr (inverts.0 r)
                ],
              ),
              λ (d, o). elim o [
                | inl l ↦ Memᴰ.append_left _ (forbids.1 l)
                | inr r ↦
                    Memᴰ.append_right (forbidden_violations glob rules.forbidden e s t)
                      (inverts.1 r)
              ],
            )
      ]

      go :
          (a b : Option Node)
          → Memᴰ v (judge glob rules e a b) ↔ (
              (src : Node) × (tgt : Node) × (a ≡ some src)
              × (b ≡ some tgt)
              × ((src.file_path == tgt.file_path) ≡ false)
              × (Forbidden rules e src tgt v ⊎ Inverted rules e src tgt v))
      go none b = (λ m. absurd (not-Memᴰ-nil m), λ (s, t, p, q, d, o). absurd (none-ne-some _ p))
      go (some s) none =
          (λ m. absurd (not-Memᴰ-nil m), λ (x, t, p, q, d, o). absurd (none-ne-some _ q))
      go (some s) (some t) = (
        λ m. let (d, o) = (both s t).0 m in (s, t, refl, refl, d, o),
        λ (x, y, p, q, d, o). (both s t).1 (
            subst (λ z. K s z) (sym (some-injective t y q))
              (subst (λ z. K z y) (sym (some-injective s x p)) (d, o))),
      )

  Memᴰ-lint_edges :
      (g : Graph) (rules : RuleSet) (v : Violation) (es : List Edge)
      → Memᴰ v (lint_edges glob g rules es)
        ↔ ((e : Edge) × Memᴰ e es × (is_dependency e.kind ≡ true) × Breach g rules e v)
  unfolding lint_edges
  Memᴰ-lint_edges g rules v [] =
      (λ m. absurd (not-Memᴰ-nil m), λ (e, m, k, b). absurd (not-Memᴰ-nil m))
  Memᴰ-lint_edges g rules v (e ∷ es) =
      let (there, back) = Memᴰ-lint_edges g rules v es in
      let one = Memᴰ-evaluate_edge g rules e v in
      elim (Bool-cases (is_dependency e.kind)) [
        | inl t ↦ rw t (
          λ m. elim (Memᴰ.append_cases (evaluate_edge glob g rules e) m) [
            | inl l ↦ (e, Memᴰ.head refl, t, one.0 l)
            | inr r ↦ let (x, at, k, b) = there r in (x, Memᴰ.tail at, k, b)
          ],
          λ (x, at, k, b). elim (Memᴰ.cases_cons at) [
            | inl same ↦ Memᴰ.append_left _ (one.1 (subst (λ y. Breach g rules y v) same b))
            | inr at' ↦ Memᴰ.append_right (evaluate_edge glob g rules e) (back (x, at', k, b))
          ],
        )
        | inr f ↦ rw f (
          λ m. let (x, at, k, b) = there m in (x, Memᴰ.tail at, k, b),
          λ (x, at, k, b). elim (Memᴰ.cases_cons at) [
            | inl same ↦
                let clash : false ≡ true =
                  sym f ∙ ap (λ (y : Edge). is_dependency y.kind) (sym same) ∙ k in
                absurd (cc)
            | inr at' ↦ back (x, at', k, b)
          ],
        )
      ]

  -- An edge stands in a row of the map.
  abbrev pub Holds : List (Str × List Edge) → Edge → Type 0
  Holds rows e = (row : Str × List Edge) × Memᴰ row rows × Memᴰ e row.1

  Memᴰ-lint_rows :
      (g : Graph) (rules : RuleSet) (v : Violation) (rows : List (Str × List Edge))
      → Memᴰ v (lint_rows glob g rules rows)
        ↔ ((e : Edge) × Holds rows e × (is_dependency e.kind ≡ true) × Breach g rules e v)
  unfolding lint_rows
  Memᴰ-lint_rows g rules v [] =
      (λ m. absurd (not-Memᴰ-nil m), λ (e, (row, m, at), k, b). absurd (not-Memᴰ-nil m))
  Memᴰ-lint_rows g rules v ((key, es) ∷ rows) =
      let (there, back) = Memᴰ-lint_rows g rules v rows in
      let one = Memᴰ-lint_edges g rules v es in
      (
        λ m. elim (Memᴰ.append_cases (lint_edges glob g rules es) m) [
          | inl l ↦ let (e, at, k, b) = one.0 l in (e, ((key, es), Memᴰ.head refl, at), k, b)
          | inr r ↦
              let (e, (row, among, at), k, b) = there r in (e, (row, Memᴰ.tail among, at), k, b)
        ],
        λ (e, (row, among, at), k, b). elim (Memᴰ.cases_cons among) [
          | inl same ↦
              Memᴰ.append_left _
                (one.1 (e, subst (λ (r : Str × List Edge). Memᴰ e r.1) same at, k, b))
          | inr among' ↦
              Memᴰ.append_right (lint_edges glob g rules es) (back (e, (row, among', at), k, b))
        ],
      )

  -- LintGraph reports a violation exactly if it is that of an edge of the graph, of one of the kinds
  -- that are dependencies, between known nodes in different files, that breaks a rule which forbids it
  -- or leads from a later layer to an earlier one. A file is in the first layer that matches it.
  pub lint_graph_lem :
      (g : Graph) (rules : RuleSet) (v : Violation)
      → Memᴰ v (lint_graph glob g rules)
        ↔ ((e : Edge) × Holds g.out e × (is_dependency e.kind ≡ true) × Breach g rules e v)
  unfolding lint_graph
  lint_graph_lem g rules v =
      let sorted = Memᴰ-sort_by (violation_less glob) v (lint_rows glob g rules g.out) in
      let rows = Memᴰ-lint_rows g rules v g.out in
      (λ m. rows.0 (sorted.0 m), λ h. sorted.1 (rows.1 h))
