-- ===== src/Archlint/Layers.antt =====
-- pkg/archlint/linter.go: the layer of a file.
use graph_context.Base.{
  ℕ, ◌+◌, ◌≡◌, refl, sym, ap, ◌∙◌, List, [], ◌∷◌, ◌++◌, ◌↔◌, Str, Bool, true, false, none, some,
  All, length, Bool-cases, inl, inr, arith,
}
use mathlib.Core.Option.{some-injective, none-ne-some}
use graph_context.Archlint.{match_path_pattern, find_layer}

module _ (glob : Str → Str → Bool) where
  -- The layer l with the index i matches the path, and no layer before it does.
  pub record IsLayer (layers : List Str) (path : Str) (from i : ℕ) (l : Str) : Type 0 where
    pub before : List Str
    pub after : List Str
    pub split : layers ≡ before ++ l ∷ after
    pub index : i ≡ from + length before
    pub matches : match_path_pattern glob l path ≡ true
    pub none_before : All (λ m. match_path_pattern glob m path ≡ false) before

  -- findLayerIndex finds the first layer that matches the path, and finds none exactly if none does.
  pub find_layer_lem :
      (from : ℕ) (layers : List Str) (path : Str)
      → ((i : ℕ) (l : Str)
          → find_layer glob from layers path ≡ some (i, l)
          → IsLayer layers path from i l)
        × ((find_layer glob from layers path ≡ none)
            ↔ All (λ m. match_path_pattern glob m path ≡ false) layers)
  unfolding find_layer
  find_layer_lem from [] path = (λ i l q. absurd (none-ne-some _ q), (λ q. tt, λ h. refl))
  find_layer_lem from (m ∷ layers) path =
      let (there, nothing) = find_layer_lem (from + 1) layers path in
      elim (Bool-cases (match_path_pattern glob m path)) [
        | inl t ↦ rw t (
          λ i l q.
              let same = some-injective (from, m) (i, l) q in
              record {
                before = [];
                after = layers;
                split = λ k. (same k).1 ∷ layers;
                index = sym (ap (λ (x : ℕ × Str). x.0) same) ∙ (omega arith);
                matches = ap (λ (x : ℕ × Str). match_path_pattern glob x.1 path) (sym same) ∙ t;
                none_before = tt;
              },
          (λ q. absurd (cc), λ h. let clash : true ≡ false = h.0 in absurd (cc)),
        )
        | inr f ↦ rw f (
          λ i l q.
              let r = there i l q in
              record {
                before = m ∷ r.before;
                after = r.after;
                split = ap (λ ls. m ∷ ls) r.split;
                index = omega (arith, r.index);
                matches = r.matches;
                none_before = (f, r.none_before);
              },
          (λ q. (refl, nothing.0 q), λ h. nothing.1 h.1),
        )
      ]
