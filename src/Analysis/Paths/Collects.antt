-- ===== src/Analysis/Paths/Collects.antt =====
-- pkg/analysis/paths.go: what a part of the search adds to the paths.
use graph_context.Base.{
  ℕ, ◌≤◌, ◌≡◌, List, [], ◌∷◌, ◌++◌, Str, str_eq, true, false, length, length-append, ◌<◌, Memᴰ,
  Memᴰ-concat, ◌⊎◌, inl, inr, ⊎_elim, ◌↔◌, arith,
}
use graph_context.Analysis.Paths.{Found}

-- From one state to the next, paths that meet P are added, up to the limit, and all of them unless
-- the search was cut.
pub record Collects (limit : ℕ) (P : List Str → Type 0) (a b : Found) : Type 0 where
  pub sound : (p : List Str) → Memᴰ p b.paths → Memᴰ p a.paths ⊎ P p
  pub keeps : (p : List Str) → Memᴰ p a.paths → Memᴰ p b.paths
  pub short : length a.paths ≤ limit → length b.paths ≤ limit
  pub cut :
      (a.truncated ≡ true → limit ≤ length a.paths) → b.truncated ≡ true → limit ≤ length b.paths
  pub stays : b.truncated ≡ false → a.truncated ≡ false
  pub full : b.truncated ≡ false → (p : List Str) → P p → Memᴰ p b.paths

module _ (limit : ℕ) where
  pub Collects-then :
      (P Q : List Str → Type 0) (a b c : Found)
      → Collects limit P a b
      → Collects limit Q b c
      → Collects limit (λ p. P p ⊎ Q p) a c
  Collects-then P Q a b c h k = record {
    sound = λ p m. elim (k.sound p m) [
      | inr q ↦ inr (inr q)
      | inl n ↦ elim (h.sound p n) [ inl o ↦ inl o | inr q ↦ inr (inl q) ]
    ];
    keeps = λ p m. k.keeps p (h.keeps p m);
    short = λ s. k.short (h.short s);
    cut = λ s t. k.cut (h.cut s) t;
    stays = λ f. h.stays (k.stays f);
    full = λ f p. ⊎_elim (λ x. k.keeps p (h.full (k.stays f) p x)) (k.full f p);
  }

  pub Collects-as :
      (P Q : List Str → Type 0) (a b : Found)
      → ((p : List Str) → P p ↔ Q p)
      → Collects limit P a b
      → Collects limit Q a b
  Collects-as P Q a b pq h = record {
    sound = λ p m. ⊎_elim inl (λ x. inr ((pq p).0 x)) (h.sound p m);
    keeps = h.keeps;
    short = h.short;
    cut = h.cut;
    stays = h.stays;
    full = λ f p q. h.full f p ((pq p).1 q);
  }

  pub Collects-none :
      (P : List Str → Type 0) (a : Found) → ((p : List Str) → ¬ P p) → Collects limit P a a
  Collects-none P a never = record {
    sound = λ p m. inl m;
    keeps = λ p m. m;
    short = λ s. s;
    cut = λ s t. s t;
    stays = λ f. f;
    full = λ f p x. absurd (never p x);
  }

  pub Collects-cut :
      (P : List Str → Type 0) (a : Found)
      → limit ≤ length a.paths
      → Collects limit P a (record a { truncated = true })
  Collects-cut P a h = record {
    sound = λ p m. inl m;
    keeps = λ p m. m;
    short = λ s. s;
    cut = λ s t. h;
    stays = λ f. absurd (ground arith);
    full = λ f p x. absurd (ground arith);
  }

  pub Collects-one :
      (P : List Str → Type 0) (a : Found) (q : List Str)
      → length a.paths < limit
      → ((p : List Str) → P p ↔ (p ≡ q))
      → Collects limit P a (record a { paths = a.paths ++ q ∷ [] })
  Collects-one P a q h one = record {
    sound = λ p m. ⊎_elim inl (λ e. inr ((one p).1 e)) ((Memᴰ-concat p q a.paths).0 m);
    keeps = λ p m. (Memᴰ-concat p q a.paths).1 (inl m);
    short = λ s. omega (arith, length-append a.paths (q ∷ []));
    cut = λ s t. let more = s t in omega (arith, length-append a.paths (q ∷ []));
    stays = λ f. f;
    full = λ f p x. (Memᴰ-concat p q a.paths).1 (inr ((one p).0 x));
  }
