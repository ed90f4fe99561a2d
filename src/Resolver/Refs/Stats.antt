-- ===== src/Resolver/Refs/Stats.antt =====
-- pkg/resolver/resolver.go: every reference is counted in one of the four ways.
use graph_context.Base.{
  ℕ, suc, ◌+◌, ◌≡◌, refl, List, [], ◌∷◌, Str, length, contains, Bool-cases, inl, inr, arith, str_eq,
}
use graph_context.Lang.Ir.{LangIr, Ref}
use graph_context.Resolver.Index.{Index}
use graph_context.Resolver.Refs.{
  Targets, exactly, by_bare_name, several, nowhere, resolve_ref, ResolutionStats, Progress,
  external_id, ext_node, settle, count_ref, resolve_refs, resolve_files,
}

abbrev pub counted : ResolutionStats → ℕ
counted s = s.exact + s.ambiguous + s.name_match + s.unknown

-- The number of references of the files.
abbrev pub ref_count : List LangIr → ℕ
ref_count [] = 0
ref_count (f ∷ fs) = length f.refs + ref_count fs

-- The counts, of all references and by their kind, after n more.
pub record Counts (n : ℕ) (s t : ResolutionStats) : Type 0 where
  pub total : t.total_refs ≡ s.total_refs + n
  pub kinds : counted t ≡ counted s + n

pub Counts-zero : (s : ResolutionStats) → Counts 0 s s
Counts-zero s = record { total = omega arith; kinds = omega arith }

pub Counts-trans :
    (n m : ℕ) (s t u : ResolutionStats) → Counts n s t → Counts m t u → Counts (n + m) s u
Counts-trans n m s t u h k = record {
  total = omega (arith, h.total, k.total);
  kinds = omega (arith, h.kinds, k.kinds);
}

Counts-suc : (n : ℕ) (s t u : ResolutionStats) → Counts 1 s t → Counts n t u → Counts (suc n) s u
Counts-suc n s t u h k = record {
  total = omega (arith, h.total, k.total);
  kinds = omega (arith, h.kinds, k.kinds);
}

stats-ext_node : (name : Str) (p : Progress) → (ext_node name p).stats ≡ p.stats
unfolding ext_node
stats-ext_node name p = elim (Bool-cases (contains p.seen_ext (external_id name))) [
  | inl t ↦ rw t refl
  | inr f ↦ rw f refl
]

Counts-settle :
    (r : Ref) (t : Targets) (p : Progress) → Counts 1 p.stats (settle r t (count_ref p)).stats
unfolding settle
Counts-settle r (exactly id) p = record { total = refl; kinds = omega arith }
Counts-settle r (by_bare_name id) p = record { total = refl; kinds = omega arith }
Counts-settle r (several ns) p = record { total = refl; kinds = omega arith }
Counts-settle r (nowhere name) p = record {
  total = rw (stats-ext_node name (count_ref p)) refl;
  kinds = rw (stats-ext_node name (count_ref p)) (omega arith);
}

module _ (idx : Index) where
  Counts-resolve_refs :
      (path : Str) (rs : List Ref) (p : Progress)
      → Counts (length rs) p.stats (resolve_refs idx path rs p).stats
  unfolding resolve_refs
  Counts-resolve_refs path [] p = Counts-zero p.stats
  Counts-resolve_refs path (r ∷ rs) p =
      let q = settle r (resolve_ref idx path r) (count_ref p) in
      Counts-suc (length rs) p.stats q.stats (resolve_refs idx path rs q).stats
        (Counts-settle r (resolve_ref idx path r) p) (Counts-resolve_refs path rs q)

  pub Counts-resolve_files :
      (fs : List LangIr) (p : Progress)
      → Counts (ref_count fs) p.stats (resolve_files idx fs p).stats
  unfolding resolve_files
  Counts-resolve_files [] p = Counts-zero p.stats
  Counts-resolve_files (f ∷ fs) p =
      let q = resolve_refs idx f.path f.refs p in
      Counts-trans (length f.refs) (ref_count fs) p.stats q.stats (resolve_files idx fs q).stats
        (Counts-resolve_refs f.path f.refs p) (Counts-resolve_files fs q)
