-- ===== src/Lang/Registry/Laws.antt =====
-- pkg/lang/lang.go: no plugin takes the extension of another.
use graph_context.Base.{
  ◌≡◌, refl, sym, ap, List, [], ◌∷◌, Str, str_eq, false, none, some, lookup, insert, lookup-insert,
  to_lower, file_ext, map, contains, if◌then◌else◌, eq_iff, Option-cases, inl, inr, ◌↔◌, arith,
}
use mathlib.Core.Option.{some-injective}
use graph_context.Lang.Registry.{Language, Registry, register_all, register, language_for}

-- The extensions are free in the registry, and no two of them are the same in lower case.
abbrev pub AreFree : List Str → Registry → Type 0
AreFree [] r = Unit
AreFree (x ∷ xs) r =
    (lookup (to_lower x) r ≡ none)
    × (contains (map to_lower xs) (to_lower x) ≡ false)
    × AreFree xs r

AreFree-insert :
    (l : Language) (k : Str) (xs : List Str) (r : Registry)
    → contains (map to_lower xs) k ≡ false
    → AreFree xs r ↔ AreFree xs (insert k l r)
AreFree-insert l k [] r h = (λ f. f, λ f. f)
AreFree-insert l k (x ∷ xs) r h = ground (
  arith,
  lookup-insert k (to_lower x) l r,
  AreFree-insert l k xs r,
  eq_iff k (to_lower x),
  eq_iff (to_lower x) k,
)

contains-AreFree :
    (l : Language) (k : Str) (xs : List Str) (r : Registry)
    → AreFree xs (insert k l r)
    → contains (map to_lower xs) k ≡ false
contains-AreFree l k [] r f = refl
contains-AreFree l k (x ∷ xs) r f = ground (
  arith,
  lookup-insert k (to_lower x) l r,
  contains-AreFree l k xs r,
  eq_iff k (to_lower x),
  eq_iff (to_lower x) k,
)

module _ (l : Language) where
  register_all-returns :
      (xs : List Str) (r : Registry)
      → AreFree xs r
      → (s : Registry) × (register_all l xs r ≡ some s)
  unfolding register_all
  register_all-returns [] r f = (r, refl)
  register_all-returns (x ∷ xs) r (a, b, f) =
      rw (a, register_all)
        (register_all-returns xs (insert (to_lower x) l r)
          ((AreFree-insert l (to_lower x) xs r b).0 f))

  register_all-AreFree :
      (xs : List Str) (r s : Registry) → register_all l xs r ≡ some s → AreFree xs r
  unfolding register_all
  register_all-AreFree [] r s q = tt
  register_all-AreFree (x ∷ xs) r s q = elim (Option-cases (lookup (to_lower x) r)) [
    | inl n ↦
        let rest =
          register_all-AreFree xs (insert (to_lower x) l r) s (rw (n, register_all) at q) in
        let other = contains-AreFree l (to_lower x) xs r rest in
        (n, other, (AreFree-insert l (to_lower x) xs r other).1 rest)
    | inr (m, y) ↦ cc (rw (y, register_all) at q)
  ]

  lookup-register_all :
      (xs : List Str) (r s : Registry) (k : Str)
      → register_all l xs r ≡ some s
      → lookup k s ≡ (if contains (map to_lower xs) k then some l else lookup k r)
  unfolding register_all
  lookup-register_all [] r s k q = ap (lookup k) (sym (some-injective r s q))
  lookup-register_all (x ∷ xs) r s k q = elim (Option-cases (lookup (to_lower x) r)) [
    | inl n ↦ ground (
      arith,
      lookup-register_all xs (insert (to_lower x) l r) s k (rw (n, register_all) at q),
      lookup-insert (to_lower x) k l r,
    )
    | inr (m, y) ↦ cc (rw (y, register_all) at q)
  ]

-- Register returns exactly when each of the plugin's extensions, in lower case, is free and given
-- once. Else it panics.
pub register_iff :
    (l : Language) (r : Registry)
    → ((s : Registry) × (register l r ≡ some s)) ↔ AreFree l.extensions r
unfolding register
register_iff l r =
    (λ (s, q). register_all-AreFree l l.extensions r s q, register_all-returns l l.extensions r)

-- After Register has returned, the plugin is the one for the paths with one of its extensions, and
-- for all other paths it is the one that was.
pub language_for-register :
    (l : Language) (r s : Registry) (path : Str)
    → register l r ≡ some s
    → language_for s path ≡ (
        if contains (map to_lower l.extensions) (to_lower (file_ext path))
        then some l
        else language_for r path)
unfolding register language_for
language_for-register l r s path q =
    lookup-register_all l l.extensions r s (to_lower (file_ext path)) q
