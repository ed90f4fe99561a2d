-- ===== src/Resolver/Refs/Known.antt =====
-- pkg/resolver/resolver.go: a target that is found is a node of the index.
use graph_context.Base.{
  ◌≡◌, refl, List, [], ◌∷◌, ◌++◌, Str, str_eq, Option, none, some, lookup, get_list, lookup2, keep,
  All, All-keep, AllValues-lookup, AllValues-get_list, AllRows-lookup2, Bool-cases, inl, inr,
}
use graph_context.Store.Types.{Node}
use graph_context.Lang.Ir.{Ref}
use graph_context.Resolver.Index.{Index, is_method}
use graph_context.Resolver.Index.Rooted.{HasId, In, Rooted}
use graph_context.Resolver.Types.{resolve_receiver_type, find_method_in_hierarchy}
use graph_context.Resolver.Types.Members.{All-find_method_in_hierarchy}
use graph_context.Resolver.Refs.{
  Targets, exactly, by_bare_name, several, nowhere, of_candidates, is_base_kind, only_one,
  resolve_base, by_name_of, resolve_plain, resolve_bare_method, resolve_alias, of_type,
  resolve_member, by_receiver, resolve_ref,
}

abbrev pub Known : List Node → Targets → Type 0
Known ns (exactly id) = HasId ns id
Known ns (by_bare_name id) = HasId ns id
Known ns (several ms) = All (In ns) ms
Known ns (nowhere name) = Unit

of_candidates-Known :
    (ns : List Node) (single : Str → Targets) (ms : List Node) (otherwise : Targets)
    → ((n : Node) → In ns n → Known ns (single n.id))
    → All (In ns) ms
    → Known ns otherwise
    → Known ns (of_candidates single ms otherwise)
of_candidates-Known ns single [] otherwise f h k = k
of_candidates-Known ns single (n ∷ []) otherwise f h k = f n h.0
of_candidates-Known ns single (n ∷ m ∷ ms) otherwise f h k = h

module _ (idx : Index) (h : Rooted idx) (path : Str) (r : Ref) where
  bound : (p : Str) (id : Str) → lookup2 p r.name idx.bindings ≡ some id → HasId idx.nodes id
  bound p id q = AllRows-lookup2 (HasId idx.nodes) p r.name id idx.bindings h.bindings q

  declared : (p : Str) (n : Node) → lookup2 p r.name idx.in_file ≡ some n → HasId idx.nodes n.id
  declared p n q = (n, AllRows-lookup2 (In idx.nodes) p r.name n idx.in_file h.in_file q, refl)

  only_one-Known :
      (ms : List Node) (otherwise : Targets)
      → All (In idx.nodes) ms
      → Known idx.nodes otherwise
      → Known idx.nodes (only_one ms otherwise)
  only_one-Known [] otherwise a k = k
  only_one-Known (n ∷ []) otherwise a k = (n, a.0, refl)
  only_one-Known (n ∷ m ∷ ms) otherwise a k = k

  resolve_base-Known : Known idx.nodes (resolve_base idx path r)
  unfolding resolve_base
  resolve_base-Known = go (lookup2 path r.name idx.bindings) refl
    where
      inner :
          (o : Option Node)
          → lookup2 path r.name idx.in_file ≡ o
          → Known idx.nodes (elim o [
            | some n ↦ exactly n.id
            | none ↦ only_one (get_list r.name idx.by_name) (nowhere r.name)
          ])
      inner none q =
          only_one-Known (get_list r.name idx.by_name) (nowhere r.name)
            (AllValues-get_list (In idx.nodes) r.name idx.by_name h.by_name) tt
      inner (some n) q = declared path n q

      go :
          (o : Option Str)
          → lookup2 path r.name idx.bindings ≡ o
          → Known idx.nodes (elim o [
            | some id ↦ exactly id
            | none ↦ elim (lookup2 path r.name idx.in_file) [
              | some n ↦ exactly n.id
              | none ↦ only_one (get_list r.name idx.by_name) (nowhere r.name)
            ]
          ])
      go none q = inner (lookup2 path r.name idx.in_file) refl
      go (some id) q = bound path id q

  by_name_of-Known :
      (o : Option (List Node))
      → ((ns : List Node) → o ≡ some ns → All (In idx.nodes) ns)
      → Known idx.nodes (by_name_of o r.name)
  by_name_of-Known none f = tt
  by_name_of-Known (some []) f = tt
  by_name_of-Known (some (n ∷ [])) f = (n, (f (n ∷ []) refl).0, refl)
  by_name_of-Known (some (n ∷ m ∷ ms)) f = f (n ∷ m ∷ ms) refl

  resolve_plain-Known : Known idx.nodes (resolve_plain idx path r)
  unfolding resolve_plain
  resolve_plain-Known = go (lookup2 path r.name idx.in_file) refl
    where
      inner :
          (o : Option Str)
          → lookup2 path r.name idx.bindings ≡ o
          → Known idx.nodes (elim o [
            | some id ↦ exactly id
            | none ↦ by_name_of (lookup r.name idx.by_name) r.name
          ])
      inner none q =
          by_name_of-Known (lookup r.name idx.by_name)
            (λ ns e. AllValues-lookup (All (In idx.nodes)) r.name ns idx.by_name h.by_name e)
      inner (some id) q = bound path id q

      go :
          (o : Option Node)
          → lookup2 path r.name idx.in_file ≡ o
          → Known idx.nodes (elim o [
            | some n ↦ exactly n.id
            | none ↦ elim (lookup2 path r.name idx.bindings) [
              | some id ↦ exactly id
              | none ↦ by_name_of (lookup r.name idx.by_name) r.name
            ]
          ])
      go none q = inner (lookup2 path r.name idx.bindings) refl
      go (some n) q = declared path n q

  resolve_bare_method-Known : Known idx.nodes (resolve_bare_method idx r)
  unfolding resolve_bare_method
  resolve_bare_method-Known =
      let ms = get_list r.name idx.by_name in
      of_candidates-Known idx.nodes by_bare_name (keep (λ n. is_method n.kind) ms)
        (nowhere (r.receiver ++ b'.' ∷ r.name)) (λ n m. (n, m, refl))
        (All-keep (In idx.nodes) (λ n. is_method n.kind) ms
          (AllValues-get_list (In idx.nodes) r.name idx.by_name h.by_name))
        tt

  resolve_alias-Known : Known idx.nodes (resolve_alias idx path r)
  unfolding resolve_alias
  resolve_alias-Known = go (lookup2 path r.receiver idx.import_aliases)
    where
      inner :
          (target : Str) (o : Option Node)
          → lookup2 target r.name idx.in_file ≡ o
          → Known idx.nodes (elim o [ some n ↦ exactly n.id | none ↦ resolve_bare_method idx r ])
      inner target none q = resolve_bare_method-Known
      inner target (some n) q = declared target n q

      go :
          (o : Option Str)
          → Known idx.nodes (elim o [
            | none ↦ resolve_bare_method idx r
            | some target ↦ elim (lookup2 target r.name idx.in_file) [
              | some n ↦ exactly n.id
              | none ↦ resolve_bare_method idx r
            ]
          ])
      go none = resolve_bare_method-Known
      go (some target) = inner target (lookup2 target r.name idx.in_file) refl

  of_type-Known : (t : Str) → Known idx.nodes (of_type idx path r t)
  of_type-Known [] = resolve_alias-Known
  of_type-Known (c ∷ t) =
      of_candidates-Known idx.nodes exactly (find_method_in_hierarchy idx (c ∷ t) r.name)
        (resolve_alias idx path r) (λ n m. (n, m, refl))
        (All-find_method_in_hierarchy idx h r.name (c ∷ t)) resolve_alias-Known

  by_receiver-Known : (rec : Str) → Known idx.nodes (by_receiver idx path r rec)
  unfolding resolve_member
  by_receiver-Known [] = resolve_plain-Known
  by_receiver-Known (c ∷ s) = of_type-Known (resolve_receiver_type idx r.from_id r.receiver)

  pub resolve_ref-Known : Known idx.nodes (resolve_ref idx path r)
  unfolding resolve_ref
  resolve_ref-Known = elim (Bool-cases (is_base_kind r.kind)) [
    | inl t ↦ rw t resolve_base-Known
    | inr f ↦ rw f (by_receiver-Known r.receiver)
  ]
