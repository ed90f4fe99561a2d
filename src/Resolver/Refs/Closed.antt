-- ===== src/Resolver/Refs/Closed.antt =====
-- pkg/resolver/resolver.go: every edge that is made enters a node.
use graph_context.Base.{
  ◌≡◌, refl, List, [], ◌∷◌, ◌++◌, ◌⊎◌, Str, str_eq, map, length, contains, contains_iff,
  Memᴰ-concat, All, All-imp, All-append, All-map, All-mem, Bool-cases, inl, inr, ⊎_elim,
}
use graph_context.Store.Types.{
  Node, Edge, conf_exact, conf_name_match, conf_ambiguous, conf_unknown,
}
use graph_context.Lang.Ir.{LangIr, Ref}
use graph_context.Resolver.Index.{Index}
use graph_context.Resolver.Index.Rooted.{HasId, In, Rooted}
use graph_context.Resolver.Refs.{
  Targets, exactly, by_bare_name, several, nowhere, resolve_ref, Progress, external_id,
  external_node, ext_node, edge_to, settle, count_ref, resolve_refs, resolve_files,
}
use graph_context.Resolver.Refs.Known.{Known, resolve_ref-Known}

abbrev pub Enters : List Node → List Node → Edge → Type 0
Enters ns ext e = HasId ns e.target_id ⊎ HasId ext e.target_id

abbrev pub IsExternal : Node → Type 0
IsExternal n = (name : Str) × (n ≡ external_node name)

pub record Closed (ns : List Node) (p : Progress) : Type 0 where
  pub edges : All (Enters ns p.ext_nodes) p.edges
  pub seen : All (HasId p.ext_nodes) p.seen_ext
  pub ext : All IsExternal p.ext_nodes

ext_node-Closed :
    (ns : List Node) (name : Str) (p : Progress) → Closed ns p → Closed ns (ext_node name p)
unfolding ext_node
ext_node-Closed ns name p h = elim (Bool-cases (contains p.seen_ext (external_id name))) [
  | inl t ↦ rw t h
  | inr f ↦ rw f (record {
    edges = All-imp p.edges (λ e o. ⊎_elim inl (λ k. inr (more e.target_id k)) o) h.edges;
    seen = (
      (external_node name, (Memᴰ-concat _ _ p.ext_nodes).1 (inr refl), refl),
      All-imp p.seen_ext more h.seen,
    );
    ext = All-append IsExternal p.ext_nodes (external_node name ∷ []) h.ext ((name, refl), tt);
  })
]
  where
    more : (id : Str) → HasId p.ext_nodes id → HasId (p.ext_nodes ++ external_node name ∷ []) id
    more id (x, m, q) = (x, (Memᴰ-concat x (external_node name) p.ext_nodes).1 (inl m), q)

ext_node-HasId :
    (ns : List Node) (name : Str) (p : Progress)
    → Closed ns p
    → HasId (ext_node name p).ext_nodes (external_id name)
unfolding ext_node
ext_node-HasId ns name p h = elim (Bool-cases (contains p.seen_ext (external_id name))) [
  | inl t ↦ rw t (
      All-mem (HasId p.ext_nodes) p.seen_ext h.seen
        ((contains_iff p.seen_ext (external_id name)).0 t))
  | inr f ↦ rw f (external_node name, (Memᴰ-concat _ _ p.ext_nodes).1 (inr refl), refl)
]

-- Edges into nodes keep the state closed, whatever is counted.
pub with_edges-Closed :
    (ns : List Node) (p : Progress) (es : List Edge) (q : Progress)
    → Closed ns p
    → All (Enters ns p.ext_nodes) es
    → q.edges ≡ p.edges ++ es
    → q.ext_nodes ≡ p.ext_nodes
    → q.seen_ext ≡ p.seen_ext
    → Closed ns q
with_edges-Closed ns p es q h k a b c = record {
  edges = rw a (rw b (All-append (Enters ns p.ext_nodes) p.edges es h.edges k));
  seen = rw b (rw c h.seen);
  ext = rw b h.ext;
}

settle-Closed :
    (ns : List Node) (r : Ref) (t : Targets) (p : Progress)
    → Known ns t
    → Closed ns p
    → Closed ns (settle r t p)
unfolding settle
settle-Closed ns r (exactly id) p k h =
    with_edges-Closed ns p (edge_to r conf_exact 0 id ∷ []) (settle r (exactly id) p) h (inl k, tt)
      refl refl refl
settle-Closed ns r (by_bare_name id) p k h =
    with_edges-Closed ns p (edge_to r conf_name_match 0 id ∷ []) (settle r (by_bare_name id) p) h
      (inl k, tt) refl refl refl
settle-Closed ns r (several ms) p k h =
    with_edges-Closed ns p (map (λ n. edge_to r conf_ambiguous (length ms) n.id) ms)
      (settle r (several ms) p) h
      (All-map (Enters ns p.ext_nodes) (λ n. edge_to r conf_ambiguous (length ms) n.id) ms
        (All-imp ms (λ n m. inl (n, m, refl)) k))
      refl refl refl
settle-Closed ns r (nowhere name) p k h =
    with_edges-Closed ns (ext_node name p) (edge_to r conf_unknown 0 (external_id name) ∷ [])
      (settle r (nowhere name) p) (ext_node-Closed ns name p h)
      (inr (ext_node-HasId ns name p h), tt) refl refl refl

module _ (ns : List Node) (idx : Index) (rooted : Rooted idx)
    (within : (n : Node) → In idx.nodes n → In ns n) where
  Known-within : (t : Targets) → Known idx.nodes t → Known ns t
  Known-within (exactly id) (n, m, q) = (n, within n m, q)
  Known-within (by_bare_name id) (n, m, q) = (n, within n m, q)
  Known-within (several ms) k = All-imp ms within k
  Known-within (nowhere name) k = tt

  resolve_refs-Closed :
      (path : Str) (rs : List Ref) (p : Progress)
      → Closed ns p
      → Closed ns (resolve_refs idx path rs p)
  unfolding resolve_refs
  resolve_refs-Closed path [] p h = h
  resolve_refs-Closed path (r ∷ rs) p h =
      resolve_refs-Closed path rs (settle r (resolve_ref idx path r) (count_ref p)) (
        settle-Closed ns r (resolve_ref idx path r) (count_ref p)
          (Known-within (resolve_ref idx path r) (resolve_ref-Known idx rooted path r))
          (record { edges = h.edges; seen = h.seen; ext = h.ext }))

  pub resolve_files-Closed :
      (fs : List LangIr) (p : Progress) → Closed ns p → Closed ns (resolve_files idx fs p)
  unfolding resolve_files
  resolve_files-Closed [] p h = h
  resolve_files-Closed (f ∷ fs) p h =
      resolve_files-Closed fs (resolve_refs idx f.path f.refs p)
        (resolve_refs-Closed f.path f.refs p h)
