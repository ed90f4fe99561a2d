-- ===== src/Resolver/Refs/Sources.antt =====
-- pkg/resolver/resolver.go: the edges that are made leave the declarations that refer.
use graph_context.Base.{
  ◌≡◌, refl, List, [], ◌∷◌, Str, str_eq, map, length, contains, All, All-imp, All-append, All-map,
  mem-All, Bool-cases, inl, inr,
}
use mathlib.Core.List.Memᴰ
use graph_context.Store.Types.{
  Node, Edge, conf_exact, conf_name_match, conf_ambiguous, conf_unknown,
}
use graph_context.Lang.Ir.{LangIr, Ref}
use graph_context.Resolver.Index.{Index}
use graph_context.Resolver.Index.Rooted.{HasId}
use graph_context.Resolver.Index.Nodes.{nodes_of}
use graph_context.Resolver.Refs.{
  Targets, exactly, by_bare_name, several, nowhere, resolve_ref, Progress, external_id, ext_node,
  edge_to, settle, count_ref, resolve_refs, resolve_files,
}

abbrev pub Leaves : List Node → Edge → Type 0
Leaves ns e = HasId ns e.source_id

-- The contract of a plugin: a reference is from a declaration of its file.
abbrev pub IsAttributed : LangIr → Type 0
IsAttributed f = All (λ (r : Ref). HasId f.nodes r.from_id) f.refs

module _ (ns : List Node) where
  edges-ext_node : (name : Str) (p : Progress) → (ext_node name p).edges ≡ p.edges
  unfolding ext_node
  edges-ext_node name p = elim (Bool-cases (contains p.seen_ext (external_id name))) [
    | inl t ↦ rw t refl
    | inr f ↦ rw f refl
  ]

  Leaves-settle :
      (r : Ref) (t : Targets) (p : Progress)
      → HasId ns r.from_id
      → All (Leaves ns) p.edges
      → All (Leaves ns) (settle r t p).edges
  unfolding settle
  Leaves-settle r (exactly id) p h k =
      All-append (Leaves ns) p.edges (edge_to r conf_exact 0 id ∷ []) k (h, tt)
  Leaves-settle r (by_bare_name id) p h k =
      All-append (Leaves ns) p.edges (edge_to r conf_name_match 0 id ∷ []) k (h, tt)
  Leaves-settle r (several ms) p h k =
      All-append (Leaves ns) p.edges (map (λ n. edge_to r conf_ambiguous (length ms) n.id) ms) k (
        All-map (Leaves ns) (λ n. edge_to r conf_ambiguous (length ms) n.id) ms
          (mem-All (λ n. HasId ns r.from_id) ms (λ n m. h)))
  Leaves-settle r (nowhere name) p h k =
      rw (edges-ext_node name p) (
        All-append (Leaves ns) p.edges (edge_to r conf_unknown 0 (external_id name) ∷ []) k (h, tt))

  Leaves-resolve_refs :
      (idx : Index) (path : Str) (rs : List Ref) (p : Progress)
      → All (λ (r : Ref). HasId ns r.from_id) rs
      → All (Leaves ns) p.edges
      → All (Leaves ns) (resolve_refs idx path rs p).edges
  unfolding resolve_refs
  Leaves-resolve_refs idx path [] p h k = k
  Leaves-resolve_refs idx path (r ∷ rs) p h k =
      Leaves-resolve_refs idx path rs (settle r (resolve_ref idx path r) (count_ref p)) h.1
        (Leaves-settle r (resolve_ref idx path r) (count_ref p) h.0 k)

  pub Leaves-resolve_files :
      (idx : Index) (fs : List LangIr) (p : Progress)
      → All (λ (f : LangIr). All (λ (r : Ref). HasId ns r.from_id) f.refs) fs
      → All (Leaves ns) p.edges
      → All (Leaves ns) (resolve_files idx fs p).edges
  unfolding resolve_files
  Leaves-resolve_files idx [] p h k = k
  Leaves-resolve_files idx (f ∷ fs) p h k =
      Leaves-resolve_files idx fs (resolve_refs idx f.path f.refs p) h.1
        (Leaves-resolve_refs idx f.path f.refs p h.0 k)

-- The references of the files are from nodes of the files.
pub attributed :
    (fs : List LangIr)
    → All IsAttributed fs
    → All (λ (f : LangIr). All (λ (r : Ref). HasId (nodes_of fs) r.from_id) f.refs) fs
attributed [] h = tt
attributed (f ∷ fs) h = (
  All-imp f.refs (λ r (n, m, q). (n, Memᴰ.append_left (nodes_of fs) m, q)) h.0,
  All-imp fs (λ g k. All-imp g.refs (λ r (n, m, q). (n, Memᴰ.append_right f.nodes m, q)) k)
      (attributed fs h.1),
)
