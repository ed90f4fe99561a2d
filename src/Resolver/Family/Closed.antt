-- ===== src/Resolver/Family/Closed.antt =====
-- pkg/resolver/resolver.go: the families one after the other keep every edge among the nodes.
use graph_context.Base.{
  ◌≡◌, refl, sym, ap, ◌∙◌, List, [], ◌∷◌, ◌++◌, Str, str_eq, keep, get_list, All, All-imp,
  All-append, All-map, Bool-cases, inl, inr, ⊎_elim, mem-All,
}
use mathlib.Core.List.Memᴰ
use mathlib.Core.List.{append_assoc, append-nil}
use graph_context.Store.Types.{Node}
use graph_context.Lang.Ir.{LangIr}
use graph_context.Lang.Registry.{Registry}
use graph_context.Resolver.Index.{Index}
use graph_context.Resolver.Index.Imports.{build_index}
use graph_context.Resolver.Index.Rooted.{In}
use graph_context.Resolver.Index.Bound.{build_index-Rooted}
use graph_context.Resolver.Index.Nodes.{nodes_of, nodes-build_index}
use graph_context.Resolver.Refs.{Progress, resolve_files}
use graph_context.Resolver.Refs.Closed.{Enters, Closed, with_edges-Closed, resolve_files-Closed}
use graph_context.Resolver.Refs.Stats.{
  ref_count, Counts, Counts-zero, Counts-trans, Counts-resolve_files,
}
use graph_context.Resolver.Family.{
  is_interface, implements_edge, satisfies, iface_methods, implementers, implements_edges,
  resolve_family, resolve_families,
}
use graph_context.Resolver.Family.Groups.{Groups, group_nodes, group_refs}

module _ (idx : Index) (files : List LangIr) (ns ext : List Node) where
  implementers-Enters :
      (n : Node) (ms : List Str) → In ns n → All (Enters ns ext) (implementers idx files n ms)
  unfolding implementers
  implementers-Enters n [] m = tt
  implementers-Enters n (x ∷ xs) m =
      let cs = keep (satisfies idx files n (x ∷ xs)) idx.nodes in
      All-map (Enters ns ext) (λ c. implements_edge c n) cs
        (mem-All (λ c. Enters ns ext (implements_edge c n)) cs (λ c at. inl (n, m, refl)))

  implements_edges-Enters :
      (is : List Node) → All (In ns) is → All (Enters ns ext) (implements_edges idx files is)
  unfolding implements_edges
  implements_edges-Enters [] h = tt
  implements_edges-Enters (n ∷ is) h = elim (Bool-cases (is_interface n.kind)) [
    | inl t ↦
        let ms = iface_methods idx files n.name in
        rw t (
          All-append (Enters ns ext) (implementers idx files n ms) (implements_edges idx files is)
            (implementers-Enters n ms h.0) (implements_edges-Enters is h.1))
    | inr f ↦ rw f (implements_edges-Enters is h.1)
  ]

-- More nodes keep the state closed.
Closed-more : (ns more : List Node) (p : Progress) → Closed ns p → Closed (ns ++ more) p
Closed-more ns more p h = record {
  edges =
      All-imp p.edges (λ e o. ⊎_elim (λ (n, m, q). inl (n, Memᴰ.append_left more m, q)) inr o)
        h.edges;
  seen = h.seen;
  ext = h.ext;
}

module _ (registry : Registry) (repo_root : Str) where
  nodes-resolve_family :
      (files : List LangIr) (p : Progress)
      → (resolve_family registry repo_root files p).0 ≡ nodes_of files
  unfolding resolve_family
  nodes-resolve_family files p = nodes-build_index registry repo_root files

  resolve_family-Closed :
      (ns : List Node) (files : List LangIr) (p : Progress)
      → Closed ns p
      → Closed
          (ns ++ (resolve_family registry repo_root files p).0)
          (resolve_family registry repo_root files p).1
  unfolding resolve_family
  resolve_family-Closed ns files p h =
      let idx = build_index registry repo_root files in
      let all = ns ++ idx.nodes in
      let q = resolve_files idx files p in
      let es = implements_edges idx files idx.nodes in
      with_edges-Closed all q es (record q { edges = q.edges ++ es })
        (resolve_files-Closed all idx (build_index-Rooted registry repo_root files)
          (λ n m. Memᴰ.append_right ns m) files p (Closed-more ns idx.nodes p h))
        (implements_edges-Enters idx files all q.ext_nodes idx.nodes
          (mem-All (In all) idx.nodes (λ n m. Memᴰ.append_right ns m)))
        refl refl refl

  pub resolve_families-Closed :
      (m : Groups) (ks : List Str) (ns : List Node) (p : Progress)
      → Closed ns p
      → Closed
          (resolve_families registry repo_root m ks ns p).0
          (resolve_families registry repo_root m ks ns p).1
  unfolding resolve_families
  resolve_families-Closed m [] ns p h = h
  resolve_families-Closed m (k ∷ ks) ns p h =
      let r = resolve_family registry repo_root (get_list k m) p in
      resolve_families-Closed m ks (ns ++ r.0) r.1 (resolve_family-Closed ns (get_list k m) p h)

  pub nodes-resolve_families :
      (m : Groups) (ks : List Str) (ns : List Node) (p : Progress)
      → (resolve_families registry repo_root m ks ns p).0 ≡ ns ++ group_nodes m ks
  unfolding resolve_families
  nodes-resolve_families m [] ns p = sym (append-nil ns)
  nodes-resolve_families m (k ∷ ks) ns p =
      let r = resolve_family registry repo_root (get_list k m) p in
      nodes-resolve_families m ks (ns ++ r.0) r.1
      ∙ ap (λ xs. (ns ++ xs) ++ group_nodes m ks) (nodes-resolve_family (get_list k m) p)
      ∙ append_assoc ns (nodes_of (get_list k m)) (group_nodes m ks)

  pub Counts-resolve_families :
      (m : Groups) (ks : List Str) (ns : List Node) (p : Progress)
      → Counts (group_refs m ks) p.stats (resolve_families registry repo_root m ks ns p).1.stats
  unfolding resolve_families resolve_family
  Counts-resolve_families m [] ns p = Counts-zero p.stats
  Counts-resolve_families m (k ∷ ks) ns p =
      let r = resolve_family registry repo_root (get_list k m) p in
      Counts-trans (ref_count (get_list k m)) (group_refs m ks) p.stats r.1.stats
        (resolve_families registry repo_root m ks (ns ++ r.0) r.1).1.stats
        (Counts-resolve_files (build_index registry repo_root (get_list k m)) (get_list k m) p)
        (Counts-resolve_families m ks (ns ++ r.0) r.1)
