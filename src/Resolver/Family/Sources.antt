-- ===== src/Resolver/Family/Sources.antt =====
-- pkg/resolver/resolver.go: the families one after the other keep the source of every edge.
use graph_context.Base.{
  refl, List, [], ◌∷◌, ◌++◌, Str, str_eq, keep, get_list, All, All-imp, All-append, All-map,
  mem-All, Memᴰ, Memᴰ-keep, AllValues, AllValues-get_list, Bool-cases, inl, inr, subst, sym,
}
use mathlib.Core.List.Memᴰ
use graph_context.Store.Types.{Node}
use graph_context.Lang.Ir.{LangIr}
use graph_context.Lang.Registry.{Registry}
use graph_context.Resolver.Index.{Index}
use graph_context.Resolver.Index.Imports.{build_index}
use graph_context.Resolver.Index.Rooted.{HasId}
use graph_context.Resolver.Index.Nodes.{nodes-build_index}
use graph_context.Resolver.Refs.{Progress, resolve_files}
use graph_context.Resolver.Refs.Sources.{Leaves, IsAttributed, Leaves-resolve_files, attributed}
use graph_context.Resolver.Family.{
  is_interface, implements_edge, satisfies, iface_methods, implementers, implements_edges,
  resolve_family, resolve_families,
}
use graph_context.Resolver.Family.Groups.{Groups}

module _ (idx : Index) (files : List LangIr) where
  implementers-Leaves :
      (n : Node) (ms : List Str) → All (Leaves idx.nodes) (implementers idx files n ms)
  unfolding implementers
  implementers-Leaves n [] = tt
  implementers-Leaves n (x ∷ xs) =
      let meets = satisfies idx files n (x ∷ xs) in
      All-map (Leaves idx.nodes) (λ c. implements_edge c n) (keep meets idx.nodes)
        (mem-All (λ (c : Node). HasId idx.nodes c.id) (keep meets idx.nodes)
          (λ c at. (c, ((Memᴰ-keep meets c idx.nodes).0 at).0, refl)))

  implements_edges-Leaves :
      (is : List Node) → All (Leaves idx.nodes) (implements_edges idx files is)
  unfolding implements_edges
  implements_edges-Leaves [] = tt
  implements_edges-Leaves (n ∷ is) = elim (Bool-cases (is_interface n.kind)) [
    | inl t ↦
        let ms = iface_methods idx files n.name in
        rw t (
          All-append (Leaves idx.nodes) (implementers idx files n ms)
            (implements_edges idx files is) (implementers-Leaves n ms) (implements_edges-Leaves is))
    | inr f ↦ rw f (implements_edges-Leaves is)
  ]

module _ (registry : Registry) (repo_root : Str) where
  resolve_family-Leaves :
      (ns : List Node) (files : List LangIr) (p : Progress)
      → All IsAttributed files
      → All (Leaves ns) p.edges
      → All
          (Leaves (ns ++ (resolve_family registry repo_root files p).0))
          (resolve_family registry repo_root files p).1.edges
  unfolding resolve_family
  resolve_family-Leaves ns files p h k =
      let idx = build_index registry repo_root files in
      let all = ns ++ idx.nodes in
      let same = nodes-build_index registry repo_root files in
      All-append (Leaves all) (resolve_files idx files p).edges
        (implements_edges idx files idx.nodes)
        (Leaves-resolve_files all idx files p
          (All-imp files
            (λ f rs.
              All-imp f.refs
                (λ r (n, m, q). (n, Memᴰ.append_right ns (subst (Memᴰ n) (sym same) m), q)) rs)
            (attributed files h))
          (All-imp p.edges (λ e (n, m, q). (n, Memᴰ.append_left idx.nodes m, q)) k))
        (All-imp (implements_edges idx files idx.nodes)
          (λ e (n, m, q). (n, Memᴰ.append_right ns m, q))
          (implements_edges-Leaves idx files idx.nodes))

  pub resolve_families-Leaves :
      (m : Groups) (ks : List Str) (ns : List Node) (p : Progress)
      → AllValues (All IsAttributed) m
      → All (Leaves ns) p.edges
      → All
          (Leaves (resolve_families registry repo_root m ks ns p).0)
          (resolve_families registry repo_root m ks ns p).1.edges
  unfolding resolve_families
  resolve_families-Leaves m [] ns p h k = k
  resolve_families-Leaves m (j ∷ ks) ns p h k =
      let r = resolve_family registry repo_root (get_list j m) p in
      resolve_families-Leaves m ks (ns ++ r.0) r.1 h
        (resolve_family-Leaves ns (get_list j m) p (AllValues-get_list IsAttributed j m h) k)
