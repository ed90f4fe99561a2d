-- ===== src/Resolver/Family/Complete.antt =====
-- pkg/resolver/resolver.go: what Resolve promises of the graph that it makes.
use graph_context.Base.{
  ◌≡◌, sym, ◌∙◌, subst, List, [], ◌∷◌, ◌++◌, ◌⊎◌, ◌↔◌, Str, str_eq, str_lt, values, All-imp, insert,
  sort_by, All, All-mem, mem-All, AllValues, AllValues-insert, Memᴰ, Memᴰ-sort_by, inl, inr, ⊎_elim,
  arith,
}
use mathlib.Core.List.Memᴰ
use graph_context.Store.Types.{Node, Edge}
use graph_context.Store.Query.{edge_less}
use graph_context.Lang.Ir.{LangIr}
use graph_context.Lang.Registry.{Registry}
use graph_context.Resolver.Index.Rooted.{HasId}
use graph_context.Resolver.Index.Nodes.{nodes_of}
use graph_context.Resolver.Refs.{Progress}
use graph_context.Resolver.Refs.Closed.{Enters, Closed, IsExternal}
use graph_context.Resolver.Refs.Stats.{counted, ref_count}
use graph_context.Resolver.Family.{
  group_files, resolve_families, edge_text, edge_map, resolved_less, start_progress, resolve,
}
use graph_context.Resolver.Family.Groups.{
  Groups, families_of, group_refs-sort_by, group_refs-group_files, Memᴰ-group_nodes-group_files,
}
use graph_context.Resolver.Refs.Sources.{IsAttributed}
use graph_context.Resolver.Family.Groups.{AllRows-group_files}
use graph_context.Resolver.Family.Sources.{resolve_families-Leaves}
use graph_context.Resolver.Family.Closed.{
  resolve_families-Closed, nodes-resolve_families, Counts-resolve_families,
}

AllValues-edge_map :
    (P : Edge → Type 0) (es : List Edge) (m : List (Str × Edge))
    → All P es
    → AllValues P m
    → AllValues P (edge_map es m)
unfolding edge_map
AllValues-edge_map P [] m h k = k
AllValues-edge_map P (e ∷ es) m h k =
    AllValues-edge_map P es (insert (edge_text e) e m) h.1
      (AllValues-insert P (edge_text e) e m h.0 k)

All-values : (P : Edge → Type 0) (m : List (Str × Edge)) → AllValues P m → All P (values m)
All-values P [] h = tt
All-values P ((k, e) ∷ m) h = (h.0, All-values P m h.1)

-- What holds of all edges that are made holds of all that remain.
All-sorted_edges :
    (P : Edge → Type 0) (es : List Edge)
    → All P es
    → All P (sort_by edge_less (values (edge_map es [])))
All-sorted_edges P es h =
    let kept = values (edge_map es []) in
    mem-All P (sort_by edge_less kept) (λ e m.
      All-mem P kept (All-values P (edge_map es []) (AllValues-edge_map P es [] h tt))
        ((Memᴰ-sort_by edge_less e kept).0 m))

module _ (registry : Registry) (repo_root : Str) (files : List LangIr) where
  abbrev groups : Groups
  groups = group_files files []

  abbrev run : List Node × Progress
  run =
      resolve_families registry repo_root groups (sort_by str_lt (families_of groups)) []
        start_progress

  run-Closed : Closed run.0 run.1
  run-Closed =
      resolve_families-Closed registry repo_root groups (sort_by str_lt (families_of groups)) []
        start_progress (record { edges = tt; seen = tt; ext = tt })

  Memᴰ-nodes :
      (n : Node)
      → Memᴰ n (resolve registry repo_root files).nodes ↔ (Memᴰ n run.0 ⊎ Memᴰ n run.1.ext_nodes)
  unfolding resolve
  Memᴰ-nodes n =
      let all = run.0 ++ run.1.ext_nodes in
      (
        λ m. Memᴰ.append_cases run.0 ((Memᴰ-sort_by resolved_less n all).0 m),
        λ o.
            (Memᴰ-sort_by resolved_less n all).1
              (⊎_elim (Memᴰ.append_left run.1.ext_nodes) (Memᴰ.append_right run.0) o),
      )

  Memᴰ-run : (n : Node) → Memᴰ n run.0 ↔ Memᴰ n (nodes_of files)
  Memᴰ-run n =
      subst (λ ns. Memᴰ n ns ↔ Memᴰ n (nodes_of files))
        (sym (
          nodes-resolve_families registry repo_root groups (sort_by str_lt (families_of groups)) []
            start_progress))
        (Memᴰ-group_nodes-group_files n str_lt files)

  -- Every edge of the graph that Resolve makes enters a node of this graph, whatever the files refer
  -- to: a declaration of the files, or an external node that was made for the name.
  pub resolve-Closed :
      All
        (λ (e : Edge). HasId (resolve registry repo_root files).nodes e.target_id)
        (resolve registry repo_root files).edges
  unfolding resolve
  resolve-Closed =
      All-sorted_edges (λ (e : Edge). HasId (resolve registry repo_root files).nodes e.target_id)
        run.1.edges (All-imp run.1.edges to_result run-Closed.edges)
    where
      to_result :
          (e : Edge)
          → Enters run.0 run.1.ext_nodes e
          → HasId (resolve registry repo_root files).nodes e.target_id
      to_result e (inl (n, m, q)) = (n, (Memᴰ-nodes n).1 (inl m), q)
      to_result e (inr (n, m, q)) = (n, (Memᴰ-nodes n).1 (inr m), q)

  -- The graph that Resolve makes has every node of the files, of whatever language, and beside them
  -- only external nodes.
  pub nodes-resolve :
      (n : Node)
      → (Memᴰ n (nodes_of files) → Memᴰ n (resolve registry repo_root files).nodes)
        × (Memᴰ n (resolve registry repo_root files).nodes → Memᴰ n (nodes_of files) ⊎ IsExternal n)
  nodes-resolve n = (
    λ m. (Memᴰ-nodes n).1 (inl ((Memᴰ-run n).1 m)),
    λ m.
        ⊎_elim (λ l. inl ((Memᴰ-run n).0 l))
          (λ r. inr (All-mem IsExternal run.1.ext_nodes run-Closed.ext r)) ((Memᴰ-nodes n).0 m),
  )

  -- The counts that Resolve returns: all references of all files are counted, and each of them as
  -- exact, ambiguous, matched by name or unknown, and as one of these only.
  pub total_refs-resolve :
      ((resolve registry repo_root files).stats.total_refs ≡ ref_count files)
      × (counted (resolve registry repo_root files).stats ≡ ref_count files)
  unfolding resolve
  total_refs-resolve =
      let c =
        Counts-resolve_families registry repo_root groups (sort_by str_lt (families_of groups)) []
          start_progress in
      let refs =
        group_refs-sort_by groups str_lt (families_of groups) ∙ group_refs-group_files files in
      (omega (arith, c.total, refs), omega (arith, c.kinds, refs))

  -- If the references of each file are from declarations of this file, every edge of the graph that
  -- Resolve makes leaves a node of this graph.
  pub resolve-Leaves :
      All IsAttributed files
      → All
          (λ (e : Edge). HasId (resolve registry repo_root files).nodes e.source_id)
          (resolve registry repo_root files).edges
  unfolding resolve
  resolve-Leaves h =
      All-sorted_edges (λ (e : Edge). HasId (resolve registry repo_root files).nodes e.source_id)
        run.1.edges
        (All-imp run.1.edges (λ e (n, m, q). (n, (Memᴰ-nodes n).1 (inl m), q))
          (resolve_families-Leaves registry repo_root groups (sort_by str_lt (families_of groups))
            [] start_progress (AllRows-group_files IsAttributed files [] h tt) tt))
