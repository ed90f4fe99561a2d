-- ===== src/Resolver/Types/Members.antt =====
-- pkg/resolver/types.go: the methods found through the base types are nodes of the index.
use graph_context.Base.{
  ℕ, zero, suc, ◌≡◌, refl, List, [], ◌∷◌, ◌++◌, Str, str_eq, Option, none, some, get_list, lookup2,
  contains, All, All-append, AllRows-lookup2, Bool-cases, inl, inr,
}
use graph_context.Store.Types.{Node}
use graph_context.Resolver.Index.{Index}
use graph_context.Resolver.Index.Rooted.{In, Rooted}
use graph_context.Resolver.Types.{
  climb_rounds, MethodScan, add_result, scan_methods, climb_methods, or_no_nodes,
  find_method_in_hierarchy,
}

module _ (idx : Index) (h : Rooted idx) (method : Str) where
  All-add_result :
      (o : Option Node) (ns : List Node)
      → ((n : Node) → o ≡ some n → In idx.nodes n)
      → All (In idx.nodes) ns
      → All (In idx.nodes) (add_result o ns)
  All-add_result none ns f k = k
  All-add_result (some n) ns f k = All-append (In idx.nodes) ns (n ∷ []) k (f n refl, tt)

  results-scan_methods :
      (s : MethodScan) (bs : List Str)
      → All (In idx.nodes) s.results
      → All (In idx.nodes) (scan_methods idx method s bs).results
  unfolding scan_methods
  results-scan_methods s [] k = k
  results-scan_methods s (b ∷ bs) k = elim (Bool-cases (contains s.visited b)) [
    | inl y ↦ rw y (results-scan_methods s bs k)
    | inr f ↦ rw f (
        results-scan_methods
          (record {
            visited = b ∷ s.visited;
            queue = s.queue ++ b ∷ [];
            results = add_result (lookup2 b method idx.type_methods) s.results;
          })
          bs
          (All-add_result (lookup2 b method idx.type_methods) s.results
            (λ n q. AllRows-lookup2 (In idx.nodes) b method n idx.type_methods h.type_methods q) k))
  ]

  All-climb_methods :
      (fuel : ℕ) (visited queue : List Str)
      → All (In idx.nodes) (or_no_nodes (climb_methods idx method fuel visited queue))
  unfolding climb_methods
  All-climb_methods fuel visited [] = tt
  All-climb_methods zero visited (t ∷ queue) = tt
  All-climb_methods (suc fuel) visited (t ∷ queue) =
      let s =
        scan_methods idx method (record { visited = visited; queue = queue; results = [] })
          (get_list t idx.type_bases) in
      go s.results (climb_methods idx method fuel s.visited s.queue)
        (results-scan_methods (record { visited = visited; queue = queue; results = [] })
          (get_list t idx.type_bases) tt)
        (All-climb_methods fuel s.visited s.queue)
    where
      go :
          (results : List Node) (next : Option (List Node))
          → All (In idx.nodes) results
          → All (In idx.nodes) (or_no_nodes next)
          → All (In idx.nodes) (or_no_nodes (elim results [ n ∷ ns ↦ some (n ∷ ns) | [] ↦ next ]))
      go [] next k l = l
      go (n ∷ ns) next k l = k

  pub All-find_method_in_hierarchy :
      (type_name : Str) → All (In idx.nodes) (find_method_in_hierarchy idx type_name method)
  unfolding find_method_in_hierarchy
  All-find_method_in_hierarchy type_name = go (lookup2 type_name method idx.type_methods) refl
    where
      go :
          (o : Option Node)
          → lookup2 type_name method idx.type_methods ≡ o
          → All (In idx.nodes) (elim o [
            | some n ↦ n ∷ []
            | none ↦
                or_no_nodes
                  (climb_methods idx method (climb_rounds idx) (type_name ∷ []) (type_name ∷ []))
          ])
      go none q = All-climb_methods (climb_rounds idx) (type_name ∷ []) (type_name ∷ [])
      go (some n) q =
          (AllRows-lookup2 (In idx.nodes) type_name method n idx.type_methods h.type_methods q, tt)
