-- ===== src/Analysis/Graph/Laws.antt =====
-- pkg/analysis/graph.go: what the constructor of the graph puts where.
use graph_context.Base.{
  suc, ◌+◌, ◌≡◌, refl, sym, ap, ◌∙◌, Bool, Option, none, some, List, [], ◌∷◌, ◌++◌, Str, lookup,
  insert, push, get_list, keep, length, str_eq, lookup-insert, get_list-push, length-append, arith,
  ◌==◌, eq_iff, if◌then◌else◌, inl, inr, Bool-cases,
}
use mathlib.Core.List.{append_assoc, append-nil}
use graph_context.Store.Types.{Node, Edge}
use graph_context.Analysis.Graph.{
  Graph, add_nodes, add_edge, add_edges, new_graph, count_edges, edge_count,
}

-- The last of the nodes with an ID.
abbrev pub last_with : Str → List Node → Option Node → Option Node
last_with k [] d = d
last_with k (n ∷ ns) d = last_with k ns (if n.id == k then some n else d)

lookup-add_nodes :
    (k : Str) (ns : List Node) (m : List (Str × Node))
    → lookup k (add_nodes ns m) ≡ last_with k ns (lookup k m)
unfolding add_nodes
lookup-add_nodes k [] m = refl
lookup-add_nodes k (n ∷ ns) m =
    lookup-add_nodes k ns (insert n.id n m) ∙ ap (last_with k ns) (lookup-insert n.id k n m)

abbrev pub from : Str → Edge → Bool
from k e = e.source_id == k

abbrev pub into : Str → Edge → Bool
into k e = e.target_id == k

-- One `append` to the list of a key, before the entries that are kept of the rest.
push-keep :
    (k : Str) (key : Edge → Str) (e : Edge) (es : List Edge) (m : List (Str × List Edge))
    → get_list k (push (key e) e m) ++ keep (λ d. key d == k) es
      ≡ get_list k m ++ keep (λ d. key d == k) (e ∷ es)
push-keep k key e es m = elim (Bool-cases (key e == k)) [
  | inl t ↦
      rw (get_list-push (key e) k e m, t)
        (rw ((eq_iff (key e) k).0 t)
          (append_assoc (get_list k m) (e ∷ []) (keep (λ d. key d == k) es)))
  | inr f ↦ rw (get_list-push (key e) k e m, f)
]

out-add_edges :
    (k : Str) (es : List Edge) (g : Graph)
    → get_list k (add_edges es g).out ≡ get_list k g.out ++ keep (from k) es
unfolding add_edges
out-add_edges k [] g = sym (append-nil _)
out-add_edges k (e ∷ es) g =
    out-add_edges k es (add_edge e g) ∙ push-keep k (λ d. d.source_id) e es g.out

in-add_edges :
    (k : Str) (es : List Edge) (g : Graph)
    → get_list k (add_edges es g).in_edges ≡ get_list k g.in_edges ++ keep (into k) es
unfolding add_edges
in-add_edges k [] g = sym (append-nil _)
in-add_edges k (e ∷ es) g =
    in-add_edges k es (add_edge e g) ∙ push-keep k (λ d. d.target_id) e es g.in_edges

nodes-add_edges : (es : List Edge) (g : Graph) → (add_edges es g).nodes ≡ g.nodes
unfolding add_edges
nodes-add_edges [] g = refl
nodes-add_edges (e ∷ es) g = nodes-add_edges es (add_edge e g)

-- For every ID, the adjacency lists of the graph hold exactly the edges that leave it and that
-- enter it, each in the order given, and the node is the last of those with that ID.
pub new_graph_lem :
    (k : Str) (ns : List Node) (es : List Edge)
    → (get_list k (new_graph ns es).out ≡ keep (from k) es)
      × (get_list k (new_graph ns es).in_edges ≡ keep (into k) es)
      × (lookup k (new_graph ns es).nodes ≡ last_with k ns none)
unfolding new_graph
new_graph_lem k ns es =
    let g : Graph = record { nodes = add_nodes ns []; out = []; in_edges = [] } in
    (
      out-add_edges k es g,
      in-add_edges k es g,
      ap (lookup k) (nodes-add_edges es g) ∙ lookup-add_nodes k ns [],
    )

last_with-id :
    (k : Str) (ns : List Node) (d : Option Node)
    → ((n : Node) → d ≡ some n → n.id ≡ k)
    → (n : Node) → last_with k ns d ≡ some n
    → n.id ≡ k
last_with-id k [] d h n e = h n e
last_with-id k (x ∷ ns) d h n e =
    last_with-id k ns (if x.id == k then some x else d) (λ m q. ground (arith, eq_iff x.id k, h m))
      n e

-- A node of the graph stands under its own ID.
pub nodes-new_graph_id :
    (k : Str) (ns : List Node) (es : List Edge) (n : Node)
    → lookup k (new_graph ns es).nodes ≡ some n
    → n.id ≡ k
nodes-new_graph_id k ns es n h =
    last_with-id k ns none (λ m q. cc) n (sym (new_graph_lem k ns es).2 ∙ h)

count_edges-insert :
    (k : Str) (es : List Edge) (m : List (Str × List Edge))
    → count_edges (insert k es m) + length (get_list k m) ≡ count_edges m + length es
unfolding count_edges
count_edges-insert k es [] = omega arith
count_edges-insert k es ((j, ds) ∷ m) = ground (arith, count_edges-insert k es m)

count_edges-push :
    (k : Str) (e : Edge) (m : List (Str × List Edge))
    → count_edges (push k e m) ≡ suc (count_edges m)
count_edges-push k e m =
    omega (
      arith,
      count_edges-insert k (get_list k m ++ e ∷ []) m,
      length-append (get_list k m) (e ∷ []),
    )

count_edges-add_edges :
    (es : List Edge) (g : Graph) → count_edges (add_edges es g).out ≡ count_edges g.out + length es
unfolding add_edges
count_edges-add_edges [] g = omega arith
count_edges-add_edges (e ∷ es) g =
    omega (arith, count_edges-add_edges es (add_edge e g), count_edges-push e.source_id e g.out)

-- The number of edges that the graph reports is the number that it was built from.
pub edge_count-new_graph :
    (ns : List Node) (es : List Edge) → edge_count (new_graph ns es) ≡ length es
unfolding edge_count new_graph count_edges
edge_count-new_graph ns es =
    omega (
      arith,
      count_edges-add_edges es (record { nodes = add_nodes ns []; out = []; in_edges = [] }),
    )
