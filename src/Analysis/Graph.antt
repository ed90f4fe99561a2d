-- ===== src/Analysis/Graph.antt =====
-- pkg/analysis/graph.go: the graph in memory, with adjacency lists in both directions.
pub mod Laws
use graph_context.Base.{ℕ, ◌+◌, List, [], ◌∷◌, ◌++◌, Str, insert, push, length, str_eq}
use graph_context.Store.Types.{Node, Edge}

pub record Graph : Type 0 where
  pub nodes : List (Str × Node)
  pub out : List (Str × List Edge)
  pub in_edges : List (Str × List Edge)

-- `for _, n := range nodes { g.Nodes[n.ID] = n }`
add_nodes : List Node → List (Str × Node) → List (Str × Node)
add_nodes [] m = m
add_nodes (n ∷ ns) m = add_nodes ns (insert n.id n m)

-- One round of the loop over the edges.
add_edge : Edge → Graph → Graph
add_edge e g = record g { out = push e.source_id e g.out; in_edges = push e.target_id e g.in_edges }

add_edges : List Edge → Graph → Graph
unfolding add_edge
add_edges [] g = g
add_edges (e ∷ es) g = add_edges es (add_edge e g)

unfoldable pub new_graph : List Node → List Edge → Graph
unfolding add_nodes add_edges
new_graph ns es = add_edges es (record { nodes = add_nodes ns []; out = []; in_edges = [] })

unfoldable pub node_count : Graph → ℕ
node_count g = length g.nodes

unfoldable pub count_edges : List (Str × List Edge) → ℕ
count_edges [] = 0
count_edges ((_, es) ∷ m) = length es + count_edges m

unfoldable pub edge_count : Graph → ℕ
unfolding count_edges
edge_count g = count_edges g.out
