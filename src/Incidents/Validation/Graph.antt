-- ===== src/Incidents/Validation/Graph.antt =====
-- Graphs that are built node by node: `IncidentGraph` in crates/obschain-core/src/incident.rs.
use obschain.Prelude.{
  true, false, List, [], ◌∷◌, ◌++◌, map, map-append, any, Text, text_eq, text_beq_iff, contains,
  ◌==◌, if◌then◌else◌, arith, ◌≡◌, refl, Bool-cases, inl, inr,
}
use obschain.Core.Incident.{GraphNode, GraphEdge, IncidentGraph, empty_graph, add_node, add_edge}
use obschain.Incidents.Validation.{node_ids}
use obschain.Incidents.Validation.Meaning.{Unique}

contains-snoc :
    (k j : Text) (ks : List Text)
    → contains k (ks ++ j ∷ []) ≡ (if contains k ks then true else j == k)
contains-snoc k j [] = ground arith
contains-snoc k j (i ∷ ks) = ground (arith, contains-snoc k j ks)

Unique-snoc :
    (j : Text) (ks : List Text) → contains j ks ≡ false → Unique ks → Unique (ks ++ j ∷ [])
Unique-snoc j [] h u = (refl, tt)
Unique-snoc j (k ∷ ks) h u = (
  ground (arith, contains-snoc k j ks, u.0, h, text_beq_iff j k, text_beq_iff k j),
  Unique-snoc j ks (ground (arith, h)) u.1,
)

any-contains :
    (id : Text) (ns : List GraphNode)
    → any (λ (n : GraphNode). n.id == id) ns ≡ contains id (map (λ (n : GraphNode). n.id) ns)
any-contains id [] = refl
any-contains id (n ∷ ns) = ground (arith, any-contains id ns)

add_node-Unique :
    (node : GraphNode) (g : IncidentGraph)
    → Unique (node_ids g)
    → Unique (node_ids (add_node node g))
unfolding add_node
add_node-Unique node g u = elim (Bool-cases (any (λ (n : GraphNode). n.id == node.id) g.nodes)) [
  | inl there ↦ rw there u
  | inr absent ↦
      rw (absent, map-append (λ (n : GraphNode). n.id) g.nodes (node ∷ []))
        (Unique-snoc node.id (node_ids g) (ground (arith, any-contains node.id g.nodes, absent)) u)
]

-- the graph after a sequence of additions of nodes and of edges
pub data GraphOp : Type 0 where
  node_op : GraphNode → GraphOp
  edge_op : GraphEdge → GraphOp

unfoldable pub build_graph : List GraphOp → IncidentGraph → IncidentGraph
build_graph [] g = g
build_graph (node_op n ∷ ops) g = build_graph ops (add_node n g)
build_graph (edge_op e ∷ ops) g = build_graph ops (add_edge e g)

build_graph-keeps :
    (ops : List GraphOp) (g : IncidentGraph)
    → Unique (node_ids g)
    → Unique (node_ids (build_graph ops g))
unfolding build_graph add_edge
build_graph-keeps [] g u = u
build_graph-keeps (node_op n ∷ ops) g u =
    build_graph-keeps ops (add_node n g) (add_node-Unique n g u)
build_graph-keeps (edge_op e ∷ ops) g u = build_graph-keeps ops (add_edge e g) u

-- A graph that is built from nothing by adding nodes and edges in any order, nodes with one name
-- several times too, never has two nodes with one name.
build_graph-Unique : (ops : List GraphOp) → Unique (node_ids (build_graph ops empty_graph))
build_graph-Unique ops = build_graph-keeps ops empty_graph tt
