-- ===== src/Graph/Edits.antt =====
-- Edits of a node's edges and port configurations: pkg/utils/edge.go and edges.go. A fresh edge ID is
-- an argument; a Go map from flow IDs to Booleans is a function.
pub mod Laws
use module_lib.Prelude.{
  Bool, true, false, not, ◌&&◌, ◌||◌, Option, none, some, List, [], ◌∷◌, ◌++◌, Text, ◌==◌, any,
  keep, if◌then◌else◌,
}
use module_lib.Names.{get_port_full_name, parse_full_port_name}
use module_lib.Node.{Node, Edge, PortConfig}

unfoldable pub format_edge_target : Text → Text → Text
format_edge_target node port = get_port_full_name node port

unfoldable pub parse_edge_target : Text → Text × Text
parse_edge_target target = parse_full_port_name target

unfoldable pub new_edge_with_id : Text → Text → Text → Text → Text → Edge
unfolding format_edge_target
new_edge_with_id id source_port target_node target_port flow_id = record {
  id = id;
  port = source_port;
  to = format_edge_target target_node target_port;
  flow_id = flow_id;
  retry_policy = none;
}

unfoldable pub new_port_config_with_schema : Text → Text → Text → Text → Text → Text → PortConfig
unfolding format_edge_target
new_port_config_with_schema source_port target_node target_port flow_id configuration schema =
    record {
      from = format_edge_target target_node target_port;
      port = source_port;
      schema = schema;
      configuration = configuration;
      flow_id = flow_id;
    }

unfoldable pub new_port_config : Text → Text → Text → Text → Text → PortConfig
unfolding new_port_config_with_schema
new_port_config source_port target_node target_port flow_id configuration =
    new_port_config_with_schema source_port target_node target_port flow_id configuration []

-- The edge that is added, and the node.
unfoldable pub add_edge_to_node : Text → Node → Text → Text → Text → Text → Edge × Node
unfolding new_edge_with_id
add_edge_to_node id node source_port target_node target_port flow_id =
    let e = new_edge_with_id id source_port target_node target_port flow_id in
    (e, record node { edges = node.edges ++ (e ∷ []) })

-- The loop of RemoveEdgeFromNode: targetTo and newEdges.
without_edge : Text → List Edge → Text → Text × List Edge
without_edge id [] to = (to, [])
without_edge id (e ∷ es) to =
    let found = without_edge id es e.to in
    let (to', kept) = without_edge id es to in if e.id == id then found else (to', e ∷ kept)

unfoldable pub remove_edge_from_node : Node → Text → Text × Node
unfolding without_edge
remove_edge_from_node node id =
    let (to, kept) = without_edge id node.edges [] in (to, record node { edges = kept })

unfoldable pub remove_port_config_by_from : Node → Text → Node
remove_port_config_by_from node from =
    if from == [] then node else record node { ports = keep (λ p. not (p.from == from)) node.ports }

unfoldable pub disconnect_edge : Node → Text → Node
unfolding remove_edge_from_node remove_port_config_by_from
disconnect_edge node id =
    let (to, node') = remove_edge_from_node node id in remove_port_config_by_from node' to

unfoldable pub replace_flow_edges : List Edge → (Text → Bool) → List Edge → List Edge
replace_flow_edges existing flows new = keep (λ e. not (flows e.flow_id)) existing ++ new

unfoldable pub replace_flow_port_configs :
    List PortConfig → (Text → Bool) → List PortConfig → List PortConfig
replace_flow_port_configs existing flows new =
    keep (λ p. p.from == [] || not (flows p.flow_id)) existing ++ new

-- The tests of the loops of RemoveNodeReferences.
unfoldable pub targets : Text → Edge → Bool
targets name e = (parse_full_port_name e.to).0 == name

unfoldable pub sourced : Text → PortConfig → Bool
sourced name p = not (p.from == []) && (parse_full_port_name p.from).0 == name

unfoldable pub remove_node_references : Node → Text → Bool × Node
unfolding targets sourced
remove_node_references node name =
    let changed = any (targets name) node.edges || any (sourced name) node.ports in
    (
      changed,
      if changed
          then record node {
            edges = keep (λ e. not (targets name e)) node.edges;
            ports = keep (λ p. not (sourced name p)) node.ports;
          }
          else node,
    )
