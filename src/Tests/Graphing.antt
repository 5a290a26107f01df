-- ===== src/Tests/Graphing.antt =====
-- Graphs: edits, identifiers, and the import of a project.
use module_lib.Prelude.{
  ◌≡◌, refl, ◌≢◌, Bool, false, not, ◌||◌, some, [], ◌∷◌, Text, codes, ◌==◌, any, keep, starts_with,
}
use module_lib.Prelude.Strings.{drop_prefix}
use module_lib.Prelude.Int.{pos}
use module_lib.Json.{Json, Fields, text, object, end, field, at}
use module_lib.Names.Address.{is_port_of}
use module_lib.Node.{Node, Edge, PortConfig}
use module_lib.Graph.Elements.{ProjectExport}
use module_lib.Graph.Edits.{
  replace_flow_edges, replace_flow_port_configs, remove_node_references, new_edge_with_id,
}
use module_lib.Graph.Edits.Laws.{
  replace_flow_edges-replace_flow_port_configs, remove_node_references_exact,
}
use module_lib.Graph.Ids.{EdgeId, generate_edge_id, parse_edge_id, trim_space}
use module_lib.Graph.Ids.Laws.{parse-generate_edge_id, parse-generate_edge_id_hyphen}
use module_lib.Graph.Validation.{validate_project_import}
use module_lib.Graph.Validation.Configs.{cut_text, validate_config_expressions}
use module_lib.Graph.Rebuild.{Numbers, nodes_from_graph_elements}
use module_lib.Graph.Rebuild.Accepted.{nodes_from_graph_elements-validate_project_import}

parse-generate_edge_id_example :
    parse_edge_id (generate_edge_id (codes "a_b") (codes "out") (codes "c-d") (codes "in"))
    ≡ some (record {
      source = codes "a_b";
      source_handle = codes "out";
      target = codes "c-d";
      target_handle = codes "in";
    })
parse-generate_edge_id_example =
    parse-generate_edge_id (codes "a_b") (codes "out") (codes "c-d") (codes "in") refl refl refl
      refl

-- a_b-c_out-d_in is read as an edge from a.
abbrev misread : EdgeId
misread = record {
  source = codes "a";
  source_handle = codes "b";
  target = codes "c_out-d";
  target_handle = codes "in";
}

read :
    parse_edge_id (generate_edge_id (codes "a_b-c") (codes "out") (codes "d") (codes "in"))
    ≡ some misread
unfolding parse_edge_id generate_edge_id
read = refl

parse-generate_edge_id_hyphen_example : codes "a" ≢ codes "a_b-c"
parse-generate_edge_id_hyphen_example =
    parse-generate_edge_id_hyphen (codes "a_b") (codes "c") (codes "out") (codes "d") (codes "in")
      misread refl read

abbrev in_flow : Text → Edge
in_flow flow = new_edge_with_id (codes "e") (codes "out") (codes "c") (codes "in") flow

abbrev config : Text → PortConfig
config from = record {
  from = from;
  port = codes "in";
  schema = [];
  configuration = codes "{}";
  flow_id = codes "f";
}

abbrev flows : Text → Bool
flows t = t == codes "f"

replace_flow_edges-replace_flow_port_configs_example :
    let es =
      replace_flow_edges
        (in_flow (codes "f") ∷ in_flow (codes "g") ∷ [])
        flows
        (in_flow (codes "f") ∷ []) in
    let ps =
      replace_flow_port_configs
        (config [] ∷ config (codes "a:out") ∷ [])
        flows
        (config (codes "b:out") ∷ []) in
    (replace_flow_edges es flows (in_flow (codes "f") ∷ []) ≡ es)
    × (replace_flow_port_configs ps flows (config (codes "b:out") ∷ []) ≡ ps)
    × (keep (λ e. not (flows e.flow_id)) es
        ≡ keep (λ e. not (flows e.flow_id)) (in_flow (codes "f") ∷ in_flow (codes "g") ∷ []))
    × (keep (λ p. p.from == [] || not (flows p.flow_id)) ps
        ≡ keep
            (λ p. p.from == [] || not (flows p.flow_id))
            (config [] ∷ config (codes "a:out") ∷ []))
unfolding new_edge_with_id ◌==◌
replace_flow_edges-replace_flow_port_configs_example =
    replace_flow_edges-replace_flow_port_configs flows
      (in_flow (codes "f") ∷ in_flow (codes "g") ∷ []) (in_flow (codes "f") ∷ [])
      (config [] ∷ config (codes "a:out") ∷ []) (config (codes "b:out") ∷ []) refl refl

abbrev node : Node
node = record {
  name = codes "a";
  namespace = [];
  labels = [];
  annotations = [];
  module_name = codes "m";
  component = codes "c";
  ports = config [] ∷ config (codes "c:out") ∷ [];
  edges = in_flow (codes "f") ∷ [];
  status = record {
    module_name = codes "m";
    description = [];
    info = [];
    ports = [];
    metadata = [];
    status = [];
    error = false;
  };
}

remove_node_references_exact_example :
    let (changed, node') = remove_node_references node (codes "c") in
    (any (λ e. is_port_of (codes "c") e.to) node'.edges ≡ false)
    × (any (λ p. is_port_of (codes "c") p.from) node'.ports ≡ false)
    × (node' ≡ record node {
      edges = keep (λ e. not (is_port_of (codes "c") e.to)) node.edges;
      ports = keep (λ p. not (is_port_of (codes "c") p.from)) node.ports;
    })
    × (changed ≡ (
        any (λ e. is_port_of (codes "c") e.to) node.edges
        || any (λ p. is_port_of (codes "c") p.from) node.ports))
unfolding ◌==◌
remove_node_references_exact_example = remove_node_references_exact node (codes "c") refl refl

-- A project of two nodes and an edge.
abbrev data_of_node : Json
data_of_node = object (
    field (codes "component") (text (codes "router"))
      (field (codes "module") (text (codes "common")) end))

abbrev exported_node : Text → Fields
exported_node id = field (codes "type") (text (codes "tinyNode")) (
    field (codes "id") (text id)
      (field (codes "flow") (text (codes "f")) (field (codes "data") data_of_node end)))

abbrev exported_edge : Fields
exported_edge = field (codes "type") (text (codes "tinyEdge")) (
    field (codes "source") (text (codes "a")) (
      field (codes "sourceHandle") (text (codes "out")) (
        field (codes "target") (text (codes "b")) (
          field (codes "targetHandle") (text (codes "in")) (
            field (codes "flow") (text (codes "f")) (
              field (codes "data")
                (object (
                  field (codes "configuration")
                    (object (field (codes "x") (text (codes "{{$.y}}")) end)) end))
                end))))))

abbrev project : ProjectExport
project = record {
  tiny_flows = record { resource_name = codes "f" } ∷ [];
  elements = exported_node (codes "a") ∷ exported_node (codes "b") ∷ exported_edge ∷ [];
  pages = [];
}

abbrev numbers : Numbers
numbers = record { marshal = λ v. some (codes "{}"); int_of = λ t. pos 0 }

valid : (validate_project_import (λ t. t) project).0 ≡ []
unfolding validate_project_import ◌==◌ at validate_config_expressions cut_text starts_with
    drop_prefix trim_space
valid = refl

nodes_from_graph_elements-validate_project_import_example :
    (nodes_from_graph_elements numbers project.elements).errors ≡ []
unfolding ◌==◌ at
nodes_from_graph_elements-validate_project_import_example =
    nodes_from_graph_elements-validate_project_import numbers (λ v e. cc e) (λ t. t) project valid
      ((λ t. refl), ((λ t. refl), ((λ t. refl), tt)))
