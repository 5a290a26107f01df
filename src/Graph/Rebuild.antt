-- ===== src/Graph/Rebuild.antt =====
-- The rebuilding of nodes from exported elements: NodesFromGraphElements of pkg/utils/graph_import.go.
-- json.Marshal and the conversion of a number's literal to an int are arguments.
pub mod Parts
pub mod Nodes
pub mod Accepted
use module_lib.Prelude.{
  Bool, true, false, not, ◌&&◌, ◌||◌, Option, none, some, List, [], ◌∷◌, ◌++◌, Text, codes, ◌==◌,
  if◌then◌else◌,
}
use module_lib.Prelude.Int.{ℤ, pos}
use module_lib.Dict
use module_lib.Dict.{Dict}
use module_lib.Json.{
  Json, Items, Fields, null, bool, number, text, array, object, at, elements, as_object, as_array,
  is_null,
}
use module_lib.Ledger.Numbers.{itoa}
use module_lib.Node.{Node, Edge, PortConfig, PortStatus, Status, flow_name_label, dashboard_label}
use module_lib.Graph.Elements.{is_node, is_edge, string_at, is_text}
use module_lib.Graph.Ids.{generate_edge_id}

pub data BuildError : Type 0 where
  no_id : BuildError
  duplicate_id no_component no_flow : Text → BuildError
  -- the node and the port
  handle_configuration handle_schema : Text → Text → BuildError
  dangling_edge : Text → Text → Text → Text → BuildError
  edge_configuration edge_schema : Text → BuildError

pub record Numbers : Type 0 where
  pub marshal : Json → Option Text
  pub int_of : Text → ℤ

pub record Build : Type 0 where
  pub nodes : Dict Node
  pub order : List Text
  pub errors : List BuildError

-- The bytes of a configuration or schema, and the error if it cannot be marshalled.
pub marshalled : (Json → Option Text) → BuildError → Json → Text × List BuildError
marshalled marshal e null = ([], [])
marshalled marshal e v = elim (marshal v) [ some b ↦ (b, []) | none ↦ ([], e ∷ []) ]

put_text : Dict Text → Text → Text → Dict Text
put_text m k v = if v == [] then m else Dict.put m k v

abbrev pub handles : Option Items → List Json
handles none = []
handles (some xs) = elements xs

abbrev pub refuse : BuildError → Build → Build
refuse e b = record b { errors = b.errors ++ (e ∷ []) }

abbrev pub accept : Text → Node × List BuildError → Build → Build
accept id (node, errors) b = record {
  nodes = Dict.put b.nodes id node;
  order = b.order ++ (id ∷ []);
  errors = b.errors ++ errors;
}

module _ (numbers : Numbers) where
  get_int : Json → ℤ
  get_int (number n) = numbers.int_of n
  get_int _ = pos 0

  -- The ports and the port configurations that a list of handles gives.
  pub handle_ports : Text → List Json → List PortStatus × List PortConfig × List BuildError
  unfolding marshalled get_int
  handle_ports node [] = ([], [], [])
  handle_ports node (object h ∷ hs) =
      let port = string_at h (codes "id") in
      let is_source = is_text (codes "source") (at h (codes "type")) in
      let (config, e) =
        marshalled numbers.marshal (handle_configuration node port)
          (at h (codes "configuration")) in
      let (schema, e') =
        marshalled numbers.marshal (handle_schema node port) (at h (codes "schema")) in
      let (ports, configs, errors) = handle_ports node hs in
      let status : PortStatus = record {
        name = port;
        label = string_at h (codes "label");
        position = get_int (at h (codes "position"));
        source = is_source;
        schema = schema;
        configuration = config;
      } in
      let own : PortConfig = record {
        from = [];
        port = port;
        schema = schema;
        configuration = config;
        flow_id = [];
      } in
      if port == [] then (ports, configs, errors) else (
        status ∷ ports,
        (if is_source || config == [] && schema == [] then configs else own ∷ configs),
        e ++ (e' ++ errors),
      )
  handle_ports node (_ ∷ hs) = handle_ports node hs

  position : Option Fields → Text → Text
  unfolding get_int
  position none axis = itoa (pos 0)
  position (some p) axis = itoa (get_int (at p axis))

  annotations : Fields → Fields → Dict Text
  unfolding position put_text get_int
  annotations elem dm =
      let place = as_object (at elem (codes "position")) in
      let m =
        (codes "tinysystems.io/component-pos-x", position place (codes "x"))
        ∷ (codes "tinysystems.io/component-pos-y", position place (codes "y"))
        ∷ (codes "tinysystems.io/component-pos-spin", itoa (get_int (at dm (codes "spin"))))
        ∷ [] in
      put_text
        (put_text
          (put_text (put_text m (codes "tinysystems.io/node-label") (string_at dm (codes "label")))
            (codes "tinysystems.io/node-comment") (string_at elem (codes "comment")))
          (codes "tinysystems.io/dashboard-page") (string_at dm (codes "dashboard_page")))
        (codes "tinysystems.io/shared-with-flows") (string_at dm (codes "shared_with_flows"))

  built_node : Text → Fields → Fields → Node × List BuildError
  unfolding handle_ports annotations put_text
  built_node id elem dm =
      let (ports, configs, errors) =
        handle_ports id (handles (as_array (at dm (codes "handles")))) in
      (
        record {
          name = id;
          namespace = [];
          labels =
              put_text ((flow_name_label, string_at elem (codes "flow")) ∷ []) dashboard_label
                (string_at dm (codes "dashboard"));
          annotations = annotations elem dm;
          module_name = string_at dm (codes "module");
          component = string_at dm (codes "component");
          ports = configs;
          edges = [];
          status = record {
            module_name = string_at dm (codes "module");
            description = string_at dm (codes "component_description");
            info = string_at dm (codes "component_info");
            ports = ports;
            metadata = [];
            status = [];
            error = false;
          };
        },
        errors,
      )

  add_node_data : Fields → Option Fields → Build → Build
  unfolding built_node
  add_node_data elem none b = b
  add_node_data elem (some dm) b =
      let id = string_at elem (codes "id") in
      if id == []
      then refuse no_id b
      else if Dict.has b.nodes id
      then refuse (duplicate_id id) b
      else if string_at dm (codes "component") == [] || string_at dm (codes "module") == []
      then refuse (no_component id) b
      else if string_at elem (codes "flow") == []
      then refuse (no_flow id) b
      else accept id (built_node id elem dm) b

  unfoldable pub add_nodes : List Fields → Build → Build
  unfolding add_node_data
  add_nodes [] b = b
  add_nodes (e ∷ es) b = add_nodes es (add_node_data e (is_node e) b)

-- src.Spec.Edges = append(src.Spec.Edges, e), and the same of tgt.Spec.Ports: the nodes are shared with
-- the map.
append_edge : Edge → Node → Node
append_edge e n = record n { edges = n.edges ++ (e ∷ []) }

append_config : PortConfig → Node → Node
append_config p n = record n { ports = n.ports ++ (p ∷ []) }

unfoldable pub update : (Node → Node) → Text → Dict Node → Dict Node
update f id nodes = elim (Dict.get nodes id) [ none ↦ nodes | some n ↦ Dict.put nodes id (f n) ]

unfoldable pub edge_of : Fields → Edge
edge_of elem =
    let source = string_at elem (codes "source") in
    let source_handle = string_at elem (codes "sourceHandle") in
    let target = string_at elem (codes "target") in
    let target_handle = string_at elem (codes "targetHandle") in
    let id = string_at elem (codes "id") in
    record {
      id = if id == [] then generate_edge_id source source_handle target target_handle else id;
      port = source_handle;
      to = target ++ (b':' ∷ target_handle);
      flow_id = string_at elem (codes "flow");
      retry_policy = none;
    }

module _ (numbers : Numbers) where
  add_edge_data : Fields → Option Fields → Build → Build
  unfolding marshalled update append_config edge_of
  add_edge_data elem none b = b
  add_edge_data elem (some dm) b =
      let id = (edge_of elem).id in
      let (config, e) =
        marshalled numbers.marshal (edge_configuration id) (at dm (codes "configuration")) in
      let (schema, e') = marshalled numbers.marshal (edge_schema id) (at dm (codes "schema")) in
      let port : PortConfig = record {
        from = string_at elem (codes "source") ++ (b':' ∷ string_at elem (codes "sourceHandle"));
        port = string_at elem (codes "targetHandle");
        schema = schema;
        configuration = config;
        flow_id = string_at elem (codes "flow");
      } in
      record b {
        nodes =
            if config == [] && schema == []
            then b.nodes
            else update (append_config port) (string_at elem (codes "target")) b.nodes;
        errors = b.errors ++ (e ++ e');
      }

  add_edge : Fields → Build → Build
  unfolding add_edge_data edge_of update append_edge
  add_edge elem b =
      let source = string_at elem (codes "source") in
      let target = string_at elem (codes "target") in
      if not (Dict.has b.nodes source) || not (Dict.has b.nodes target)
      then refuse
          (dangling_edge source (string_at elem (codes "sourceHandle")) target
            (string_at elem (codes "targetHandle")))
          b
      else add_edge_data elem (as_object (at elem (codes "data")))
          (record b { nodes = update (append_edge (edge_of elem)) source b.nodes })

  unfoldable pub add_edges : List Fields → Build → Build
  unfolding add_edge
  add_edges [] b = b
  add_edges (e ∷ es) b = let added = add_edge e b in add_edges es (if is_edge e then added else b)

  unfoldable pub nodes_from_graph_elements : List Fields → Build
  unfolding add_nodes add_edges
  nodes_from_graph_elements es =
      add_edges es (add_nodes numbers es (record { nodes = []; order = []; errors = [] }))
