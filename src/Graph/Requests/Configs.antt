-- ===== src/Graph/Requests/Configs.antt =====
-- The port configurations of a node after the save of a flow: `UpdatePortConfigsFromRequest` and
-- `UpdatePortConfigsFromRequestWithDefaults` of pkg/utils/elements.go, one body with the two ways to the schema
-- of a port. The order by a hash of github.com/mitchellh/hashstructure is an argument, and so is json.Marshal.
pub mod Kept
pub mod Preferred
use module_lib.Prelude.{
  ◌≡◌, refl, Bool, true, false, not, ◌&&◌, ◌||◌, Option, none, some, List, [], ◌∷◌, ◌++◌, Text,
  codes, ◌==◌, keep, if◌then◌else◌,
}
use module_lib.Dict
use module_lib.Dict.{Dict}
use module_lib.Json.{
  Json, null, bool, number, text, array, object, Fields, at, as_object, elements, is_null,
}
use module_lib.Names.{get_port_full_name}
use module_lib.Node.{Node, PortConfig, PortStatus, settings_port}
use module_lib.Graph.Elements.{string_at, is_edge}
use module_lib.Graph.Requests.{RequestElement, RequestMap}

-- PortConfig of elements.go
pub record HandlePort : Type 0 where
  pub from : Text
  pub name : Text
  pub source : Bool
  pub schema : Text
  pub configuration : Text

abbrev pub fallback_key : Text → Text → Text
fallback_key from port = from ++ codes "->" ++ port

-- The loop for existingConfigs: the flow's own configuration is preferred, then a legacy one.
existing_step : Text → PortConfig → Dict PortConfig → Option PortConfig → Dict PortConfig
existing_step flow p m none = Dict.put m (fallback_key p.from p.port) p
existing_step flow p m (some old) =
    let replaced = Dict.put m (fallback_key p.from p.port) p in
    if old.flow_id == flow
    then m
    else if p.flow_id == flow
    then replaced
    else if old.flow_id == []
    then m
    else replaced

unfoldable pub existing_configs : Text → List PortConfig → Dict PortConfig → Dict PortConfig
unfolding existing_step
existing_configs flow [] m = m
existing_configs flow (p ∷ ps) m =
    let m' = existing_step flow p m (Dict.get m (fallback_key p.from p.port)) in
    let skipped = existing_configs flow ps m in
    let rest = existing_configs flow ps m' in if p.from == [] then skipped else rest

unfoldable pub clean_legacy_port_configs : List PortConfig → List PortConfig
clean_legacy_port_configs configs = keep (λ p. not (p.flow_id == [])) configs

-- The schema of a port where the request gives this one; the defaults of the import have the port's name.
unfoldable pub schema_or_default : (Json → Text) → Option (Dict Text) → Text → Json → Text
schema_or_default marshal defaults port s = if is_null s then default_of defaults else marshal s
  where
    given : Option Text → Text
    given none = []
    given (some schema) = schema

    default_of : Option (Dict Text) → Text
    default_of none = []
    default_of (some m) = given (Dict.get m port)

-- The inner loop of BuildDefaultSchemasMap, and the outer one.
default_schemas : Text → List PortStatus → Dict Text → Dict Text
default_schemas node [] m = m
default_schemas node (p ∷ ps) m =
    default_schemas node ps
      (if p.schema == [] then m else Dict.put m (get_port_full_name node p.name) p.schema)

unfoldable pub build_default_schemas_map : Dict Node → Dict Text → Dict Text
unfolding default_schemas
build_default_schemas_map [] m = m
build_default_schemas_map ((name, node) ∷ nodes) m =
    build_default_schemas_map nodes (default_schemas name node.status.ports m)

module _ (marshal : Json → Text) (sort : List PortConfig → List PortConfig)
    -- the schema of a handle and of an edge, at the port of this name
    (handle_schema edge_schema : Text → Json → Text) where
  handle_port : Fields → List HandlePort
  handle_port h =
      let conf = at h (codes "configuration") in
      let port : HandlePort = record {
        from = [];
        name = string_at h (codes "id");
        source = string_at h (codes "type") == codes "source";
        schema = handle_schema (string_at h (codes "id")) (at h (codes "schema"));
        configuration = marshal conf;
      } in
      if string_at h (codes "id") == settings_port && not (is_null conf) then port ∷ [] else []

  settings_handles : List Json → List HandlePort
  unfolding handle_port
  settings_handles [] = []
  settings_handles (object h ∷ hs) = handle_port h ++ settings_handles hs
  settings_handles (_ ∷ hs) = settings_handles hs

  listed_handles : Json → List HandlePort
  unfolding settings_handles
  listed_handles (array xs) = settings_handles (elements xs)
  listed_handles _ = []

  -- An edge's configuration and its schema.
  edge_data : Text → Json → Text × Text
  edge_data port (object d) =
      let conf = at d (codes "configuration") in
      (if is_null conf then [] else marshal conf, edge_schema port (at d (codes "schema")))
  edge_data port _ = ([], [])

  edge_port : Fields → HandlePort
  unfolding edge_data
  edge_port e =
      let name = string_at e (codes "targetHandle") in
      let (conf, schema) = edge_data name (at e (codes "data")) in
      record {
        from =
            get_port_full_name (string_at e (codes "source")) (string_at e (codes "sourceHandle"));
        name = name;
        source = false;
        schema = schema;
        configuration = conf;
      }

  -- The edges of the request that target the node.
  edge_ports : Text → RequestMap → List HandlePort
  unfolding edge_port
  edge_ports node [] = []
  edge_ports node ((id, e) ∷ m) =
      let rest = edge_ports node m in
      if is_edge e.fields
        && not (string_at e.fields (codes "source") == node)
        && string_at e.fields (codes "target") == node
      then edge_port e.fields ∷ rest
      else rest

  -- The configuration of the flow, with that of an existing one where the request has none.
  fallen_back : HandlePort → PortConfig → Option PortConfig → PortConfig
  fallen_back hp pc none = pc
  fallen_back hp pc (some old) =
      if hp.configuration == [] && hp.schema == []
      then record pc { configuration = old.configuration; schema = old.schema }
      else pc

  converted : Text → Dict PortConfig → List HandlePort → List PortConfig
  unfolding fallen_back
  converted flow existing [] = []
  converted flow existing (hp ∷ hps) =
      let rest = converted flow existing hps in
      let asked : PortConfig = record {
        from = hp.from;
        port = hp.name;
        schema = hp.schema;
        configuration = hp.configuration;
        flow_id = flow;
      } in
      let pc = fallen_back hp asked (Dict.get existing (fallback_key hp.from hp.name)) in
      if hp.from == [] && hp.source
      then rest
      else if pc.configuration == [] && pc.schema == []
      then rest
      else pc ∷ rest

  flow_configs : List PortConfig → Text → Text → RequestMap → Fields → List PortConfig
  unfolding converted edge_ports listed_handles existing_configs clean_legacy_port_configs
  flow_configs ports flow node m d = sort (
      clean_legacy_port_configs (
        keep (λ p. not (p.flow_id == flow)) ports
        ++ converted flow (existing_configs flow ports [])
            (listed_handles (at d (codes "handles")) ++ edge_ports node m)))

  updated_configs :
      List PortConfig → Text → Text → RequestMap → Option RequestElement → List PortConfig
  unfolding flow_configs
  updated_configs ports flow node m none = ports
  updated_configs ports flow node m (some e) = of_data (as_object (at e.fields (codes "data")))
    where
      of_data : Option Fields → List PortConfig
      of_data none = ports
      of_data (some d) = flow_configs ports flow node m d

  unfoldable pub update_port_configs : List PortConfig → Text → Text → RequestMap → List PortConfig
  unfolding updated_configs
  update_port_configs ports flow node m = updated_configs ports flow node m (Dict.get m node)

module _ (marshal : Json → Text) (sort : List PortConfig → List PortConfig) where
  unfoldable pub update_port_configs_from_request :
      List PortConfig → Text → Text → RequestMap → List PortConfig
  unfolding update_port_configs
  update_port_configs_from_request =
      update_port_configs marshal sort (λ port s. marshal s)
        (λ port s. if is_null s then [] else marshal s)

  unfoldable pub update_port_configs_from_request_with_defaults :
      List PortConfig → Text → Text → RequestMap → Option (Dict Text) → List PortConfig
  unfolding update_port_configs schema_or_default
  update_port_configs_from_request_with_defaults ports flow node m defaults =
      let schema : Text → Json → Text =
        λ port s. schema_or_default marshal defaults (get_port_full_name node port) s in
      update_port_configs marshal sort schema schema ports flow node m
