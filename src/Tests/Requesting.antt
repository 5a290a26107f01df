-- ===== src/Tests/Requesting.antt =====
-- Requests of a flow's editor.
use module_lib.Prelude.{ℕ, ◌≡◌, refl, true, ◌&&◌, none, some, List, [], ◌∷◌, Text, codes, ◌==◌, any}
use module_lib.Dict
use module_lib.Json.{number, text, object, Fields, end, field, lookup, at}
use module_lib.Node.{Edge, PortConfig}
use module_lib.Graph.Requests.{RequestElement, RequestMap}
use module_lib.Graph.Requests.Configs.{existing_configs, update_port_configs}
use module_lib.Graph.Requests.Configs.Kept.{update_port_configs-keep}
use module_lib.Graph.Requests.Configs.Preferred.{first_of, last_at, get-existing_configs}

abbrev count : Text → ℕ
count [] = 0
count s = 1

abbrev once : Fields
once = field (codes "maxAttempts") (number (codes "1")) end

abbrev edge_data : Fields
edge_data = field (codes "retryPolicy") (object once) end

-- An edge that asks for one attempt.
abbrev edge_fields : Fields
edge_fields = field (codes "id") (text (codes "e")) (
    field (codes "sourceHandle") (text (codes "out")) (
      field (codes "target") (text (codes "b")) (
        field (codes "targetHandle") (text (codes "in"))
          (field (codes "data") (object edge_data) end))))

abbrev source : RequestElement
source = record {
  fields = field (codes "data") (object end) end;
  ports = some (edge_fields ∷ edge_fields ∷ []);
}

abbrev request : RequestMap
request = (codes "a", source) ∷ []

abbrev stored : Text → Text → Edge
stored id flow = record {
  id = id;
  port = codes "out";
  to = codes "c:in";
  flow_id = flow;
  retry_policy = none;
}

abbrev edges : List Edge
edges =
    stored (codes "e") []
    ∷ stored (codes "f") (codes "other")
    ∷ stored (codes "g") (codes "flow")
    ∷ []

abbrev config : Text → Text → PortConfig
config flow conf = record {
  from = codes "x:out";
  port = codes "in";
  schema = [];
  configuration = conf;
  flow_id = flow;
}

-- Of the flow, of another, and legacy.
abbrev configs : List PortConfig
configs =
    config [] (codes "1")
    ∷ config (codes "other") (codes "2")
    ∷ config (codes "flow") (codes "3")
    ∷ []

update_port_configs-keep_example :
    any
      (λ c. c.flow_id == codes "other" && c.configuration == codes "2")
      (update_port_configs
        (λ v. [])
        (λ ps. ps)
        (λ port s. [])
        (λ port s. [])
        configs
        (codes "flow")
        (codes "a")
        request)
    ≡ true
unfolding Dict.get ◌==◌ lookup at
update_port_configs-keep_example =
    update_port_configs-keep (λ v. []) (λ ps. ps) (λ port s. []) (λ port s. []) (λ q xs. refl)
      (λ c. c.configuration == codes "2") configs (codes "flow") (codes "other") (codes "a") request
      source end refl refl refl

get-existing_configs_example :
    Dict.get (existing_configs (codes "flow") configs []) (codes "x:out->in")
    ≡ some (config (codes "flow") (codes "3"))
unfolding first_of last_at ◌==◌
get-existing_configs_example = get-existing_configs (codes "x:out->in") (codes "flow") configs
