-- ===== src/Runner/Status.antt =====
-- A node's published status: ReadStatus and redactPortConfiguration of
-- internal/scheduler/runner/runner.go. What JSON encodes and decodes, and the schema that is made from a
-- configuration, are arguments.
pub mod Hidden
use module_lib.Prelude.{
  Bool, true, false, not, ◌&&◌, ◌||◌, Option, none, some, List, [], ◌∷◌, Text, codes, ◌==◌, ltb,
  keep, map, if◌then◌else◌,
}
use module_lib.Json.{
  Json, Items, Fields, null, bool, number, text, array, object, nil, item, end, field,
}
use module_lib.Redact.{secrets}
use module_lib.Node.{PortStatus, Status, reconcile_port, client_port, identity_port}
use module_lib.Runner.Messages.{Component, Runner, Port, listed_ports}

-- reflect.DeepEqual on decoded values: the redaction keeps an object's keys and their order.
abbrev same_bool : Bool → Bool → Bool
same_bool true b = b
same_bool false b = not b

unfoldable mutual
  pub deep_equal : Json → Json → Bool
  deep_equal null null = true
  deep_equal (bool a) (bool b) = same_bool a b
  deep_equal (number a) (number b) = a == b
  deep_equal (text a) (text b) = a == b
  deep_equal (array a) (array b) = equal_items a b
  deep_equal (object a) (object b) = equal_fields a b
  deep_equal _ _ = false

  pub equal_items : Items → Items → Bool
  equal_items nil nil = true
  equal_items (item v xs) (item u ys) = deep_equal v u && equal_items xs ys
  equal_items _ _ = false

  pub equal_fields : Fields → Fields → Bool
  equal_fields end end = true
  equal_fields (field j v m) (field k u n) = j == k && (deep_equal v u && equal_fields m n)
  equal_fields _ _ = false

-- encoding/json: a number keeps its literal (UseNumber)
pub record JsonCodec : Type 0 where
  pub decode : Text → Option Json
  pub encode : Json → Option Text

-- no bytes, where there is an error
abbrev bytes_of : Option Text → Text
bytes_of none = []
bytes_of (some b) = b

redacted_bytes : JsonCodec → Text → Option Json → Text
unfolding deep_equal secrets
redacted_bytes codec payload none = []
redacted_bytes codec payload (some v) =
    if deep_equal v (secrets v) then payload else bytes_of (codec.encode (secrets v))

unfoldable pub redact_port_configuration : JsonCodec → Text → Text
unfolding redacted_bytes
redact_port_configuration codec payload =
    let redacted = redacted_bytes codec payload (codec.decode payload) in
    if payload == [] then payload else redacted

-- a.Name < b.Name, by bytes
text_ltb : Text → Text → Bool
text_ltb [] [] = false
text_ltb [] (b ∷ t) = true
text_ltb (a ∷ s) [] = false
text_ltb (a ∷ s) (b ∷ t) = if ltb a b then true else if ltb b a then false else text_ltb s t

-- The stable sort by name: a port goes before those that are not less.
insert_port : {V : Type 0} → Port V → List (Port V) → List (Port V)
unfolding text_ltb
insert_port p [] = p ∷ []
insert_port p (q ∷ qs) =
    let later = insert_port p qs in if text_ltb q.name p.name then q ∷ later else p ∷ q ∷ qs

unfoldable pub sort_ports : {V : Type 0} → List (Port V) → List (Port V)
unfolding insert_port
sort_ports [] = []
sort_ports (p ∷ ps) = insert_port p (sort_ports ps)

-- The ports without the system's own.
abbrev pub is_published : {V : Type 0} → Port V → Bool
is_published p = not (p.name == reconcile_port || p.name == client_port || p.name == identity_port)

-- schema.CreateSchema with MarshalJSON, and json.Marshal: none for an error
pub record Encodings (V : Type 0) : Type 0 where
  pub create_schema : V → Option Text
  pub marshal : V → Option Text

module _ {V : Type 0} (codec : JsonCodec) (encodings : Encodings V) where
  schema_of : Option Text → Option V → Text
  schema_of (some schema) configuration = schema
  schema_of none none = []
  schema_of none (some v) = bytes_of (encodings.create_schema v)

  configuration_of : Option V → Text
  unfolding redact_port_configuration
  configuration_of none = []
  configuration_of (some v) = redact_port_configuration codec (bytes_of (encodings.marshal v))

  port_status : Port V → PortStatus
  unfolding schema_of configuration_of
  port_status p = record {
    name = p.name;
    label = p.label;
    position = p.position;
    source = p.source;
    schema = schema_of p.schema p.configuration;
    configuration = configuration_of p.configuration;
  }

  unfoldable pub port_statuses : List (Port V) → List PortStatus
  unfolding port_status
  port_statuses [] = []
  port_statuses (p ∷ ps) = port_status p ∷ port_statuses ps

  -- The status, and the runner with its cache of ports.
  unfoldable pub read_status :
      {W A : Type 0} → Component W V A → Text → Text → Runner V → W → Status → Status × Runner V
  unfolding sort_ports port_statuses
  read_status c description info r w status = (
    record status {
      status = codes "OK";
      error = false;
      ports = port_statuses (sort_ports (keep is_published (listed_ports (c.ports w))));
      description = description;
      info = info;
    },
    record r { node_ports = c.ports w },
  )
