-- ===== src/Scheduler.antt =====
-- The scheduler's tables of components and instances: internal/scheduler/scheduler.go, with the runner's
-- SetNode and Stop of internal/scheduler/runner/runner.go. What the child modules model stands in their
-- own comments.
pub mod Removal
pub mod Registry
pub mod Settings
pub mod Rpc
pub mod Router
pub mod Routing
use module_lib.Prelude.{
  ℕ, zero, suc, ◌+◌, Bool, true, false, not, ◌&&◌, ◌||◌, Option, none, some, ◌⊎◌, inl, inr, List,
  [], ◌∷◌, ◌++◌, Text, codes, ◌==◌, ltb, any, if◌then◌else◌,
}
use module_lib.Dict
use module_lib.Dict.{Dict}
use module_lib.Names.{parse_full_port_name, get_port_full_name}
use module_lib.Errors.{Err, plain, permanent_error, error_text}
use module_lib.Node.{
  Node, Status, Edge, settings_port, reconcile_port, flow_name_label, project_name_label,
  execution_mode_label, execution_mode_durable,
}
use module_lib.Run.{Msg}
use module_lib.Runner.Send.{Outcome, ok, fail}
use module_lib.Runner.Messages.{
  Component, StepLedger, Values, Clock, Runner, Emit, Port, find_port, get_ports, msg_handler,
}
use module_lib.Runner.Status.{JsonCodec, Encodings, read_status}

pub record NodeIdentity : Type 0 where
  pub node_name : Text
  pub namespace : Text
  pub flow_name : Text
  pub project_name : Text

-- The callbacks that Update makes on a component that implements them.
pub record Lifecycle (W : Type 0) : Type 0 where
  pub on_identity : Option (NodeIdentity → W → W)
  pub on_client : Option (W → W)
  pub on_nats : Option (W → W)
  pub on_state : Option (W → W)
  pub on_emitter : Option (W → W)
  pub on_reconcile : Option (Node → W → Option Err × W)
  pub on_destroy : Option (Dict Text → W → W)

-- An installed component, and what its Instance gives, if that is not nil.
pub record Kind (W V A : Type 0) : Type 0 where
  pub name : Text
  pub description : Text
  pub info : Text
  pub component : Component W V A
  -- Instance() is not nil, which only a tool call tests
  pub instantiates : Bool
  pub lifecycle : Lifecycle W
  -- the input and the output port of a module.AgentTool
  pub agent_tool : Option (Text × Text)

pub record Instance (W V A : Type 0) : Type 0 where
  pub kind : Kind W V A
  pub runner : Runner V

pub record Schedule (W V A : Type 0) : Type 0 where
  pub components : Dict (Kind W V A)
  pub instances : Dict (Instance W V A)
  -- s.stateFactory is not nil, and s.manager is a module.K8sClient
  pub has_factory : Bool
  pub has_client : Bool

abbrev label_at : Dict Text → Text → Text
label_at m k = elim (Dict.get m k) [ none ↦ [] | some v ↦ v ]

unfoldable pub set_node : {V : Type 0} → Node → Runner V → Runner V
set_node node r = record r {
  name = node.name;
  node = node;
  exec_durable = label_at node.labels execution_mode_label == execution_mode_durable;
  node_ports = none;
}

abbrev pub empty_runner : {V : Type 0} → Node → Runner V
empty_runner node = record {
  name = [];
  node = node;
  exec_durable = false;
  has_state = false;
  node_ports = none;
  port_msg = [];
  settings_secret_at = [];
}

identity_of : Node → NodeIdentity
identity_of node = record {
  node_name = node.name;
  namespace = node.namespace;
  flow_name = label_at node.labels flow_name_label;
  project_name = label_at node.labels project_name_label;
}

abbrev call : {W : Type 0} → Option (W → W) → W → W
call none w = w
call (some f) w = f w

abbrev identify : {W : Type 0} → Option (NodeIdentity → W → W) → NodeIdentity → W → W
identify none identity w = w
identify (some f) identity w = f identity w

unfoldable pub settings_msg : Node → Msg
settings_msg node = record {
  edge_id = [];
  from = [];
  to = get_port_full_name node.name settings_port;
  payload = codes "{}";
  depth = 0;
  mode = [];
  run_id = [];
  step_key = [];
  reply_subject = [];
  reply_target = [];
  reply_deadline = 0;
}

unfoldable pub reconcile :
    {W : Type 0} → Option (Node → W → Option Err × W) → Node → W → Option Err × W
reconcile none node w = (none, w)
reconcile (some f) node w = f node w

abbrev failed_status : Err → Status → Status
failed_status e status = record status { status = error_text e; error = true }

-- What an update reports: the returned error, and the node's status.
abbrev pub Report : Type 0
Report = Option Err × Status

module _ {W V A : Type 0} where
  unfoldable pub new_instance : Kind W V A → Node → Instance W V A
  unfolding set_node
  new_instance kind node = record { kind = kind; runner = set_node node (empty_runner node) }

  unfoldable pub install : Kind W V A → Schedule W V A → Option Err × Schedule W V A
  install kind s =
      if kind.name == []
      then (some (plain (codes "component name is invalid")), s)
      else (none, record s { components = Dict.put s.components kind.name kind })

  destroyed : Instance W V A → Option (Dict Text → W → W) → W → W
  destroyed i none w = w
  destroyed i (some f) w = f i.runner.node.status.metadata w

  -- Stop, as far as it concerns the component; the flush of its updates is Runner.Updates.
  destroy_found : Text → Schedule W V A → W → Option (Instance W V A) → Schedule W V A × W
  unfolding destroyed
  destroy_found name s w none = (s, w)
  destroy_found name s w (some i) = (
    record s { instances = Dict.delete s.instances name },
    destroyed i i.kind.lifecycle.on_destroy w,
  )

  unfoldable pub destroy : Text → Schedule W V A → W → Schedule W V A × W
  unfolding destroy_found
  destroy name s w = destroy_found name s w (Dict.get s.instances name)

  -- The loop of Uninstall over the instances there were.
  unfoldable pub destroy_each :
      Text → Dict (Instance W V A) → Schedule W V A → W → Schedule W V A × W
  unfolding destroy
  destroy_each name [] s w = (s, w)
  destroy_each name ((k, i) ∷ items) s w =
      let (s', w') = destroy i.runner.node.name s w in
      let stopped = destroy_each name items s' w' in
      let left = destroy_each name items s w in if i.kind.name == name then stopped else left

  unfoldable pub uninstall : Text → Schedule W V A → W → Bool × Schedule W V A × W
  unfolding destroy_each
  uninstall name s w =
      let s' = record s { components = Dict.delete s.components name } in
      let (s'', w') = destroy_each name s'.instances s' w in
      if name == [] || not (Dict.has s.components name) then (false, s, w) else (true, s'', w')

  unfoldable pub has_instance : Text → Schedule W V A → Bool
  has_instance name s = Dict.has s.instances name

  -- Start's loop at shutdown, without OnDestroy
  unfoldable pub shut_down : List Text → Schedule W V A → Schedule W V A
  shut_down [] s = s
  shut_down (name ∷ names) s =
      shut_down names (record s { instances = Dict.delete s.instances name })

  -- The callbacks before OnReconcile, in the enforced order; state and emitter at the first update only.
  unfoldable pub introduce : Schedule W V A → Bool → Node → Lifecycle W → W → W
  unfolding identity_of
  introduce s is_new node l w =
      let identified = identify l.on_identity (identity_of node) w in
      let with_client = if s.has_client then call l.on_client identified else identified in
      let with_nats = call l.on_nats with_client in
      let with_state = if is_new && s.has_factory then call l.on_state with_nats else with_nats in
      if is_new then call l.on_emitter with_state else with_state

  module _ {D J : Type 0} (ledger : StepLedger W) (values : Values V D J) (clock : Clock W)
      (codec : JsonCodec) (encodings : Encodings V)
      -- DataHandler of a node's runner, and the refresh of a state backend's snapshot
      (emits : Text → Emit W V A) (notify : Dict Text → W → W) where
    roll_back : Node → Err → Status → Kind W V A → Runner V → W → Report × Instance W V A × W
    unfolding set_node
    roll_back backup e status kind r w =
        ((none, failed_status e status), record { kind = kind; runner = set_node backup r }, w)

    after_settings :
        Node → Status → Kind W V A → Outcome A × Runner V × W → Report × Instance W V A × W
    unfolding roll_back read_status
    after_settings backup status kind (fail e, r, w) = roll_back backup e status kind r w
    after_settings backup status kind (ok res, r, w) =
        let (status', r') =
          read_status codec encodings kind.component kind.description kind.info r w status in
        ((none, status'), record { kind = kind; runner = r' }, w)

    after_reconcile :
        Node → Node → Kind W V A → Runner V → Option Err × W → Report × Instance W V A × W
    unfolding roll_back after_settings msg_handler settings_msg
    after_reconcile backup node kind r (some e, w) = roll_back backup e node.status kind r w
    after_reconcile backup node kind r (none, w) = after_settings backup node.status kind (
        msg_handler kind.component ledger values clock (emits node.name) none (settings_msg node) r
          (notify node.status.metadata w))

    -- The update of an instance, with its new node; the old one is kept for a failure.
    unfoldable pub update_instance :
        Schedule W V A → Bool → Node → Instance W V A → W → Report × Instance W V A × W
    unfolding after_reconcile set_node introduce reconcile
    update_instance s is_new node i w =
        let r = set_node node i.runner in
        let r' = record r { has_state = r.has_state || (is_new && s.has_factory) } in
        after_reconcile i.runner.node node i.kind r' (
          reconcile i.kind.lifecycle.on_reconcile node (introduce s is_new node i.kind.lifecycle w))

    abbrev stored :
        Text → Schedule W V A → Report × Instance W V A × W → Report × Schedule W V A × W
    stored name s (report, i, w) = (report, record s { instances = Dict.put s.instances name i }, w)

    -- The instance that there is, or a new one.
    update_at :
        Kind W V A
        → Node
        → Schedule W V A
        → W
        → Option (Instance W V A)
        → Report × Schedule W V A × W
    unfolding update_instance new_instance
    update_at kind node s w none =
        stored node.name s (update_instance s true node (new_instance kind node) w)
    update_at kind node s w (some i) = stored node.name s (update_instance s false node i w)

    update_kind : Node → Schedule W V A → W → Option (Kind W V A) → Report × Schedule W V A × W
    unfolding update_at
    update_kind node s w none = (
      (
        some (
            permanent_error
              (plain (codes "component " ++ (node.component ++ codes " is not registered")))),
        node.status,
      ),
      s,
      w,
    )
    update_kind node s w (some kind) = update_at kind node s w (Dict.get s.instances node.name)

    unfoldable pub update : Node → Schedule W V A → W → Report × Schedule W V A × W
    unfolding update_kind
    update node s w = update_kind node s w (Dict.get s.components node.component)
