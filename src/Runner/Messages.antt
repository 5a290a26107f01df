-- ===== src/Runner/Messages.antt =====
-- `MsgHandler` of internal/scheduler/runner/runner.go: one message delivered to the component, and the step
-- record that a durable hop leaves. What the component, the step ledger and the clock do is a world W,
-- threaded through. V is the type of the values at ports, which the code handles by reflection. The context
-- holds a run by a pointer: the run that a component's call returns is what MsgHandler's context has
-- after it.

pub mod Prepared
pub mod Replay
pub mod Sends
pub mod Settings
use Prim.Native.Nat.{◌/◌}
use module_lib.Prelude.{
  ℕ, ◌+◌, ◌-◌, ◌*◌, Bool, true, false, not, ◌&&◌, ◌||◌, Option, none, some, ◌⊎◌, inl, inr, List, [],
  ◌∷◌, ◌++◌, Text, codes, ◌==◌, leb, starts_with, if◌then◌else◌,
}
use module_lib.Prelude.Int.{ℤ}
use module_lib.Dict
use module_lib.Dict.{Dict}
use module_lib.Names.{parse_full_port_name}
use module_lib.Errors.{Err, plain, wrap, error_text}
use module_lib.Node.{
  Node, PortConfig, reconcile_port, control_port, settings_port, client_port, identity_port,
}
use module_lib.Run.{Msg, Run, StepRecord, StepStatus, new_run, mint_run, step_ledger_key}
use module_lib.Runner.Send.{Outcome, ok, fail}

-- module.Port; no configuration is a nil one, and so is no schema
pub record Port (V : Type 0) : Type 0 where
  pub name : Text
  pub label : Text
  pub position : ℤ
  pub source : Bool
  pub schema : Option Text
  pub configuration : Option V

-- An emit of the component: a port and its data, with the run that its context carries.
abbrev pub Emit : Type 0 → Type 0 → Type 0 → Type 0
Emit W V A = Text → V → Option Run → W → Outcome A × Option Run × W

-- A component with the capabilities that it implements. A panic is the error that errorpanic.Wrap makes
-- of it. A nil slice of ports is `none`.
pub record Component (W V A : Type 0) : Type 0 where
  pub ports : W → Option (List (Port V))
  pub on_settings : Option (V → W → Option Err × W)
  pub on_control : Option (V → W → Option Err × W)
  pub handle : Emit W V A → Text → V → Option Run → W → Outcome A × Option Run × W

-- The step ledger: the State backend scoped to a run.
pub record StepLedger (W : Type 0) : Type 0 where
  pub read : Text → Text → W → Option Text
  pub write : Text → Text → Text → W → Option Err × W
  pub encode : StepRecord → Option Text

-- What builds the value at a port. The zero value of a port's type is made from its configuration.
pub record Values (V D J : Type 0) : Type 0 where
  -- json.Unmarshal into the port's type
  pub unmarshal : V → Text → Err ⊎ V
  -- ajson.Unmarshal, and the evaluator over the document that it gives
  pub parse : Text → Err ⊎ D
  pub evaluate : D → Text → Err ⊎ J
  -- jsonEncodeDecode into the port's type
  pub convert : V → J → Err ⊎ V
  -- cmp.Equal and secret.ContainsPlaceholder
  pub same : V → V → Bool
  pub has_secret : V → Bool

-- Unix nanoseconds, and uuid.NewString and uuid.NewUUID
pub record Clock (W : Type 0) : Type 0 where
  pub now : W → ℕ
  pub new_string : W → Text × W
  pub new_uuid : W → Option Err × W

pub record Runner (V : Type 0) : Type 0 where
  pub name : Text
  pub node : Node
  pub exec_durable : Bool
  -- c.state is not nil
  pub has_state : Bool
  pub node_ports : Option (List (Port V))
  pub port_msg : Dict V
  pub settings_secret_at : Dict ℕ

abbrev pub from_signal : Text
from_signal = codes "signal"

abbrev pub secret_resolve_ttl : ℕ
secret_resolve_ttl = 60 * 1_000_000_000

unfoldable pub get_port_config : Text → Text → List PortConfig → Option PortConfig
get_port_config from port [] = none
get_port_config from port (p ∷ ps) =
    let rest = get_port_config from port ps in
    if p.from == from && p.port == port then some p else rest

abbrev pub listed_ports : {V : Type 0} → Option (List (Port V)) → List (Port V)
listed_ports none = []
listed_ports (some ps) = ps

unfoldable pub find_port : {V : Type 0} → Text → List (Port V) → Option (Port V)
find_port port [] = none
find_port port (p ∷ ps) = let rest = find_port port ps in if p.name == port then some p else rest

-- A missing time counts as lapsed.
unfoldable pub secret_resolve_ttl_lapsed : Option ℕ → ℕ → Bool
secret_resolve_ttl_lapsed none now = true
secret_resolve_ttl_lapsed (some last) now = leb (last + secret_resolve_ttl) now

-- getPorts: the cache, or the component's ports, which are cached.
unfoldable pub get_ports :
    {W V A : Type 0} → Component W V A → Runner V → W → List (Port V) × Runner V
get_ports c r w = elim r.node_ports [
  | some ps ↦ (ps, r)
  | none ↦ (listed_ports (c.ports w), record r { node_ports = c.ports w })
]

-- How an error is wrapped, errors.Wrap of github.com/pkg/errors
abbrev wrapped : {X : Type 0} → Text → Err ⊎ X → Err ⊎ X
wrapped s (inl e) = inl (wrap (s ++ codes ": ") e)
wrapped s (inr x) = inr x

abbrev and_then : {X Y : Type 0} → Err ⊎ X → (X → Err ⊎ Y) → Err ⊎ Y
and_then (inl e) f = inl e
and_then (inr x) f = f x

module _ {V D J : Type 0} (values : Values V D J) where
  evaluated : V → Text → Text → Err ⊎ V
  evaluated configuration config payload =
      and_then (wrapped (codes "ajson parse requestData payload error") (values.parse payload)) λ d.
        and_then (wrapped (codes "eval port edge settings config") (values.evaluate d config)) λ j.
          wrapped (codes "map decode from config map to port input type")
            (values.convert configuration j)

  configured : V → Option PortConfig → Text → Err ⊎ V
  unfolding evaluated
  configured configuration none payload = inr configuration
  configured configuration (some p) payload =
      let built = evaluated configuration p.configuration payload in
      if p.configuration == [] then inr configuration else built

  -- The data for the port: a signal's, what the port's configuration evaluates to, or the port's own.
  unfoldable pub port_data : V → Option PortConfig → Msg → Err ⊎ V
  unfolding configured
  port_data configuration config msg =
      let signal = values.unmarshal configuration msg.payload in
      let built = configured configuration config msg.payload in
      if msg.from == from_signal then signal else built

  -- The port got this very data before.
  abbrev unchanged : Option V → V → Bool
  unchanged none v = false
  unchanged (some old) v = values.same v old

  -- The settings that are not delivered again.
  unfoldable pub skips_settings : Runner V → V → ℕ → Bool
  skips_settings r v now =
      unchanged (Dict.get r.port_msg settings_port) v
      && (not (values.has_secret v)
          || not (secret_resolve_ttl_lapsed (Dict.get r.settings_secret_at settings_port) now))

  unfoldable pub remember_settings : V → ℕ → Runner V → Runner V
  remember_settings v now r = record r {
    port_msg = Dict.put r.port_msg settings_port v;
    settings_secret_at =
        if values.has_secret v
        then Dict.put r.settings_secret_at settings_port now
        else r.settings_secret_at;
  }

-- The status in Go's sense of (nil, nil)
abbrev pub nothing : {A : Type 0} → Outcome A
nothing = ok none

-- What is done before the component is called: an outcome that ends the handling, or the port, its data
-- and the run of the context.
abbrev pub Prepared : Type 0 → Type 0 → Type 0
Prepared V A = Outcome A ⊎ (Text × V × Option Run)

module _ {W V A D J : Type 0} (component : Component W V A) (ledger : StepLedger W)
    (values : Values V D J) (clock : Clock W) where
  -- A hop whose record is in the ledger has run.
  unfoldable pub is_recorded : Runner V → Msg → W → Bool
  is_recorded r msg w =
      not (msg.run_id == [])
      && not (msg.step_key == [])
      && r.has_state
      && is_there (ledger.read msg.run_id (step_ledger_key msg.step_key) w)
    where
      is_there : Option Text → Bool
      is_there none = false
      is_there (some b) = true

  -- The run of the context: the message's, one that is minted at a durable node's business port, or the
  -- one that the caller's context carries.
  unfoldable pub run_of : Runner V → Msg → Text → Option Run → W → Option Run × W
  unfolding new_run mint_run
  run_of r msg port ctx_run w =
      let (id, w') = clock.new_string w in
      if not (msg.run_id == [])
      then (some (new_run msg.run_id msg.step_key), w)
      else if r.exec_durable && not (starts_with port (codes "_"))
      then (some (mint_run id), w')
      else (ctx_run, w)

  traced : Text → V → Option Run → Runner V → Option Err × W → Prepared V A × Runner V × W
  traced port v run r (some e, w) = (inl (fail e), r, w)
  traced port v run r (none, w) = (inr (port, v, run), r, w)

  -- The settings' data is remembered before it is delivered.
  with_data : Text → Option Run → Err ⊎ V → Runner V → W → Prepared V A × Runner V × W
  unfolding traced skips_settings remember_settings
  with_data port run (inl e) r w = (inl (fail e), r, w)
  with_data port run (inr v) r w =
      let plain_port = traced port v run r (clock.new_uuid w) in
      let settings =
        traced port v run (remember_settings values v (clock.now w) r) (clock.new_uuid w) in
      if not (port == settings_port)
      then plain_port
      else if skips_settings values r v (clock.now w)
      then (inl nothing, r, w)
      else settings

  at_configuration : Text → Option Run → Msg → Option V → Runner V → W → Prepared V A × Runner V × W
  unfolding with_data port_data
  at_configuration port run msg none r w = (inl nothing, r, w)
  at_configuration port run msg (some configuration) r w =
      with_data port run
        (port_data values configuration (get_port_config msg.from port r.node.ports) msg) r w

  at_port : Text → Option Run → Msg → Option (Port V) → Runner V → W → Prepared V A × Runner V × W
  unfolding at_configuration
  at_port port run msg none r w = (inl nothing, r, w)
  at_port port run msg (some p) r w = at_configuration port run msg p.configuration r w

  unfoldable pub prepare : Option Run → Msg → Runner V → W → Prepared V A × Runner V × W
  unfolding is_recorded run_of at_port get_ports
  prepare ctx_run msg r w =
      let port = (parse_full_port_name msg.to).1 in
      let (run, w') = run_of r msg port ctx_run w in
      let (ports, r') = get_ports component r w' in
      let found = at_port port run msg (find_port port ports) r' w' in
      if port == []
      then (inl (fail (plain (codes "input port is empty"))), r, w)
      else if is_recorded r msg w
      then (inl nothing, r, w)
      else found

  returned : Option Err × W → Outcome A × W
  returned (some e, w) = (fail e, w)
  returned (none, w) = (nothing, w)

  called : Option (V → W → Option Err × W) → V → W → Outcome A × W
  unfolding returned
  called none v w = (nothing, w)
  called (some f) v w = returned (f v w)

  -- What dispatchCapability does, or `none` for a port that is not the system's.
  unfoldable pub dispatch_capability : Text → V → W → Option (Outcome A × W)
  unfolding called
  dispatch_capability port v w =
      if port == settings_port
      then some (called component.on_settings v w)
      else if port == control_port
      then some (called component.on_control v w)
      else if port == reconcile_port || port == client_port || port == identity_port
      then some (nothing, w)
      else none

  or_handle :
      Emit W V A → Text → V → Option Run → W → Option (Outcome A × W) → Outcome A × Option Run × W
  or_handle emit port v run w none = component.handle emit port v run w
  or_handle emit port v run w (some (o, w')) = (o, run, w')

  abbrev pub status_of : Outcome A → StepStatus
  status_of (ok res) = StepStatus.done
  status_of (fail e) = StepStatus.failed

  abbrev error_of : Outcome A → Text
  error_of (ok res) = []
  error_of (fail e) = error_text e

  -- The record's times are in milliseconds.
  unfoldable pub record_of : Text → Outcome A → Run → ℕ → ℕ → StepRecord
  record_of node o run started completed = record {
    node = node;
    status = status_of o;
    error = error_of o;
    emits = run.emits;
    started_at = started / 1_000_000;
    completed_at = completed / 1_000_000;
    duration_ms = (completed - started) / 1_000_000;
  }

  written : Run → Option Text → W → W
  written run none w = w
  written run (some b) w = (ledger.write run.run_id (step_ledger_key run.step_key) b w).1

  unfoldable pub write_step_record : Runner V → Outcome A → ℕ → Option Run → W → W
  unfolding written record_of
  write_step_record r o started none w = w
  write_step_record r o started (some run) w =
      let wrote = written run (ledger.encode (record_of r.name o run started (clock.now w))) w in
      if r.has_state then wrote else w

  -- From the call on.
  unfoldable pub deliver : Emit W V A → Prepared V A × Runner V × W → Outcome A × Runner V × W
  unfolding dispatch_capability or_handle write_step_record
  deliver emit (inl o, r, w) = (o, r, w)
  deliver emit (inr (port, v, run), r, w) =
      let (o, run', w') = or_handle emit port v run w (dispatch_capability port v w) in
      (o, r, write_step_record r o (clock.now w) run' w')

  unfoldable pub msg_handler :
      Emit W V A → Option Run → Msg → Runner V → W → Outcome A × Runner V × W
  unfolding prepare deliver
  msg_handler emit ctx_run msg r w = deliver emit (prepare ctx_run msg r w)
