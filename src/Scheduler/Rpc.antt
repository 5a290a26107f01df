-- ===== src/Scheduler/Rpc.antt =====
-- A component called as a tool: internal/scheduler/rpc.go. The object that captures an emit is a cell of the
-- world; `zero_of` is the zero value of a configuration's type, and `returned` makes the reply of the
-- captured data.
pub mod Capture
use module_lib.Prelude.{
  Bool, true, false, Option, none, some, ◌⊎◌, inl, inr, List, [], ◌∷◌, ◌++◌, Text, codes, ◌==◌,
  if◌then◌else◌,
}
use module_lib.Dict
use module_lib.Errors.{Err, plain, wrap}
use module_lib.Run.{Msg, Run}
use module_lib.Runner.Send.{Outcome, ok, fail}
use module_lib.Runner.Messages.{Component, Values, Emit, Port, find_port, listed_ports}
use module_lib.Scheduler.{Kind, Schedule}

pub record Cell (W V : Type 0) : Type 0 where
  pub fresh : W → W
  pub read : W → Option V
  pub write : V → W → W

abbrev or_default : Text → Text → Text
or_default s t = if t == [] then s else t

-- %q, of a name with no character that it escapes
abbrev quoted : Text → Text
quoted s = b'"' ∷ (s ++ (b'"' ∷ []))

-- portConfigurationType: the configuration whose type the payload has
unfoldable pub port_configuration_type : {V : Type 0} → Text → List (Port V) → Err ⊎ V
unfolding find_port
port_configuration_type name ports = shape_at name (find_port name ports)
  where
    shape_of : {V : Type 0} → Text → Option V → Err ⊎ V
    shape_of name none =
        inl (plain (codes "port " ++ (quoted name ++ codes " has no Configuration shape")))
    shape_of name (some v) = inr v

    shape_at : {V : Type 0} → Text → Option (Port V) → Err ⊎ V
    shape_at name none =
        inl (plain (codes "port " ++ (quoted name ++ codes " not found on component")))
    shape_at name (some p) = shape_of name p.configuration

unfoldable pub input_of : {V D J : Type 0} → Values V D J → (V → V) → V → Text → Err ⊎ V
input_of values zero_of configuration payload =
    let read = values.unmarshal configuration payload in
    if payload == [] then inr (zero_of configuration) else read

-- What is returned: the captured data, or else the component's own result.
unfoldable pub captured_or : {V A : Type 0} → (V → A) → Option A → Option V → Outcome A
captured_or returned res none = ok res
captured_or returned res (some v) = ok (some (returned v))

module _ {W V : Type 0} (cell : Cell W V) where
  unfoldable pub keep_first : V → Option V → W → W
  keep_first v none w = cell.write v w
  keep_first v (some old) w = w

module _ {W V A : Type 0} (cell : Cell W V) where
  -- rpcCapture.handler
  unfoldable pub capture : Text → Emit W V A
  unfolding keep_first
  capture output port v run w =
      let kept : Outcome A × Option Run × W = (ok none, run, keep_first cell v (cell.read w) w) in
      if port == output then kept else (ok none, run, w)

  module _ {D J : Type 0} (values : Values V D J) (zero_of : V → V) (returned : V → A) where
    replied : Outcome A × Option Run × W → Outcome A × W
    unfolding captured_or
    replied (fail e, run, w) = (fail e, w)
    replied (ok res, run, w) = (captured_or returned res (cell.read w), w)

    invoked : Component W V A → Text → Text → Text → Err ⊎ V → W → Outcome A × W
    unfolding replied capture
    invoked c name input output (inl e) w =
        (fail (wrap (codes "rpc: unmarshal " ++ (name ++ codes " input: ")) e), w)
    invoked c name input output (inr v) w =
        replied (c.handle (capture output) input v none (cell.fresh w))

    typed : Component W V A → Text → Text → Text → Text → Err ⊎ V → W → Outcome A × W
    unfolding invoked input_of
    typed c name input output payload (inl e) w =
        (fail (wrap (codes "rpc: " ++ (name ++ codes ": ")) e), w)
    typed c name input output payload (inr configuration) w =
        invoked c name input output (input_of values zero_of configuration payload) w

    as_tool : Kind W V A → Text → Text → Option (Text × Text) → W → Outcome A × W
    unfolding typed port_configuration_type
    as_tool kind name payload none w = (
      fail (
          plain (codes "rpc: component " ++ (quoted name ++ codes " does not opt into AgentTool"))),
      w,
    )
    as_tool kind name payload (some (input, output)) w =
        let port = or_default (codes "in") input in
        let called =
          typed kind.component name port (or_default (codes "out") output) payload
            (port_configuration_type port (listed_ports (kind.component.ports w))) w in
        if kind.instantiates
        then called
        else (fail (plain (codes "rpc: " ++ (name ++ codes ".Instance() returned nil"))), w)

    registered : Text → Text → Option (Kind W V A) → W → Outcome A × W
    unfolding as_tool
    registered name payload none w = (
      fail (
          plain
            (codes "rpc: component " ++ (quoted name ++ codes " not registered on this module"))),
      w,
    )
    registered name payload (some kind) w = as_tool kind name payload kind.agent_tool w

    unfoldable pub handle_rpc : Schedule W V A → Msg → W → Outcome A × W
    unfolding registered
    handle_rpc s msg w =
        let found = registered msg.to msg.payload (Dict.get s.components msg.to) w in
        if msg.to == []
        then (fail (plain (codes "rpc: msg.To is empty (need component name)")), w)
        else found
