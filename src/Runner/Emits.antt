-- ===== src/Runner/Emits.antt =====
-- `DataHandler` of internal/scheduler/runner/runner.go: what an emit of the component does. The updates of
-- the node at the system ports are those of Runner.Updates, here as changes of the world.
use module_lib.Prelude.{Option, none, some, ◌⊎◌, List, Text, ◌==◌, if◌then◌else◌}
use module_lib.Errors.{Err}
use module_lib.Node.{Edge, control_port, reconcile_port}
use module_lib.Run.{Run}
use module_lib.Runner.Backoff.{Floats}
use module_lib.Runner.Send.{Outcome, ok, fail, Deadline, Transport}
use module_lib.Runner.Fanout.{output_handler}
use module_lib.Runner.Messages.{Emit, Runner, Clock}

-- What an emit needs besides the transport: the marshalling of its data, the order in which the concurrent
-- sends complete, and what an emit at a system port asks for: at _control an update of the node's status, the
-- ports' cache being dropped, and at _reconcile an update with the data.
pub record Emitting (W V : Type 0) : Type 0 where
  pub marshal : V → Err ⊎ Text
  pub order : List Edge → List Edge
  pub control_update : Text → W → W
  pub reconcile_update : Text → V → W → W

module _ {W V A : Type 0} (floats : Floats) (t : Transport W A) (clock : Clock W)
    (emitting : Emitting W V) where
  sent : Deadline → Runner V → Text → V → Option Run → Option Err × W → Outcome A × Option Run × W
  unfolding output_handler
  sent deadline r port v run (some e, w) = (fail e, run, w)
  sent deadline r port v run (none, w) =
      output_handler floats t deadline emitting.order r.name r.node.edges port (emitting.marshal v)
        run w

  unfoldable pub data_handler : Deadline → Runner V → Emit W V A
  unfolding sent
  data_handler deadline r port v run w =
      let out = sent deadline r port v run (clock.new_uuid w) in
      if port == control_port
      then (ok none, run, emitting.control_update r.name w)
      else if port == reconcile_port
      then (ok none, run, emitting.reconcile_update r.name v w)
      else out
