-- ===== src/Tests/Scheduling.antt =====
-- The scheduler's tables, and updates whose settings are refused.
use module_lib.Prelude.{◌≡◌, refl, true, false, none, some, [], Text, codes, ◌==◌, starts_with}
use module_lib.Dict
use module_lib.Dict.{Dict}
use module_lib.Names.{parse_full_port_name, get_port_full_name}
use module_lib.Errors.{plain}
use module_lib.Node.{settings_port}
use module_lib.Runner.Send.{fail}
use module_lib.Runner.Messages.{
  Emit, get_ports, find_port, port_data, get_port_config, msg_handler, prepare,
}
use module_lib.Runner.Messages.Settings.{Builds}
use module_lib.Scheduler.{
  Kind, Instance, Schedule, Lifecycle, new_instance, set_node, update_instance, update, install,
  settings_msg, reconcile, introduce,
}
use module_lib.Scheduler.Registry.{IsRegistered, Step, Reach, Reach-IsRegistered}
use module_lib.Scheduler.Settings.{update_instance-update_instance, updated}
use module_lib.Tests.Delivering.{World, component, ledger, values, clock, node, emit, port}
use module_lib.Tests.Publishing.{codec, encodings}

abbrev pub lifecycle : Lifecycle World
lifecycle = record {
  on_identity = none;
  on_client = none;
  on_nats = none;
  on_state = none;
  on_emitter = none;
  on_reconcile = none;
  on_destroy = none;
}

abbrev pub kind : Kind World Text Text
kind = record {
  name = codes "echo";
  description = [];
  info = [];
  component = component;
  instantiates = true;
  lifecycle = lifecycle;
  agent_tool = some ([], []);
}

abbrev schedule : Schedule World Text Text
schedule = record { components = []; instances = []; has_factory = true; has_client = false }

abbrev emits : Text → Emit World Text Text
emits name = emit

abbrev notify : Dict Text → World → World
notify metadata w = w

abbrev pub installed : Schedule World Text Text
installed = (install kind schedule).1

Reach-IsRegistered_example :
    IsRegistered (update ledger values clock codec encodings emits notify node installed []).1
Reach-IsRegistered_example =
    Reach-IsRegistered ledger values clock codec encodings emits notify refl refl
      (Reach.next (Reach.next Reach.here (Step.installs kind)) (Step.updates node []))

abbrev made : Instance World Text Text
made = new_instance kind node

abbrev rolled_back : Instance World Text Text
rolled_back =
    (update_instance ledger values clock codec encodings emits notify installed true node made []).1

builds :
    Builds component ledger values clock
      (settings_msg node)
      (updated ledger values clock codec encodings emits notify installed true node made)
      []
      (codes "{}")
unfolding find_port get_ports port_data get_port_config set_node settings_msg get_port_full_name
    install ◌==◌
builds = record {
  port = port settings_port;
  configuration = codes "{}";
  is_port = refl;
  is_configured = refl;
  is_data = refl;
}

builds2 :
    Builds component ledger values clock
      (settings_msg node)
      (updated ledger values clock codec encodings emits notify installed false node rolled_back)
      []
      (codes "{}")
unfolding find_port get_ports port_data get_port_config set_node settings_msg get_port_full_name
    install ◌==◌
builds2 = record {
  port = port settings_port;
  configuration = codes "{}";
  is_port = refl;
  is_configured = refl;
  is_data = refl;
}

to_settings : (parse_full_port_name (settings_msg node).to).1 ≡ settings_port
unfolding parse_full_port_name get_port_full_name settings_msg ◌==◌
to_settings = refl

refused :
    (msg_handler component ledger values clock emit none
      (settings_msg node)
      (updated ledger values clock codec encodings emits notify installed true node made)
      []).0
    ≡ fail (plain (codes "refused"))
unfolding msg_handler prepare ◌==◌ parse_full_port_name get_port_full_name Dict.get Dict.put
    find_port get_port_config starts_with set_node settings_msg install new_instance
refused = refl

update_instance-update_instance_example :
    ((update_instance ledger values clock codec encodings emits notify installed true node made
        []).0.1.error
      ≡ true)
    × ((update_instance ledger values clock codec encodings emits notify installed false node
          rolled_back []).0.1.error
        ≡ false)
unfolding reconcile introduce ◌==◌ new_instance install
update_instance-update_instance_example =
    update_instance-update_instance ledger values clock codec encodings emits notify installed true
      node made rolled_back [] [] [] [] (codes "{}") (plain (codes "refused")) to_settings refl refl
      refl refl builds builds2 refused refl
