-- ===== src/Tests/Delivering.antt =====
-- Messages delivered to a component.
use module_lib.Prelude.{
  ◌≡◌, refl, sym, ap, true, false, none, some, inr, List, [], ◌∷◌, ◌++◌, Text, codes, ◌==◌, Option,
  starts_with,
}
use module_lib.Prelude.Int.{pos}
use module_lib.Dict
use module_lib.Dict.{Dict, get-put_self}
use module_lib.Names.{parse_full_port_name}
use module_lib.Errors.{plain}
use module_lib.Node.{Node, Edge, settings_port}
use module_lib.Run.{Msg, Run, StepRecord, new_run, step_ledger_key, step_key_of}
use module_lib.Runner.Send.{Outcome, ok, fail, stamp}
use module_lib.Runner.Messages.{
  Component, StepLedger, Values, Clock, Runner, Port, Emit, prepare, msg_handler, status_of,
  get_ports, find_port, port_data, get_port_config,
}
use module_lib.Runner.Messages.Replay.{IsLedger, KeepsRun, msg_handler-msg_handler}
use module_lib.Runner.Messages.Sends.{SentHop, after_sends, sends_over, stamp-prepare}
use module_lib.Runner.Messages.Settings.{Builds, msg_handler_settings_once}

-- The world is the execution bucket.
abbrev pub World : Type 0
World = Dict Text

abbrev pub port : Text → Port Text
port name = record {
  name = name;
  label = [];
  position = pos 0;
  source = false;
  schema = none;
  configuration = some (codes "{}");
}

-- A component that returns its input, and refuses its settings.
abbrev pub component : Component World Text Text
component = record {
  ports = λ w. some (port (codes "in") ∷ port settings_port ∷ []);
  on_settings = some (λ v w. (some (plain (codes "refused")), w));
  on_control = none;
  handle = λ emit port v run w. (ok (some v), run, w);
}

abbrev pub ledger : StepLedger World
ledger = record {
  read = λ run key w. Dict.get w (run ++ key);
  write = λ run key bytes w. (none, Dict.put w (run ++ key) bytes);
  encode = λ r. some r.error;
}

abbrev pub values : Values Text Text Text
values = record {
  unmarshal = λ v t. inr t;
  parse = λ t. inr t;
  evaluate = λ d t. inr t;
  convert = λ v j. inr j;
  same = λ a b. a == b;
  has_secret = λ v. false;
}

abbrev pub clock : Clock World
clock = record { now = λ w. 1000; new_string = λ w. (codes "u", w); new_uuid = λ w. (none, w) }

abbrev pub node : Node
node = record {
  name = codes "n";
  namespace = [];
  labels = [];
  annotations = [];
  module_name = codes "m";
  component = codes "echo";
  ports = [];
  edges = [];
  status = record {
    module_name = [];
    description = [];
    info = [];
    ports = [];
    metadata = [];
    status = [];
    error = false;
  };
}

abbrev runner : Runner Text
runner = record {
  name = codes "n";
  node = node;
  exec_durable = false;
  has_state = true;
  node_ports = none;
  port_msg = [];
  settings_secret_at = [];
}

abbrev cached : Runner Text
cached = record runner { node_ports = component.ports [] }

-- A hop of the run r, with a reply address.
abbrev msg : Msg
msg = record {
  edge_id = codes "e";
  from = codes "a:out";
  to = codes "n:in";
  payload = codes "{}";
  depth = 1;
  mode = [];
  run_id = codes "r";
  step_key = codes "r.1";
  reply_subject = codes "inbox";
  reply_target = codes "h:response";
  reply_deadline = 9;
}

abbrev run : Run
run = new_run (codes "r") (codes "r.1")

ledger-IsLedger : IsLedger ledger
ledger-IsLedger = record {
  read_back = λ run key bytes w. get-put_self w (run ++ key) bytes;
  encodes = λ r. (r.error, refl);
}

component-KeepsRun : KeepsRun component
component-KeepsRun emit port v run w = (run, refl, refl, refl)

prepared :
    prepare component ledger values clock none msg runner []
    ≡ (inr (codes "in", codes "{}", some run), cached, [])
unfolding prepare ◌==◌ parse_full_port_name Dict.get find_port get_port_config
prepared = refl

abbrev pub emit : Emit World Text Text
emit port v run w = (ok none, run, w)

msg_handler-msg_handler_example :
    let (o, r', w') = msg_handler component ledger values clock emit none msg runner [] in
    (entry : StepRecord) × (entry.status ≡ status_of component ledger values clock o)
    × (ledger.read msg.run_id (step_ledger_key msg.step_key) w' ≡ ledger.encode entry)
    × (msg_handler component ledger values clock emit none msg r' w' ≡ (ok none, r', w'))
unfolding ◌==◌
msg_handler-msg_handler_example =
    msg_handler-msg_handler component ledger values clock ledger-IsLedger component-KeepsRun emit
      emit none none msg runner cached [] [] (codes "in") (codes "{}") (some run) refl refl refl
      prepared

abbrev edge : Edge
edge = record {
  id = codes "e2";
  port = codes "out";
  to = codes "b:in";
  flow_id = [];
  retry_policy = none;
}

-- Two sends over the edge, of which the second failed.
abbrev sends : List (SentHop Text)
sends = sent_hop (ok none) ∷ sent_hop (fail (plain (codes "down"))) ∷ []
  where
    sent_hop : Outcome Text → SentHop Text
    sent_hop o = record {
      edge = edge;
      from_port = codes "n:out";
      edge_to = codes "b:in";
      payload = codes "{}";
      outcome = o;
    }

stamp-prepare_example :
    let sent = (stamp (after_sends sends (some run)) edge (codes "n:out") (codes "b:in") []).0 in
    (◌≡◌ {A = Option Run} (some run) (some (new_run (codes "r") (codes "r.1"))))
    × (sent.run_id ≡ codes "r")
    × (sent.step_key ≡ step_key_of (codes "r") (codes "r.1") (codes "e2") 2)
    × (sent.reply_subject ≡ [])
    × (sent.reply_target ≡ [])
unfolding ◌==◌ sends_over
stamp-prepare_example =
    stamp-prepare component ledger values clock none msg runner cached [] [] (codes "in")
      (codes "{}") (some run) refl prepared sends edge (codes "n:out") (codes "b:in") []

abbrev settings_msg : Msg
settings_msg = record msg { from = []; to = codes "n:_settings"; run_id = []; step_key = [] }

abbrev delivered : Runner Text
delivered = record cached { port_msg = (settings_port, codes "{}") ∷ [] }

builds : Builds component ledger values clock settings_msg runner [] (codes "{}")
unfolding find_port get_ports port_data get_port_config ◌==◌
builds = record {
  port = port settings_port;
  configuration = codes "{}";
  is_port = refl;
  is_configured = refl;
  is_data = refl;
}

builds2 : Builds component ledger values clock settings_msg delivered [] (codes "{}")
unfolding find_port get_ports port_data get_port_config ◌==◌
builds2 = record {
  port = port settings_port;
  configuration = codes "{}";
  is_port = refl;
  is_configured = refl;
  is_data = refl;
}

to_settings : (parse_full_port_name settings_msg.to).1 ≡ settings_port
unfolding parse_full_port_name
to_settings = refl

-- The component refused them.
refused :
    msg_handler component ledger values clock emit none settings_msg runner []
    ≡ (fail (plain (codes "refused")), delivered, [])
unfolding msg_handler prepare ◌==◌ parse_full_port_name Dict.get Dict.put find_port get_port_config
    starts_with
refused = refl

msg_handler_settings_once_example :
    msg_handler component ledger values clock emit none settings_msg delivered []
    ≡ (ok none, (get_ports component delivered []).1, [])
unfolding ◌==◌
msg_handler_settings_once_example =
    msg_handler_settings_once component ledger values clock emit emit none none settings_msg runner
      delivered [] [] (codes "{}") to_settings refl refl refl builds builds2
      (ap (λ x. x.1.port_msg) (sym refused))
