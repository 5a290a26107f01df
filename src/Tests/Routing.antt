-- ===== src/Tests/Routing.antt =====
-- Messages routed by a scheduler to its own components, and a tool call.
use module_lib.Prelude.{
  ℕ, ◌≡◌, refl, true, none, some, ◌⊎◌, inl, inr, [], ◌*◌, Text, codes, ◌==◌, leb, arith,
}
use module_lib.Prelude.Int.{pos, pos_part}
use module_lib.Dict
use module_lib.Dict.{get-put_self, get-delete}
use module_lib.Errors.{Err, plain}
use module_lib.Run.{Msg}
use module_lib.Runner.Backoff.{Floats}
use module_lib.Runner.Send.{Outcome, ok, fail, Transport}
use module_lib.Runner.Emits.{Emitting}
use module_lib.Runner.Messages.{find_port}
use module_lib.Scheduler.{Kind, Instance, Schedule, install}
use module_lib.Scheduler.Rpc.{
  Cell, handle_rpc, input_of, port_configuration_type, captured_or, capture, keep_first,
}
use module_lib.Scheduler.Rpc.Capture.{
  IsCell, Calls, Body, ends, emits, looks, acts, run_body, emitted, first_at, handle_rpc-first_at,
}
use module_lib.Scheduler.Router.{Network, Handler, message_router}
use module_lib.Scheduler.Routing.{Tables, Retrying, Try, hit, missed, given_up}
use module_lib.Scheduler.Routing.Depth.{looped, scheduled, looped-looped}
use module_lib.Tests.Delivering.{World, component, ledger, values, clock}
use module_lib.Tests.Scheduling.{installed, lifecycle}

abbrev floats : Floats
floats = record {
  F = ℕ;
  of_ns = pos_part;
  times = λ a b. a * b;
  two = 2;
  parse_float = λ s. none;
  at_least_one = λ n. leb 1 n;
  to_ns = pos;
}

abbrev tables : Tables World Text Text
tables = record { schedule = λ w. installed; store = λ name r w. w }

-- One attempt, and no other.
abbrev retry : Retrying World (Instance World Text Text)
retry first largest deadline op w = once (op w)
  where
    once : Try (Instance World Text Text) × World → (Err ⊎ Instance World Text Text) × World
    once (hit i, w) = (inr i, w)
    once (missed e, w) = (inl e, w)
    once (given_up e, w) = (inl e, w)

abbrev cell : Cell World Text
cell = record {
  fresh = λ w. Dict.delete w [];
  read = λ w. Dict.get w [];
  write = λ v w. Dict.put w [] v;
}

cell-IsCell : IsCell cell
unfolding ◌==◌
cell-IsCell = record {
  read-fresh = λ w. get-delete w [] [];
  read-write = λ v w. get-put_self w [] v;
}

abbrev emitting : Emitting World Text
emitting = record {
  marshal = λ v. inr v;
  order = λ es. es;
  control_update = λ name w. w;
  reconcile_update = λ name v w. w;
}

abbrev network : Network World Text
network = record {
  module_name = codes "m";
  nats = none;
  pool = λ deadline msg w. (inr [], w);
  bytes = λ resp. some resp;
  decode = λ msg resp. inr (some resp);
}

abbrev nobody : Handler World (Outcome Text)
nobody deadline msg w = (fail (plain (codes "nobody")), w)

abbrev somebody : Handler World (Outcome Text)
somebody deadline msg w = (ok none, w)

abbrev transport : Transport World Text
transport = record { handle = nobody; wait = λ deadline delay w. (none, w); now = λ w. 0 }

-- A call of the tool.
abbrev call : Msg
call = record {
  edge_id = [];
  from = [];
  to = codes "twice";
  payload = codes "{}";
  depth = 0;
  mode = codes "rpc";
  run_id = [];
  step_key = [];
  reply_subject = [];
  reply_target = [];
  reply_deadline = 0;
}

looped-looped_example :
    (looped tables retry cell ledger values
        (λ v. v)
        (λ v. v)
        clock
        floats
        emitting
        network
        transport
        258
        nobody
        none
        call
        []
      ≡ looped tables retry cell ledger values
          (λ v. v)
          (λ v. v)
          clock
          floats
          emitting
          network
          transport
          258
          somebody
          none
          call
          [])
    × (looped tables retry cell ledger values
          (λ v. v)
          (λ v. v)
          clock
          floats
          emitting
          network
          transport
          258
          nobody
          none
          call
          []
        ≡ scheduled tables retry cell ledger values
            (λ v. v)
            (λ v. v)
            clock
            floats
            emitting
            network
            transport
            (message_router network (
              looped tables retry cell ledger values
                (λ v. v)
                (λ v. v)
                clock
                floats
                emitting
                network
                transport
                258
                nobody))
            none
            call
            [])
looped-looped_example =
    looped-looped tables retry cell ledger values (λ v. v) (λ v. v) clock floats emitting network
      transport 257 nobody somebody none call [] (omega arith)

-- It emits on another port, on its output port, and there again what it has of the world and of the reply,
-- and it changes the world between.
abbrev body : Body Text cell
body = emits (codes "error") (codes "no") λ o.
    acts (λ w. w) (λ w. refl)
      (emits (codes "out") (codes "a")
        λ o'. looks λ w. emits (codes "out") (read_reply o') λ o''. ends (ok none))
  where
    read_reply : Outcome Text → Text
    read_reply (ok none) = codes "b"
    read_reply (ok (some v)) = v
    read_reply (fail e) = codes "c"

-- A tool with this body.
abbrev twice : Kind World Text Text
twice = record {
  name = codes "twice";
  description = [];
  info = [];
  component = record component { handle = λ emit port v run w. run_body emit body run w };
  instantiates = true;
  lifecycle = lifecycle;
  agent_tool = some ([], []);
}

abbrev tools : Schedule World Text Text
tools = (install twice installed).1

calls : Calls cell cell-IsCell values (λ v. v) (λ v. v) tools call [] twice [] [] body none
unfolding install ◌==◌ Dict.put Dict.get Dict.delete port_configuration_type find_port input_of
    run_body capture keep_first
calls = record {
  named = refl;
  valid = refl;
  installed = refl;
  tool = refl;
  instantiated = refl;
  configuration = codes "{}";
  is_configured = refl;
  value = codes "{}";
  is_value = refl;
  runs = λ emit. refl;
  ends_well = refl;
}

handle_rpc-first_at_example :
    (handle_rpc cell values (λ v. v) (λ v. v) tools call []).0 ≡ ok (some (codes "a"))
unfolding first_at captured_or ◌==◌ emitted capture keep_first Dict.get Dict.put Dict.delete
handle_rpc-first_at_example =
    handle_rpc-first_at cell cell-IsCell values (λ v. v) (λ v. v) tools call [] twice [] [] body
      none calls
