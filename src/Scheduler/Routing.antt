-- ===== src/Scheduler/Routing.antt =====
-- One message handled by the scheduler: `Handle` and `sendMsg` of internal/scheduler/scheduler.go. The tables
-- are a part of the world, since a component's emits are handled while it runs; the runner that a message
-- is delivered with emits over the edges that its node had when the message arrived.
pub mod Depth
use module_lib.Prelude.{
  ℕ, suc, ◌+◌, Bool, true, false, Option, none, some, ◌⊎◌, inl, inr, List, [], ◌∷◌, ◌++◌, Text,
  codes, ◌==◌, ltb, any, if◌then◌else◌,
}
use module_lib.Dict
use module_lib.Names.{parse_full_port_name}
use module_lib.Errors.{Err, plain, permanent_error}
use module_lib.Node.{reconcile_port}
use module_lib.Run.{Msg, Run}
use module_lib.Runner.Backoff.{Floats}
use module_lib.Runner.Send.{Outcome, ok, fail, Deadline, Transport}
use module_lib.Runner.Messages.{
  StepLedger, Values, Clock, Runner, Port, Prepared, prepare, deliver, get_ports,
}
use module_lib.Runner.Emits.{Emitting, data_handler}
use module_lib.Scheduler.{Instance, Schedule}
use module_lib.Scheduler.Rpc.{Cell, handle_rpc}

abbrev pub max_message_depth : ℕ
max_message_depth = 256

-- An operation of github.com/cenkalti/backoff: it succeeds, fails, or fails for good.
pub data Try (X : Type 0) : Type 0 where
  hit : X → Try X
  missed : Err → Try X
  given_up : Err → Try X

-- backoff.Retry, at an initial and a largest interval in milliseconds, for 30 seconds at most
abbrev pub Retrying : Type 0 → Type 0 → Type 0
Retrying W X = ℕ → ℕ → Deadline → (W → Try X × W) → W → (Err ⊎ X) × W

-- The scheduler's tables in the world.
pub record Tables (W V A : Type 0) : Type 0 where
  pub schedule : W → Schedule W V A
  pub store : Text → Runner V → W → W

abbrev pub instance_at : {W V A : Type 0} → Tables W V A → Text → W → Option (Instance W V A)
instance_at tables name w = Dict.get (tables.schedule w).instances name

abbrev pub too_deep : Err
too_deep =
    permanent_error (plain (codes "max message depth 256 exceeded (possible cycle in flow graph)"))

abbrev pub no_port : Err
no_port = plain (codes "empty port in handle's output")

-- The message that sendMsg hands on for an output, and the refusal of an output without a port.
unfoldable pub forwarding : {W A : Type 0} → ℕ → Transport W A → Transport W A
forwarding depth t = record {
  handle = λ deadline msg w.
      let out = t.handle deadline (record msg { depth = suc depth }) w in
      if (parse_full_port_name msg.to).1 == [] then (fail no_port, w) else out;
  wait = t.wait;
  now = t.now;
}

module _ {W V A D J : Type 0} (tables : Tables W V A) (retry : Retrying W (Instance W V A))
    (cell : Cell W V) (ledger : StepLedger W) (values : Values V D J) (zero_of : V → V)
    (returned : V → A) (clock : Clock W) (floats : Floats) (emitting : Emitting W V) where
  -- HasPort, which caches the ports of the component
  unfoldable pub has_port : Text → Instance W V A → W → Bool × Instance W V A
  unfolding get_ports
  has_port port i w =
      let (ports, r) = get_ports i.kind.component i.runner w in
      (any (λ p. p.name == port) ports, record i { runner = r })

  appears : Text → Option (Instance W V A) → Try (Instance W V A)
  appears name none = missed (plain (codes "instance " ++ name ++ codes " not found"))
  appears name (some i) = hit i

  ready : Text → Text → Option (Instance W V A) → W → Try (Instance W V A) × W
  unfolding has_port
  ready name port none w =
      (given_up (plain (codes "instance " ++ name ++ codes " no longer exists")), w)
  ready name port (some i) w =
      let (there, i') = has_port port i w in
      let w' = tables.store name i'.runner w in
      (
        if there
            then hit i'
            else missed (plain (codes "port " ++ port ++ codes " not ready on node " ++ name)),
        w',
      )

  missing : Text → (Err ⊎ Instance W V A) × W → (Err ⊎ Instance W V A) × W
  missing name (inl e, w) =
      (inl (plain (codes "instance " ++ name ++ codes " not found after retry")), w)
  missing name (inr i, w) = (inr i, w)

  -- The instance, once it is there.
  located : Deadline → Text → Option (Instance W V A) → W → (Err ⊎ Instance W V A) × W
  unfolding missing appears
  located deadline name (some i) w = (inr i, w)
  located deadline name none w =
      missing name (retry 100 5_000 deadline (λ v. (appears name (instance_at tables name v), v)) w)

  -- The instance, once it has the port.
  settled : Deadline → Text → Text → (Err ⊎ Instance W V A) × W → (Err ⊎ Instance W V A) × W
  unfolding ready has_port
  settled deadline name port (inl e, w) = (inl e, w)
  settled deadline name port (inr i, w) =
      let (there, i') = has_port port i w in
      let w' = tables.store name i'.runner w in
      let waited =
        retry 10 1_000 deadline (λ v. ready name port (instance_at tables name v) v) w' in
      if there then (inr i', w') else waited

  module _ (t : Transport W A) where
    delivered : Deadline → Text → Prepared V A × Runner V × W → Instance W V A → Outcome A × W
    unfolding deliver data_handler
    delivered deadline name (p, r, w) i =
        let (o, r', w') =
          deliver i.kind.component ledger values clock
            (data_handler floats t clock emitting deadline r) (p, r, tables.store name r w) in
        (o, w')

    -- What the preparation changes in the runner stands before the component runs.
    unfoldable pub send_msg :
        Deadline → Option Run → Text → Msg → (Err ⊎ Instance W V A) × W → Outcome A × W
    unfolding delivered prepare
    send_msg deadline ctx_run name msg (inl e, w) = (fail e, w)
    send_msg deadline ctx_run name msg (inr i, w) =
        delivered deadline name
          (prepare i.kind.component ledger values clock ctx_run msg i.runner w) i

    unfoldable pub route : Deadline → Option Run → Msg → W → Outcome A × W
    unfolding send_msg settled located handle_rpc
    route deadline ctx_run msg w =
        let (name, port) = parse_full_port_name msg.to in
        let called = handle_rpc cell values zero_of returned (tables.schedule w) msg w in
        let sent =
          send_msg deadline ctx_run name msg
            (settled deadline name port (located deadline name (instance_at tables name w) w)) in
        if ltb max_message_depth msg.depth
        then (fail too_deep, w)
        else if msg.mode == codes "rpc"
        then called
        else if port == reconcile_port
        then (ok none, w)
        else sent

  unfoldable pub handle : Transport W A → Deadline → Option Run → Msg → W → Outcome A × W
  unfolding route
  handle t deadline ctx_run msg w = route (forwarding msg.depth t) deadline ctx_run msg w
