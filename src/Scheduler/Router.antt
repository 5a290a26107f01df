-- ===== src/Scheduler/Router.antt =====
-- The message router that `cli/run.go` gives to the scheduler: an output goes to the local scheduler, to the
-- stream of the durable hops, or to another module.
use module_lib.Prelude.{
  ℕ, ◌≡◌, refl, ap, not, Option, none, some, ◌⊎◌, inl, inr, [], Text, codes, ◌==◌, if◌then◌else◌,
}
use module_lib.Names.{parse_node_full_name}
use module_lib.Errors.{Err, plain}
use module_lib.Run.{Msg}
use module_lib.Runner.Send.{Outcome, ok, fail, Deadline}

-- A transport's handler, and a scheduler's: a message with the deadline of its context.
abbrev pub Handler : Type 0 → Type 0 → Type 0
Handler W X = Deadline → Msg → W → X × W

-- The handlers agree on the messages of this depth.
abbrev pub Agree : {W X : Type 0} → ℕ → Handler W X → Handler W X → Type 0
Agree {W} n f g =
    (deadline : Deadline) (msg : Msg) (w : W) → msg.depth ≡ n → f deadline msg w ≡ g deadline msg w

-- What the router of a module has: its name, the transports to other modules, of which that over NATS may be
-- missing, a reply's bytes as a result, and the reading of them into the type that the sender expects. There
-- is no result where the slice of bytes is nil, which the sender's utils.IsNil drops.
pub record Network (W A : Type 0) : Type 0 where
  pub module_name : Text
  pub nats : Option (Handler W (Err ⊎ Text))
  pub pool : Handler W (Err ⊎ Text)
  pub bytes : Text → Option A
  pub decode : Msg → Text → Err ⊎ Option A

-- ParseFullName of module/info.go
abbrev pub parse_full_name : Text → Option (Text × Text)
parse_full_name name = parse_node_full_name name

module _ {W A : Type 0} (network : Network W A) where
  result_of : Err ⊎ Option A → Outcome A
  result_of (inl e) = fail e
  result_of (inr v) = ok v

  called_out : Msg → (Err ⊎ Text) × W → Outcome A × W
  unfolding result_of
  called_out msg (inl e, w) = (fail e, w)
  called_out msg (inr resp, w) = (result_of (network.decode msg resp), w)

  streamed : (Err ⊎ Text) × W → Outcome A × W
  streamed (inl e, w) = (fail e, w)
  streamed (inr resp, w) = (ok (network.bytes resp), w)

  abbrev remote : Option (Handler W (Err ⊎ Text)) → Handler W (Err ⊎ Text)
  remote none = network.pool
  remote (some h) = h

  -- A hop to this module.
  local : Option (Handler W (Err ⊎ Text)) → Handler W (Outcome A) → Handler W (Outcome A)
  unfolding streamed
  local none scheduler deadline msg w = scheduler deadline msg w
  local (some h) scheduler deadline msg w =
      let here = scheduler deadline msg w in
      let durable = streamed (h deadline msg w) in if not (msg.run_id == []) then durable else here

  parsed : Handler W (Outcome A) → Deadline → Msg → W → Option (Text × Text) → Outcome A × W
  unfolding local called_out
  parsed scheduler deadline msg w none = (fail (plain (codes "parse destination error")), w)
  parsed scheduler deadline msg w (some (target, component)) =
      let here = local network.nats scheduler deadline msg w in
      let out = called_out msg (remote network.nats deadline msg w) in
      if target == network.module_name then here else out

  unfoldable pub message_router : Handler W (Outcome A) → Handler W (Outcome A)
  unfolding parsed
  message_router scheduler deadline msg w = parsed scheduler deadline msg w (parse_full_name msg.to)

  local-Agree :
      (nats : Option (Handler W (Err ⊎ Text))) (n : ℕ) (f g : Handler W (Outcome A))
      → Agree n f g
      → Agree n (local nats f) (local nats g)
  unfolding local
  local-Agree none n f g h deadline msg w e = h deadline msg w e
  local-Agree (some k) n f g h deadline msg w e =
      ap (λ here. if not (msg.run_id == []) then streamed (k deadline msg w) else here)
        (h deadline msg w e)

  parsed-Agree :
      (n : ℕ) (f g : Handler W (Outcome A)) (name : Option (Text × Text))
      → Agree n f g
      → Agree n (λ d m w. parsed f d m w name) (λ d m w. parsed g d m w name)
  unfolding parsed
  parsed-Agree n f g none h deadline msg w e = refl
  parsed-Agree n f g (some (target, component)) h deadline msg w e =
      ap
        (λ here.
          if target == network.module_name
          then here
          else called_out msg (remote network.nats deadline msg w))
        (local-Agree network.nats n f g h deadline msg w e)

  pub message_router-Agree :
      (n : ℕ) (f g : Handler W (Outcome A))
      → Agree n f g
      → Agree n (message_router f) (message_router g)
  unfolding message_router
  message_router-Agree n f g h deadline msg w e =
      parsed-Agree n f g (parse_full_name msg.to) h deadline msg w e
