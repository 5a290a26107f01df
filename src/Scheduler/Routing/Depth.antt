-- ===== src/Scheduler/Routing/Depth.antt =====
-- A flow may have a cycle: the scheduler that handles the outputs of its own components, through the router of
-- the module, ends at the greatest depth of a message.
use module_lib.Prelude.{
  ℕ, zero, suc, ◌+◌, ◌≤◌, ◌≡◌, refl, sym, ap, ◌∙◌, true, none, [], ◌==◌, ltb, arith, if◌then◌else◌,
}
use mathlib.Core.Path.{fun_ext}
use module_lib.Names.{parse_full_port_name}
use module_lib.Run.{Msg}
use module_lib.Runner.Backoff.{Floats}
use module_lib.Runner.Send.{Outcome, fail, Deadline, Transport}
use module_lib.Runner.Messages.{StepLedger, Values, Clock}
use module_lib.Runner.Emits.{Emitting}
use module_lib.Scheduler.{Instance}
use module_lib.Scheduler.Rpc.{Cell}
use module_lib.Scheduler.Router.{Network, Handler, Agree, message_router, message_router-Agree}
use module_lib.Scheduler.Routing.{
  Tables, Retrying, handle, route, forwarding, max_message_depth, no_port,
}

abbrev pub over : {W A : Type 0} → Transport W A → Handler W (Outcome A) → Transport W A
over t f = record t { handle = f }

forwarding-Agree :
    {W A : Type 0} (t : Transport W A) (n : ℕ) (f g : Handler W (Outcome A))
    → Agree (suc n) f g
    → forwarding n (over t f) ≡ forwarding n (over t g)
unfolding forwarding
forwarding-Agree t n f g h =
    ap
      (λ o. record {
        handle = λ deadline msg w.
            if (parse_full_port_name msg.to).1 == [] then (fail no_port, w) else o deadline msg w;
        wait = t.wait;
        now = t.now;
      })
      (fun_ext
        λ deadline. fun_ext λ msg. fun_ext λ w. h deadline (record msg { depth = suc n }) w refl)

module _ {W V A D J : Type 0} (tables : Tables W V A) (retry : Retrying W (Instance W V A))
    (cell : Cell W V) (ledger : StepLedger W) (values : Values V D J) (zero_of : V → V)
    (returned : V → A) (clock : Clock W) (floats : Floats) (emitting : Emitting W V)
    (network : Network W A) (t : Transport W A) where
  -- The scheduler, with what handles the outputs. A sender stamps the run of its context on the message, so
  -- the context that arrives carries no other.
  unfoldable pub scheduled : Handler W (Outcome A) → Handler W (Outcome A)
  scheduled outside deadline msg w =
      handle tables retry cell ledger values zero_of returned clock floats emitting (over t outside)
        deadline none msg w

  -- The scheduler that is its own handler of outputs, for so many hops; then the other handler.
  unfoldable pub looped : ℕ → Handler W (Outcome A) → Handler W (Outcome A)
  looped zero beyond = beyond
  looped (suc n) beyond = scheduled (message_router network (looped n beyond))

  scheduled-Agree :
      (n : ℕ) (f g : Handler W (Outcome A))
      → Agree (suc n) f g
      → Agree n (scheduled f) (scheduled g)
  unfolding scheduled handle
  scheduled-Agree n f g h deadline msg w e =
      ap
        (λ o.
          route tables retry cell ledger values zero_of returned clock floats emitting o deadline
            none msg w)
        (forwarding-Agree t msg.depth f g λ d m w' q. h d m w' (q ∙ ap suc e))

  scheduled-deep :
      (f g : Handler W (Outcome A)) (deadline : Deadline) (msg : Msg) (w : W)
      → 257 ≤ msg.depth
      → scheduled f deadline msg w ≡ scheduled g deadline msg w
  unfolding scheduled handle route
  scheduled-deep f g deadline msg w h =
      let deep : ltb max_message_depth msg.depth ≡ true = ground (arith, h) in rw deep refl

  looped-Agree :
      (n : ℕ) (f g : Handler W (Outcome A)) (deadline : Deadline) (msg : Msg) (w : W)
      → 257 ≤ n + msg.depth
      → looped (suc n) f deadline msg w ≡ looped (suc n) g deadline msg w
  unfolding looped
  looped-Agree zero f g deadline msg w h = scheduled-deep _ _ deadline msg w (omega (arith, h))
  looped-Agree (suc n) f g deadline msg w h =
      scheduled-Agree msg.depth _ _
        (message_router-Agree network (suc msg.depth) _ _
          λ d m w' q. looped-Agree n f g d m w' (omega (arith, h, q)))
        deadline msg w refl

  looped-suc :
      (n : ℕ) (f : Handler W (Outcome A))
      → looped (suc n) f ≡ looped n (scheduled (message_router network f))
  unfolding looped
  looped-suc zero f = refl
  looped-suc (suc n) f = ap (λ h. scheduled (message_router network h)) (looped-suc n f)

  -- However the edges run, also in a cycle, the handling of a message by the scheduler that handles the
  -- outputs of its own components ends: with 258 hops or more, it does not depend on what would handle the
  -- message after the last hop, and the scheduler with itself as the handler of its outputs does the same.
  pub looped-looped :
      (n : ℕ) (f g : Handler W (Outcome A)) (deadline : Deadline) (msg : Msg) (w : W)
      → 257 ≤ n
      → (looped (suc n) f deadline msg w ≡ looped (suc n) g deadline msg w)
        × (looped (suc n) f deadline msg w
            ≡ scheduled (message_router network (looped (suc n) f)) deadline msg w)
  unfolding looped
  looped-looped n f g deadline msg w h = (
    looped-Agree n f g deadline msg w (omega (arith, h)),
    looped-Agree n f (scheduled (message_router network f)) deadline msg w (omega (arith, h))
        ∙ ap (λ (k : Handler W (Outcome A)). k deadline msg w) (sym (looped-suc (suc n) f)),
  )
