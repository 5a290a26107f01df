-- ===== src/Runner/Messages/Prepared.antt =====
-- What MsgHandler of internal/scheduler/runner/runner.go prepares, and the runner that it leaves.
use module_lib.Prelude.{
  ◌≡◌, refl, ◌∙◌, ap, Bool, true, false, not, Option, none, some, ◌⊎◌, inl, inr, [], Text, ◌==◌,
  arith, if◌then◌else◌,
}
use mathlib.Core.Path.{subst}
use module_lib.Names.{parse_full_port_name}
use module_lib.Errors.{Err}
use module_lib.Node.{settings_port}
use module_lib.Run.{Msg, Run, new_run}
use module_lib.Runner.Messages.{
  Component, StepLedger, Values, Clock, Runner, Emit, Port, Prepared, prepare, deliver, msg_handler,
  is_recorded, traced, with_data, at_configuration, at_port, skips_settings, remember_settings,
  get_ports, run_of, port_data, get_port_config, find_port,
}

-- The port, the data and the run that go to the component are for this run.
abbrev HasRun : {V A : Type 0} → Option Run → Prepared V A → Type 0
HasRun run (inl o) = Unit
HasRun run (inr (port, v, run')) = run' ≡ run

abbrev Kept : {W V A : Type 0} → Option Run → Runner V → Prepared V A × Runner V × W → Type 0
Kept run r (x, r', w) =
    (r'.has_state ≡ r.has_state) × (r'.name ≡ r.name) × (r'.node ≡ r.node) × HasRun run x

module _ {W V A D J : Type 0} (component : Component W V A) (ledger : StepLedger W)
    (values : Values V D J) (clock : Clock W) where
  traced-Kept :
      (port : Text) (v : V) (run : Option Run) (r : Runner V) (x : Option Err × W)
      → Kept {W = W} {V = V} {A = A} run r (traced component ledger values clock port v run r x)
  unfolding with_data
  traced-Kept port v run r (some e, w) = (refl, refl, refl, tt)
  traced-Kept port v run r (none, w) = (refl, refl, refl, refl)

  Kept-if :
      (b : Bool) (run : Option Run) (r : Runner V) (x y : Prepared V A × Runner V × W)
      → Kept {W = W} {V = V} {A = A} run r x
      → Kept {W = W} {V = V} {A = A} run r y
      → Kept {W = W} {V = V} {A = A} run r (if b then x else y)
  Kept-if true run r x y h k = h
  Kept-if false run r x y h k = k

  with_data-Kept :
      (port : Text) (run : Option Run) (v : Err ⊎ V) (r : Runner V) (w : W)
      → Kept {W = W} {V = V} {A = A} run r (with_data component ledger values clock port run v r w)
  unfolding with_data
  with_data-Kept port run (inl e) r w = (refl, refl, refl, tt)
  with_data-Kept port run (inr v) r w =
      Kept-if (not (port == settings_port)) run r _ _ (traced-Kept port v run r (clock.new_uuid w))
        (Kept-if (skips_settings values r v (clock.now w)) run r _ _ (refl, refl, refl, tt)
          (traced-Kept port v run (remember_settings values v (clock.now w) r) (clock.new_uuid w)))

  at_port-Kept :
      (port : Text) (run : Option Run) (msg : Msg) (p : Option (Port V)) (r : Runner V) (w : W)
      → Kept {W = W} {V = V} {A = A} run r
          (at_port component ledger values clock port run msg p r w)
  unfolding at_port
  at_port-Kept port run msg none r w = (refl, refl, refl, tt)
  at_port-Kept port run msg (some p) r w = at_configuration-Kept p.configuration
    where
      at_configuration-Kept :
          (o : Option V)
          → Kept {W = W} {V = V} {A = A} run r
              (at_configuration component ledger values clock port run msg o r w)
      at_configuration-Kept none = (refl, refl, refl, tt)
      at_configuration-Kept (some configuration) =
          with_data-Kept port run
            (port_data values configuration (get_port_config msg.from port r.node.ports) msg) r w

  get_ports-kept :
      (r : Runner V) (w : W)
      → ((get_ports component r w).1.has_state ≡ r.has_state)
        × ((get_ports component r w).1.name ≡ r.name)
        × ((get_ports component r w).1.node ≡ r.node)
  unfolding get_ports
  get_ports-kept r w = ground arith

  run_of_message :
      (r : Runner V) (msg : Msg) (port : Text) (ctx_run : Option Run) (w : W)
      → (msg.run_id == []) ≡ false
      → run_of component ledger values clock r msg port ctx_run w
        ≡ (some (new_run msg.run_id msg.step_key), w)
  unfolding run_of
  run_of_message r msg port ctx_run w h = rw h refl

  Kept-from :
      (run : Option Run) (r r' : Runner V) (x : Prepared V A × Runner V × W)
      → r'.has_state ≡ r.has_state
      → r'.name ≡ r.name
      → r'.node ≡ r.node
      → Kept {W = W} {V = V} {A = A} run r' x
      → Kept {W = W} {V = V} {A = A} run r x
  Kept-from run r r' (x, r'', w) h k n (a, b, d, c) = (a ∙ h, b ∙ k, d ∙ n, c)

  -- What is prepared is for the run of the context.
  prepare-Kept :
      (ctx_run : Option Run) (msg : Msg) (r : Runner V) (w : W)
      → Kept {W = W} {V = V} {A = A}
          (run_of component ledger values clock r msg (parse_full_port_name msg.to).1 ctx_run w).0
          r
          (prepare component ledger values clock ctx_run msg r w)
  unfolding prepare
  prepare-Kept ctx_run msg r w =
      let port = (parse_full_port_name msg.to).1 in
      let (run, w') = run_of component ledger values clock r msg port ctx_run w in
      let (state, name, node) = get_ports-kept r w' in
      Kept-if (port == []) run r _ _ (refl, refl, refl, tt)
        (Kept-if (is_recorded component ledger values clock r msg w) run r _ _
          (refl, refl, refl, tt)
          (Kept-from run r (get_ports component r w').1
            (at_port component ledger values clock port run msg
              (find_port port (get_ports component r w').0) (get_ports component r w').1 w')
            state name node
            (at_port-Kept port run msg (find_port port (get_ports component r w').0)
              (get_ports component r w').1 w')))

  -- The runner is as it was prepared.
  pub deliver-runner :
      (emit : Emit W V A) (x : Prepared V A × Runner V × W)
      → (deliver component ledger values clock emit x).1 ≡ x.1
  unfolding deliver
  deliver-runner emit (inl o, r, w) = refl
  deliver-runner emit (inr (port, v, run), r, w) = refl

  pub msg_handler-node :
      (emit : Emit W V A) (ctx_run : Option Run) (msg : Msg) (r : Runner V) (w : W)
      → (msg_handler component ledger values clock emit ctx_run msg r w).1.node ≡ r.node
  unfolding msg_handler
  msg_handler-node emit ctx_run msg r w =
      ap (λ (q : Runner V). q.node)
        (deliver-runner emit (prepare component ledger values clock ctx_run msg r w))
      ∙ (prepare-Kept ctx_run msg r w).2

  pub prepared :
      (ctx_run : Option Run) (msg : Msg) (r r' : Runner V) (w w' : W) (port : Text) (v : V)
      (run : Option Run)
      → (msg.run_id == []) ≡ false
      → prepare component ledger values clock ctx_run msg r w ≡ (inr (port, v, run), r', w')
      → (r'.has_state ≡ r.has_state)
        × (r'.name ≡ r.name)
        × (r'.node ≡ r.node)
        × (run ≡ some (new_run msg.run_id msg.step_key))
  prepared ctx_run msg r r' w w' port v run h e =
      subst (λ x. Kept {W = W} {V = V} {A = A} (some (new_run msg.run_id msg.step_key)) r x) e
        (subst
          (λ q.
            Kept {W = W} {V = V} {A = A} q r
              (prepare component ledger values clock ctx_run msg r w))
          (ap (λ q. q.0) (run_of_message r msg (parse_full_port_name msg.to).1 ctx_run w h))
          (prepare-Kept ctx_run msg r w))
