-- ===== src/Scheduler/Settings.antt =====
-- What an update reports of settings that the component refused.
use module_lib.Prelude.{◌≡◌, refl, ◌∙◌, ap, sym, Bool, true, false, ◌&&◌, ◌||◌, Option, none, Text}
use module_lib.Dict.{Dict}
use module_lib.Errors.{Err}
use module_lib.Names.{parse_full_port_name}
use module_lib.Node.{Node, Status, settings_port}
use module_lib.Runner.Send.{Outcome, ok, fail}
use module_lib.Runner.Messages.{StepLedger, Values, Clock, Runner, Emit, msg_handler}
use module_lib.Runner.Messages.Settings.{Builds, msg_handler_settings_once}
use module_lib.Runner.Status.{JsonCodec, Encodings}
use module_lib.Scheduler.{
  Kind, Instance, Schedule, update_instance, after_reconcile, after_settings, set_node, introduce,
  reconcile, settings_msg,
}

module _ {W V A D J : Type 0} (ledger : StepLedger W) (values : Values V D J) (clock : Clock W)
    (codec : JsonCodec) (encodings : Encodings V) (emits : Text → Emit W V A)
    (notify : Dict Text → W → W) where
  after_settings-port_msg :
      (backup : Node) (status : Status) (kind : Kind W V A) (x : Outcome A × Runner V × W)
      → (after_settings ledger values clock codec encodings emits notify backup status kind
          x).1.runner.port_msg
        ≡ x.1.port_msg
  unfolding after_settings
  after_settings-port_msg backup status kind (fail e, r, w) = refl
  after_settings-port_msg backup status kind (ok res, r, w) = refl

  after_settings-ok :
      (backup : Node) (status : Status) (kind : Kind W V A) (x : Outcome A × Runner V × W)
      (res : Option A)
      → x.0 ≡ ok res
      → (after_settings ledger values clock codec encodings emits notify backup status kind
          x).0.1.error
        ≡ false
  unfolding after_settings
  after_settings-ok backup status kind (fail e, r, w) res h = cc
  after_settings-ok backup status kind (ok v, r, w) res h = refl

  after_settings-fail :
      (backup : Node) (status : Status) (kind : Kind W V A) (x : Outcome A × Runner V × W) (e : Err)
      → x.0 ≡ fail e
      → (after_settings ledger values clock codec encodings emits notify backup status kind
          x).0.1.error
        ≡ true
  unfolding after_settings
  after_settings-fail backup status kind (fail d, r, w) e h = refl
  after_settings-fail backup status kind (ok v, r, w) e h = cc

  -- The runner with which an update sends the settings.
  abbrev pub updated : Schedule W V A → Bool → Node → Instance W V A → Runner V
  updated s is_new node i = record (set_node node i.runner) {
    has_state = i.runner.has_state || (is_new && s.has_factory);
  }

  after_settings-kind :
      (backup : Node) (status : Status) (kind : Kind W V A) (x : Outcome A × Runner V × W)
      → (after_settings ledger values clock codec encodings emits notify backup status kind
          x).1.kind
        ≡ kind
  unfolding after_settings
  after_settings-kind backup status kind (fail e, r, w) = refl
  after_settings-kind backup status kind (ok res, r, w) = refl

  -- Where a component refuses its settings, the update of the node is reported as failed, and the next
  -- update of the same node as a success, though the component has not accepted the settings: here both
  -- updates reconcile, and build the same settings, with no placeholder for a secret.
  pub update_instance-update_instance :
      (s : Schedule W V A) (is_new : Bool) (node : Node) (i i2 : Instance W V A) (w w2 u u2 : W)
      (v : V) (e : Err)
      → (parse_full_port_name (settings_msg node).to).1 ≡ settings_port
      → values.has_secret v ≡ false
      → values.same v v ≡ true
      → reconcile i.kind.lifecycle.on_reconcile node (introduce s is_new node i.kind.lifecycle w)
        ≡ (none, u)
      → reconcile i.kind.lifecycle.on_reconcile node (introduce s false node i.kind.lifecycle w2)
        ≡ (none, u2)
      → Builds i.kind.component ledger values clock
          (settings_msg node)
          (updated s is_new node i)
          (notify node.status.metadata u)
          v
      → Builds i.kind.component ledger values clock
          (settings_msg node)
          (updated s false node i2)
          (notify node.status.metadata u2)
          v
      → (msg_handler i.kind.component ledger values clock
          (emits node.name)
          none
          (settings_msg node)
          (updated s is_new node i)
          (notify node.status.metadata u)).0
        ≡ fail e
      → (update_instance ledger values clock codec encodings emits notify s is_new node i w).1 ≡ i2
      → ((update_instance ledger values clock codec encodings emits notify s is_new node i
            w).0.1.error
          ≡ true)
        × ((update_instance ledger values clock codec encodings emits notify s false node i2
              w2).0.1.error
            ≡ false)
  unfolding update_instance settings_msg
  update_instance-update_instance s is_new node i i2 w w2 u u2 v e to secret same r1 r2 b1 b2 failed
        g =
      let backup = i.runner.node in
      let r = updated s is_new node i in
      let msg = settings_msg node in
      let x =
        msg_handler i.kind.component ledger values clock (emits node.name) none msg r
          (notify node.status.metadata u) in
      let first =
        ap (after_reconcile ledger values clock codec encodings emits notify backup node i.kind r)
          r1 in
      let kind =
        ap (λ y. y.kind) (sym g)
        ∙ ap (λ y. y.1.kind) first
        ∙ after_settings-kind backup node.status i.kind x in
      let remembers =
        ap (λ y. y.runner.port_msg) (sym g)
        ∙ ap (λ y. y.1.runner.port_msg) first
        ∙ after_settings-port_msg backup node.status i.kind x in
      let skipped =
        msg_handler_settings_once i.kind.component ledger values clock (emits node.name)
          (emits node.name) none none msg r (updated s false node i2)
          (notify node.status.metadata u) (notify node.status.metadata u2) v to refl secret same b1
          b2 remembers in
      (
        ap (λ y. y.0.1.error) first ∙ after_settings-fail backup node.status i.kind x e failed,
        ap
              (λ k.
                (after_reconcile ledger values clock codec encodings emits notify i2.runner.node
                  node k (updated s false node i2)
                  (reconcile k.lifecycle.on_reconcile node
                    (introduce s false node k.lifecycle w2))).0.1.error)
              kind
            ∙ ap
                (λ y.
                  (after_reconcile ledger values clock codec encodings emits notify i2.runner.node
                    node i.kind (updated s false node i2) y).0.1.error)
                r2
            ∙ after_settings-ok i2.runner.node node.status i.kind _ none (ap (λ y. y.0) skipped),
      )
