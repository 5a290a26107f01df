-- ===== src/Runner/Messages/Settings.antt =====
-- The delivery of settings, which is skipped while they are unchanged.
use module_lib.Prelude.{
  ◌≡◌, refl, ◌∙◌, ap, Bool, true, false, ◌&&◌, Option, none, some, inl, inr, [], ◌==◌, arith,
  if◌then◌else◌, starts_with, eq_refl,
}
use module_lib.Names.{parse_full_port_name}
use module_lib.Dict
use module_lib.Dict.{Dict, get-put_self}
use module_lib.Errors.{Err}
use module_lib.Node.{settings_port}
use module_lib.Run.{Msg, Run}
use module_lib.Runner.Send.{ok}
use module_lib.Runner.Messages.Prepared.{deliver-runner}
use module_lib.Runner.Messages.{
  Component, StepLedger, Values, Clock, Runner, Emit, Port, Prepared, prepare, deliver, msg_handler,
  traced, with_data, at_port, skips_settings, remember_settings, get_ports, port_data,
  get_port_config, find_port, unchanged,
}

and_false : (b : Bool) → (b && false) ≡ false
and_false true = refl
and_false false = refl

both : (a b : Bool) → (a && b) ≡ true → a ≡ true
both a b h = ground arith

module _ {W V A D J : Type 0} (component : Component W V A) (ledger : StepLedger W)
    (values : Values V D J) (clock : Clock W) where
  -- At this runner the message builds this data for the settings.
  pub record Builds (msg : Msg) (r : Runner V) (w : W) (v : V) : Type 0 where
    pub port : Port V
    pub configuration : V
    pub is_port : find_port settings_port (get_ports component r w).0 ≡ some port
    pub is_configured : port.configuration ≡ some configuration
    pub is_data :
        port_data values configuration
          (get_port_config msg.from settings_port (get_ports component r w).1.node.ports)
          msg
        ≡ inr v

  -- This data was delivered to the settings, or refused as unchanged.
  Seen : V → Prepared V A × Runner V × W → Type 0
  Seen v (x, r, w) = unchanged values (Dict.get r.port_msg settings_port) v ≡ true

  traced-Seen :
      (v : V) (run : Option Run) (r : Runner V) (x : Option Err × W)
      → unchanged values (Dict.get r.port_msg settings_port) v ≡ true
      → Seen v (traced component ledger values clock settings_port v run r x)
  unfolding Seen with_data
  traced-Seen v run r (some e, w) h = h
  traced-Seen v run r (none, w) h = h

  with_data-Seen :
      (v : V) (run : Option Run) (r : Runner V) (w : W)
      → values.same v v ≡ true
      → Seen v (with_data component ledger values clock settings_port run (inr v) r w)
  unfolding Seen with_data
  with_data-Seen v run r w h =
      rw (eq_refl settings_port) (seen (skips_settings values r v (clock.now w)) refl)
    where
      seen :
          (b : Bool)
          → skips_settings values r v (clock.now w) ≡ b
          → Seen v (
              if b
              then (inl (ok none), r, w)
              else traced component ledger values clock settings_port v run
                  (remember_settings values v (clock.now w) r)
                  (clock.new_uuid w))
      seen true e = both (unchanged values (Dict.get r.port_msg settings_port) v) _ e
      seen false e =
          traced-Seen v run (remember_settings values v (clock.now w) r) (clock.new_uuid w)
            (ap (λ o. unchanged values o v) (get-put_self r.port_msg settings_port v) ∙ h)

  with_data_seen :
      (v : V) (run : Option Run) (r : Runner V) (w : W)
      → values.has_secret v ≡ false
      → unchanged values (Dict.get r.port_msg settings_port) v ≡ true
      → with_data component ledger values clock settings_port run (inr v) r w
        ≡ (inl (ok none), r, w)
  unfolding with_data
  with_data_seen v run r w secret h = rw (eq_refl settings_port, h, secret) refl

  get_ports-port_msg : (r : Runner V) (w : W) → (get_ports component r w).1.port_msg ≡ r.port_msg
  unfolding get_ports
  get_ports-port_msg r w = ground arith

  -- A message to the settings, outside a run, is prepared with the data that it builds.
  prepare_settings :
      (ctx_run : Option Run) (msg : Msg) (r : Runner V) (w : W) (v : V)
      → (parse_full_port_name msg.to).1 ≡ settings_port
      → msg.run_id ≡ []
      → Builds msg r w v
      → prepare component ledger values clock ctx_run msg r w
        ≡ with_data component ledger values clock settings_port ctx_run
            (inr v)
            (get_ports component r w).1
            w
  unfolding prepare at_port starts_with ◌==◌
  prepare_settings ctx_run msg r w v to run b =
      rw (to, run, and_false r.exec_durable, b.is_port, b.is_configured, b.is_data) refl

  -- Settings without a placeholder for a secret are delivered at most once, whatever comes of it: after a
  -- message to the settings was handled, also where the component refused them with an error, a message
  -- that builds the same data is acknowledged without a call of the component, as long as the runner
  -- remembers what it does then.
  pub msg_handler_settings_once :
      (emit emit' : Emit W V A) (ctx_run ctx_run' : Option Run) (msg : Msg) (r r2 : Runner V)
      (w w2 : W) (v : V)
      → (parse_full_port_name msg.to).1 ≡ settings_port
      → msg.run_id ≡ []
      → values.has_secret v ≡ false
      → values.same v v ≡ true
      → Builds msg r w v
      → Builds msg r2 w2 v
      → r2.port_msg ≡ (msg_handler component ledger values clock emit ctx_run msg r w).1.port_msg
      → msg_handler component ledger values clock emit' ctx_run' msg r2 w2
        ≡ (ok none, (get_ports component r2 w2).1, w2)
  unfolding msg_handler Seen
  msg_handler_settings_once emit emit' ctx_run ctx_run' msg r r2 w w2 v to run secret same b b2 m =
      let first = prepare_settings ctx_run msg r w v to run b in
      let second = prepare_settings ctx_run' msg r2 w2 v to run b2 in
      let seen = with_data-Seen v ctx_run (get_ports component r w).1 w same in
      let kept =
        get_ports-port_msg r2 w2
        ∙ m
        ∙ ap (λ (q : Runner V). q.port_msg)
            (deliver-runner component ledger values clock emit
                (prepare component ledger values clock ctx_run msg r w)
              ∙ ap (λ x. x.1) first) in
      ap (deliver component ledger values clock emit') (
        second
        ∙ with_data_seen v ctx_run' (get_ports component r2 w2).1 w2 secret
            (ap (λ (q : Dict V). unchanged values (Dict.get q settings_port) v) kept ∙ seen))
