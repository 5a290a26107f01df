-- ===== src/Runner/Messages/Replay.antt =====
-- The redelivery of a durable hop that was handled.
use module_lib.Prelude.{
  ℕ, ◌≡◌, refl, ◌≢◌, ◌∙◌, ap, sym, true, false, Option, none, some, inl, inr, [], Text, codes, ◌==◌,
  Bool-cases,
}
use mathlib.Core.Path.{subst}
use module_lib.Names.{parse_full_port_name}
use module_lib.Errors.{plain}
use module_lib.Run.{Msg, Run, StepRecord, new_run, step_ledger_key}
use module_lib.Runner.Send.{Outcome, ok, fail}
use module_lib.Runner.Messages.{
  Component, StepLedger, Values, Clock, Runner, Emit, Prepared, prepare, deliver, msg_handler,
  is_recorded, record_of, write_step_record, dispatch_capability, or_handle, status_of,
}
use module_lib.Runner.Messages.Prepared.{prepared}

-- A record that was written is read back, the write of a record succeeds, and each record has bytes.
pub record IsLedger {W : Type 0} (ledger : StepLedger W) : Type 0 where
  pub read_back :
      (run key bytes : Text) (w : W)
      → ledger.read run key (ledger.write run key bytes w).1 ≡ some bytes
  pub encodes : (r : StepRecord) → (b : Text) × (ledger.encode r ≡ some b)

-- The component leaves the run's identity as it is.
abbrev pub KeepsRun : {W V A : Type 0} → Component W V A → Type 0
KeepsRun {W} {V} {A} c =
    (emit : Emit W V A) (port : Text) (v : V) (run : Run) (w : W)
    → (run' : Run) × ((c.handle emit port v (some run) w).1 ≡ some run')
      × (run'.run_id ≡ run.run_id)
      × (run'.step_key ≡ run.step_key)

module _ {W V A D J : Type 0} (component : Component W V A) (ledger : StepLedger W)
    (values : Values V D J) (clock : Clock W) where
  prepare_recorded :
      (ctx_run : Option Run) (msg : Msg) (r : Runner V) (w : W)
      → ((parse_full_port_name msg.to).1 == []) ≡ false
      → is_recorded component ledger values clock r msg w ≡ true
      → prepare component ledger values clock ctx_run msg r w ≡ (inl (ok none), r, w)
  unfolding prepare
  prepare_recorded ctx_run msg r w h k = rw h (rw k refl)

  prepare_no_port :
      (ctx_run : Option Run) (msg : Msg) (r : Runner V) (w : W)
      → ((parse_full_port_name msg.to).1 == []) ≡ true
      → prepare component ledger values clock ctx_run msg r w
        ≡ (inl (fail (plain (codes "input port is empty"))), r, w)
  unfolding prepare
  prepare_no_port ctx_run msg r w h = rw h refl

  -- Where a message went to the component, it names a port.
  prepare_port :
      (ctx_run : Option Run) (msg : Msg) (r r' : Runner V) (w w' : W) (x : Text × V × Option Run)
      → prepare component ledger values clock ctx_run msg r w ≡ (inr x, r', w')
      → ((parse_full_port_name msg.to).1 == []) ≡ false
  prepare_port ctx_run msg r r' w w' x e =
      elim (Bool-cases ((parse_full_port_name msg.to).1 == [])) [
        | inl empty ↦
            absurd (apart _ x (ap (λ y. y.0) (sym (prepare_no_port ctx_run msg r w empty) ∙ e)))
        | inr there ↦ there
      ]
    where
      apart : (o : Outcome A) (x : Text × V × Option Run) → ◌≢◌ {A = Prepared V A} (inl o) (inr x)
      apart o x h = cc

  recorded :
      (msg : Msg) (r : Runner V) (w : W) (b : Text)
      → (msg.run_id == []) ≡ false
      → (msg.step_key == []) ≡ false
      → r.has_state ≡ true
      → ledger.read msg.run_id (step_ledger_key msg.step_key) w ≡ some b
      → is_recorded component ledger values clock r msg w ≡ true
  unfolding is_recorded
  recorded msg r w b h k state e = rw (h, k, state, e) refl

  -- The handling that left this left a record of its outcome, and the same message is skipped now.
  Recorded : Emit W V A → Option Run → Msg → Outcome A × Runner V × W → Type 0
  Recorded emit ctx_run msg (o, r, w) =
      (entry : StepRecord) × (entry.status ≡ status_of component ledger values clock o)
      × (ledger.read msg.run_id (step_ledger_key msg.step_key) w ≡ ledger.encode entry)
      × (msg_handler component ledger values clock emit ctx_run msg r w ≡ (ok none, r, w))

  module _ (laws : IsLedger ledger) (keeps : KeepsRun component) where
    -- What the delivery of a run's hop leaves in the ledger.
    write_step_record-read :
        (r : Runner V) (o : Outcome A) (started : ℕ) (run : Run) (w : W)
        → r.has_state ≡ true
        → let w' = write_step_record component ledger values clock r o started (some run) w in
          ledger.read run.run_id (step_ledger_key run.step_key) w'
          ≡ ledger.encode
              (record_of component ledger values clock r.name o run started (clock.now w))
    unfolding write_step_record
    write_step_record-read r o started run w h =
        let (b, e) =
          laws.encodes
            (record_of component ledger values clock r.name o run started (clock.now w)) in
        rw (h, e) (laws.read_back run.run_id (step_ledger_key run.step_key) b w)

    write_step_record-read_at :
        (r : Runner V) (o : Outcome A) (started : ℕ) (run : Run) (q : Option Run) (id key : Text)
        (w : W)
        → r.has_state ≡ true
        → q ≡ some run
        → run.run_id ≡ id
        → run.step_key ≡ key
        → ledger.read id
            (step_ledger_key key)
            (write_step_record component ledger values clock r o started q w)
          ≡ ledger.encode
              (record_of component ledger values clock r.name o run started (clock.now w))
    write_step_record-read_at r o started run q id key w h e i k =
        rw (e, sym i, sym k) (write_step_record-read r o started run w h)

    or_handle-run :
        (emit : Emit W V A) (port : Text) (v : V) (run : Run) (w : W) (x : Option (Outcome A × W))
        → (run' : Run) × ((or_handle component ledger values clock emit port v (some run) w x).1
            ≡ some run')
          × (run'.run_id ≡ run.run_id)
          × (run'.step_key ≡ run.step_key)
    unfolding deliver
    or_handle-run emit port v run w none = keeps emit port v run w
    or_handle-run emit port v run w (some (o, w')) = (run, refl, refl, refl)

    -- The record of a delivery has its outcome.
    deliver-read :
        (emit : Emit W V A) (port : Text) (v : V) (run : Run) (r : Runner V) (w : W)
        → r.has_state ≡ true
        → let (o, r', w') =
            deliver component ledger values clock emit (inr (port, v, some run), r, w) in
          (entry : StepRecord) × (entry.status ≡ status_of component ledger values clock o)
          × (ledger.read run.run_id (step_ledger_key run.step_key) w' ≡ ledger.encode entry)
          × (r' ≡ r)
    unfolding deliver
    deliver-read emit port v run r w h =
        let (run', is, id, key) =
          or_handle-run emit port v run w
            (dispatch_capability component ledger values clock port v w) in
        let x =
          or_handle component ledger values clock emit port v (some run) w
            (dispatch_capability component ledger values clock port v w) in
        (
          record_of component ledger values clock r.name x.0 run' (clock.now w) (clock.now x.2),
          refl,
          write_step_record-read_at r x.0 (clock.now w) run' x.1 run.run_id run.step_key x.2 h is id
              key,
          refl,
        )

    deliver-Recorded :
        (emit emit' : Emit W V A) (ctx_run : Option Run) (msg : Msg) (port : Text) (v : V)
        (r : Runner V) (w : W)
        → (msg.run_id == []) ≡ false
        → (msg.step_key == []) ≡ false
        → ((parse_full_port_name msg.to).1 == []) ≡ false
        → r.has_state ≡ true
        → Recorded emit' ctx_run msg (
            deliver component ledger values clock emit
              (inr (port, v, some (new_run msg.run_id msg.step_key)), r, w))
    unfolding Recorded new_run msg_handler
    deliver-Recorded emit emit' ctx_run msg port v r w h k named state =
        let (entry, status, there, same) =
          deliver-read emit port v (new_run msg.run_id msg.step_key) r w state in
        let (b, e) = laws.encodes entry in
        let (o, r', w') =
          deliver component ledger values clock emit
            (inr (port, v, some (new_run msg.run_id msg.step_key)), r, w) in
        (
          entry,
          status,
          there,
          ap (deliver component ledger values clock emit') (
              prepare_recorded ctx_run msg r' w' named
                (recorded msg r' w' b h k (ap (λ x. x.has_state) same ∙ state) (there ∙ e))),
        )

    -- A hop of a durable run, with a step key, that went to the component at a node with a state backend
    -- leaves a record of its outcome, and the same message delivered again does not reach the component:
    -- it is acknowledged, and nothing is changed. The ledger's writes are taken to be read back, and the
    -- component not to change the run's identity.
    pub msg_handler-msg_handler :
        (emit emit' : Emit W V A) (ctx_run ctx_run' : Option Run) (msg : Msg) (r r1 : Runner V)
        (w w1 : W) (port : Text) (v : V) (run : Option Run)
        → (msg.run_id == []) ≡ false
        → (msg.step_key == []) ≡ false
        → r.has_state ≡ true
        → prepare component ledger values clock ctx_run msg r w ≡ (inr (port, v, run), r1, w1)
        → let (o, r', w') = msg_handler component ledger values clock emit ctx_run msg r w in
          (entry : StepRecord) × (entry.status ≡ status_of component ledger values clock o)
          × (ledger.read msg.run_id (step_ledger_key msg.step_key) w' ≡ ledger.encode entry)
          × (msg_handler component ledger values clock emit' ctx_run' msg r' w' ≡ (ok none, r', w'))
    unfolding msg_handler Recorded
    msg_handler-msg_handler emit emit' ctx_run ctx_run' msg r r1 w w1 port v run h k state e =
        let (state1, name, node, is) =
          prepared component ledger values clock ctx_run msg r r1 w w1 port v run h e in
        subst (λ y. Recorded emit' ctx_run' msg (deliver component ledger values clock emit y))
          (sym e)
          (subst
            (λ q.
              Recorded emit' ctx_run' msg
                (deliver component ledger values clock emit (inr (port, v, q), r1, w1)))
            (sym is)
            (deliver-Recorded emit emit' ctx_run' msg port v r1 w1 h k
              (prepare_port ctx_run msg r r1 w w1 (port, v, run) e) (state1 ∙ state)))
