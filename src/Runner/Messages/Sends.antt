-- ===== src/Runner/Messages/Sends.antt =====
-- The run that the message of a durable run continues, and what is sent under it.
use module_lib.Prelude.{
  ℕ, ◌+◌, ◌≡◌, refl, ◌∙◌, ap, sym, false, Option, some, inr, List, [], ◌∷◌, arith, Text, ◌==◌,
  if◌then◌else◌,
}
use mathlib.Core.Path.{subst}
use module_lib.Dict
use module_lib.Node.{Edge}
use module_lib.Run.{Msg, Run, new_run, next_step_key, step_key_of, ordinal, record_emit}
use module_lib.Run.Keys.{ordinal-next}
use module_lib.Runner.Send.{Outcome, ok, fail, stamp, finish, emit_of}
use module_lib.Runner.Messages.{Component, StepLedger, Values, Clock, Runner, prepare}
use module_lib.Runner.Messages.Prepared.{prepared}

-- A hop that was sent under a run before: its edge, port, target, payload, and how it ended.
pub record SentHop (A : Type 0) : Type 0 where
  pub edge : Edge
  pub from_port : Text
  pub edge_to : Text
  pub payload : Text
  pub outcome : Outcome A

-- The run's identity, with no reply address and so many sends over the edge.
record IsRunOf (id key edge : Text) (n : ℕ) (run : Run) : Type 0 where
  has_id : run.run_id ≡ id
  has_key : run.step_key ≡ key
  no_subject : run.reply_subject ≡ []
  no_target : run.reply_target ≡ []
  sends : ordinal run.seq edge ≡ n

next_step_key-IsRunOf :
    (d id key edge : Text) (n : ℕ) (run : Run)
    → IsRunOf id key edge n run
    → IsRunOf id key edge ((if d == edge then 1 else 0) + n) (next_step_key run d).1
unfolding next_step_key
next_step_key-IsRunOf d id key edge n run v = record {
  has_id = (next_step_key_kept run d).0 ∙ v.has_id;
  has_key = (next_step_key_kept run d).1 ∙ v.has_key;
  no_subject = (next_step_key_kept run d).2 ∙ v.no_subject;
  no_target = (next_step_key_kept run d).3 ∙ v.no_target;
  sends = ordinal-next run d edge ∙ ap (λ (k : ℕ). (if d == edge then 1 else 0) + k) v.sends;
}
  where
    next_step_key_kept :
        (run : Run) (d : Text)
        → let r = (next_step_key run d).1 in
          (r.run_id ≡ run.run_id)
          × (r.step_key ≡ run.step_key)
          × (r.reply_subject ≡ run.reply_subject)
          × (r.reply_target ≡ run.reply_target)
    next_step_key_kept run d = (refl, refl, refl, refl)

new_run-IsRunOf : (id key edge : Text) → IsRunOf id key edge 0 (new_run id key)
unfolding new_run ordinal Dict.get
new_run-IsRunOf id key edge = record {
  has_id = refl;
  has_key = refl;
  no_subject = refl;
  no_target = refl;
  sends = refl;
}

stamp-IsRunOf :
    (edge : Edge) (from_port edge_to payload id key : Text) (n : ℕ) (run : Run)
    → IsRunOf id key edge.id n run
    → let sent = (stamp (some run) edge from_port edge_to payload).0 in
      (sent.run_id ≡ id)
      × (sent.step_key ≡ step_key_of id key edge.id n)
      × (sent.reply_subject ≡ [])
      × (sent.reply_target ≡ [])
unfolding stamp next_step_key
stamp-IsRunOf edge from_port edge_to payload id key n run v =
    (v.has_id, rw (v.has_id, v.has_key, v.sends) refl, v.no_subject, v.no_target)

add_zero : (n : ℕ) → n + 0 ≡ n
add_zero n = omega arith

zero_add : (n : ℕ) → 0 + n ≡ n
zero_add n = omega arith

add_assoc : (a b c : ℕ) → (a + b) + c ≡ a + (b + c)
add_assoc a b c = omega arith

module _ {A : Type 0} where
  -- The run after these sends, one after another.
  unfoldable pub after_sends : List (SentHop A) → Option Run → Option Run
  after_sends [] run = run
  after_sends (h ∷ hs) run =
      let (msg, run') = stamp run h.edge h.from_port h.edge_to h.payload in
      after_sends hs (finish msg run' h.outcome)

  -- How many of them went over this edge.
  unfoldable pub sends_over : Text → List (SentHop A) → ℕ
  sends_over id [] = 0
  sends_over id (h ∷ hs) = sends_over id hs + (if h.edge.id == id then 1 else 0)

  finish-IsRunOf :
      (msg : Msg) (o : Outcome A) (id key edge : Text) (n : ℕ) (run : Run)
      → IsRunOf id key edge n run
      → (next : Run) × (finish msg (some run) o ≡ some next) × IsRunOf id key edge n next
  unfolding finish
  finish-IsRunOf msg (ok res) id key edge n run v = (
    record_emit run (emit_of msg),
    refl,
    record {
      has_id = v.has_id;
      has_key = v.has_key;
      no_subject = v.no_subject;
      no_target = v.no_target;
      sends = v.sends;
    },
  )
  finish-IsRunOf msg (fail e) id key edge n run v = (run, refl, v)

  after_sends-IsRunOf :
      (hs : List (SentHop A)) (id key edge : Text) (n : ℕ) (run : Run) (r : Option Run)
      → r ≡ some run
      → IsRunOf id key edge n run
      → (last : Run) × (after_sends hs r ≡ some last)
        × IsRunOf id key edge (sends_over edge hs + n) last
  unfolding after_sends sends_over stamp
  after_sends-IsRunOf [] id key edge n run r e v =
      (run, e, subst (λ k. IsRunOf id key edge k run) (sym (zero_add n)) v)
  after_sends-IsRunOf (h ∷ hs) id key edge n run r e v =
      let m : ℕ = if h.edge.id == edge then 1 else 0 in
      let (next, is, kept) =
        finish-IsRunOf (stamp (some run) h.edge h.from_port h.edge_to h.payload).0 h.outcome id key
          edge (m + n) (next_step_key run h.edge.id).1
          (next_step_key-IsRunOf h.edge.id id key edge n run v) in
      let (last, there, done) =
        after_sends-IsRunOf hs id key edge (m + n) next
          (finish (stamp r h.edge h.from_port h.edge_to h.payload).0
            (stamp r h.edge h.from_port h.edge_to h.payload).1 h.outcome)
          (rw e (stamped is)) kept in
      (
        last,
        there,
        subst (λ k. IsRunOf id key edge k last) (sym (add_assoc (sends_over edge hs) m n)) done,
      )
    where
      stamped :
          {next : Run}
          → finish
              (stamp (some run) h.edge h.from_port h.edge_to h.payload).0
              (some (next_step_key run h.edge.id).1)
              h.outcome
            ≡ some next
          → finish
              (stamp (some run) h.edge h.from_port h.edge_to h.payload).0
              (stamp (some run) h.edge h.from_port h.edge_to h.payload).1
              h.outcome
            ≡ some next
      stamped is = is

module _ {W V A D J : Type 0} (component : Component W V A) (ledger : StepLedger W)
    (values : Values V D J) (clock : Clock W) where
  -- A message of a durable run goes to the component with that run and step, and no reply address. After
  -- any sends under that run, however they ended, what is sent next over an edge is of that run; its
  -- key is that of the run, the step of the message, the edge and the number of earlier sends over it;
  -- and it does not carry the address of the message that was received.
  pub stamp-prepare :
      (ctx_run : Option Run) (msg : Msg) (r r' : Runner V) (w w' : W) (port : Text) (v : V)
      (run : Option Run)
      → (msg.run_id == []) ≡ false
      → prepare component ledger values clock ctx_run msg r w ≡ (inr (port, v, run), r', w')
      → (hs : List (SentHop A)) (edge : Edge) (from_port edge_to payload : Text)
      → let sent = (stamp (after_sends hs run) edge from_port edge_to payload).0 in
        (run ≡ some (new_run msg.run_id msg.step_key))
        × (sent.run_id ≡ msg.run_id)
        × (sent.step_key ≡ step_key_of msg.run_id msg.step_key edge.id (sends_over edge.id hs))
        × (sent.reply_subject ≡ [])
        × (sent.reply_target ≡ [])
  stamp-prepare ctx_run msg r r' w w' port v run h e hs edge from_port edge_to payload =
      let (state, name, node, is) =
        prepared component ledger values clock ctx_run msg r r' w w' port v run h e in
      let (last, there, kept) =
        after_sends-IsRunOf hs msg.run_id msg.step_key edge.id 0 (new_run msg.run_id msg.step_key)
          run is (new_run-IsRunOf msg.run_id msg.step_key edge.id) in
      let (a, b, c, d) =
        stamp-IsRunOf edge from_port edge_to payload msg.run_id msg.step_key (sends_over edge.id hs)
          last
          (subst (λ n. IsRunOf msg.run_id msg.step_key edge.id n last)
            (add_zero (sends_over edge.id hs)) kept) in
      rw there (is, a, b, c, d)
