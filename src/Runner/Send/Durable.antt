-- ===== src/Runner/Send/Durable.antt =====
-- What a durable run keeps of a send, and what the transport was given.
use module_lib.Prelude.{
  ℕ, zero, suc, ◌+◌, ◌≡◌, refl, ◌∙◌, ap, sym, Option, none, some, List, [], ◌∷◌, ◌++◌, Text,
  append-nil,
}
use module_lib.Prelude.Int.{ℤ}
use module_lib.Dict
use module_lib.Errors.{Err}
use module_lib.Node.{Edge, EdgeRetryPolicy}
use module_lib.Run.{Msg, Run, EmitRecord, next_step_key, step_key_of, ordinal}
use module_lib.Runner.Backoff.{Floats}
use module_lib.Runner.Send.{Outcome, ok, fail, Deadline, Transport, finish, stamp, send_to_edge}
use module_lib.Runner.Send.Attempts.{
  Course, succeeded, refused, exhausted, cancelled, repeated, attempts-Course, max_attempts-pos,
}

-- A log of the handler's messages that the world keeps: each call adds its message, waiting adds none.
pub record IsLog {W A : Type 0} (t : Transport W A) (log : W → List Msg) : Type 0 where
  pub logged : (d : Deadline) (m : Msg) (w : W) → log (t.handle d m w).1 ≡ m ∷ log w
  pub kept : (d : Deadline) (x : ℤ) (w : W) → log (t.wait d x w).1 ≡ log w

-- So many copies of the message, before the list.
unfoldable pub copies : ℕ → Msg → List Msg → List Msg
copies zero m ms = ms
copies (suc n) m ms = m ∷ copies n m ms

copies-cons : (n : ℕ) (m : Msg) (ms : List Msg) → copies n m (m ∷ ms) ≡ m ∷ copies n m ms
unfolding copies
copies-cons zero m ms = refl
copies-cons (suc n) m ms = ap (λ l. m ∷ l) (copies-cons n m ms)

module _ (floats : Floats) {W A : Type 0} (t : Transport W A) (log : W → List Msg) (l : IsLog t log)
    (policy : Option EdgeRetryPolicy) (d : Deadline) (m : Msg) where
  log-handle : {w w' : W} (o : Outcome A) → t.handle d m w ≡ (o, w') → log w' ≡ m ∷ log w
  log-handle {w} o h = sym (ap (λ (x : Outcome A × W). log x.1) h) ∙ l.logged d m w

  log-wait : {w w' : W} (x : ℤ) (o : Option Err) → t.wait d x w ≡ (o, w') → log w' ≡ log w
  log-wait {w} x o h = sym (ap (λ (y : Option Err × W). log y.1) h) ∙ l.kept d x w

  -- A run of the loop sends the one message, at least once.
  Course-log :
      {left attempt : ℕ} {w : W} {x : Outcome A × W}
      → Course floats t policy d m left attempt w x
      → (k : ℕ) × (log x.1 ≡ copies (suc k) m (log w))
  unfolding copies
  Course-log (succeeded res h) = (0, log-handle (ok res) h)
  Course-log (refused e h a) = (0, log-handle (fail e) h)
  Course-log (exhausted e h a) = (0, log-handle (fail e) h)
  Course-log (cancelled e stop h a s) = (0, log-wait _ (some stop) s ∙ log-handle (fail e) h)
  Course-log {w} (repeated e h a s r) =
      let (k, q) = Course-log r in
      (
        suc k,
        q
            ∙ ap (λ ms. m ∷ copies k m ms) (log-wait _ none s ∙ log-handle (fail e) h)
            ∙ ap (λ ms. m ∷ ms) (copies-cons k m (log w)),
      )

module _ (edge : Edge) (from_port edge_to payload : Text) (r : Run) where
  -- The key of the hop: that of the run, the step, the edge and the number of hops that went over it.
  abbrev pub key_of : Text
  key_of = step_key_of r.run_id r.step_key edge.id (ordinal r.seq edge.id)

  -- What a durable run sends over an edge.
  abbrev pub durable_msg : Msg
  durable_msg = record {
    edge_id = edge.id;
    from = from_port;
    to = edge_to;
    payload = payload;
    depth = 0;
    mode = [];
    run_id = r.run_id;
    step_key = key_of;
    reply_subject = r.reply_subject;
    reply_target = r.reply_target;
    reply_deadline = r.reply_deadline;
  }

  -- What the run records of it.
  abbrev pub durable_emit : EmitRecord
  durable_emit = record {
    to = edge_to;
    from = from_port;
    edge_id = edge.id;
    step_key = key_of;
    payload = payload;
    reply_subject = r.reply_subject;
    reply_target = r.reply_target;
    reply_deadline = r.reply_deadline;
  }

  -- The hops that a send adds to the run: the one that was stored, if it was.
  abbrev pub stored : {A : Type 0} → Outcome A → List EmitRecord
  stored (ok res) = durable_emit ∷ []
  stored (fail e) = []

  stamp-durable_msg : (stamp (some r) edge from_port edge_to payload).0 ≡ durable_msg
  unfolding stamp next_step_key
  stamp-durable_msg = refl

  finish-run :
      {A : Type 0} (o : Outcome A)
      → let (m, run) = stamp (some r) edge from_port edge_to payload in
        finish m run o
        ≡ some (record r {
          seq = Dict.put r.seq edge.id (ordinal r.seq edge.id + 1);
          emits = r.emits ++ stored o;
        })
  unfolding stamp finish next_step_key
  finish-run (ok res) = refl
  finish-run (fail e) = rw append-nil

-- A send on a durable run hands the transport one message, at least once: with the run, the hop's key
-- and the run's reply address. The run counts one hop more over the edge, however many attempts there
-- were; the hop is recorded, with the fields of that message, exactly when the transport stored it;
-- and every other field of the run stays.
pub send_to_edge-run :
    (floats : Floats) {W A : Type 0} (t : Transport W A) (log : W → List Msg)
    → IsLog t log
    → (d : Deadline) (edge : Edge) (from_port edge_to payload : Text) (r : Run) (w : W)
    → let (outcome, run', w') = send_to_edge floats t d edge from_port edge_to payload (some r) w in
      ((k : ℕ) × (log w' ≡ copies (suc k) (durable_msg edge from_port edge_to payload r) (log w)))
      × (run'
          ≡ some (record r {
            seq = Dict.put r.seq edge.id (ordinal r.seq edge.id + 1);
            emits = r.emits ++ stored edge from_port edge_to payload r outcome;
          }))
unfolding send_to_edge
send_to_edge-run floats t log l d edge from_port edge_to payload r w =
    let (n, e) = max_attempts-pos edge.retry_policy in
    rw e (
      (
        rw (sym (stamp-durable_msg edge from_port edge_to payload r)) (
            Course-log floats t log l edge.retry_policy _ _
              (attempts-Course floats t edge.retry_policy _ _ n 1 none w)),
        finish-run edge from_port edge_to payload r _,
      ))
