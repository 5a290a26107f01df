-- ===== src/Runner/Send.antt =====
-- `sendToEdgeWithRetry` of internal/scheduler/runner/runner.go: one message over one edge, attempted
-- again while the failure says so.
-- What the transport, the clock and the cancellation of the context do is a world W, threaded
-- through; the run that the context carries is threaded beside it.
pub mod Attempts
pub mod Durable
use module_lib.Prelude.{
  ℕ, zero, suc, ◌+◌, ◌*◌, ◌≡◌, refl, Bool, true, false, not, ◌&&◌, Option, none, some, List, [],
  ◌∷◌, Text, ◌==◌, any, ltb, if◌then◌else◌,
}
use module_lib.Prelude.Int.{ℤ}
use module_lib.Errors.{Err, should_retry, error_code}
use module_lib.Node.{Edge, EdgeRetryPolicy}
use module_lib.Run.{Msg, Run, EmitRecord, next_step_key, record_emit}
use module_lib.Runner.Backoff.{Floats, backoff_delay}

-- A handler's (any, error): a response, or nil, or an error.
pub data Outcome {ℓ} (A : Type ℓ) : Type ℓ where
  ok : Option A → Outcome A
  fail : Err → Outcome A

-- The context's deadline in unix milliseconds, if it has one.
abbrev pub Deadline : Type 0
Deadline = Option ℕ

pub record Transport (W A : Type 0) : Type 0 where
  pub handle : Deadline → Msg → W → Outcome A × W
  -- the select between ctx.Done() and time.After(delay): ctx.Err(), or none after the delay
  pub wait : Deadline → ℤ → W → Option Err × W
  pub now : W → ℕ

abbrev pub default_max_attempts : ℕ
default_max_attempts = 3

unfoldable pub max_attempts : Option EdgeRetryPolicy → ℕ
max_attempts none = default_max_attempts
max_attempts (some p) = if ltb 0 p.max_attempts then p.max_attempts else default_max_attempts

-- The earlier of the caller's deadline and the policy's timeout, counted from now.
unfoldable pub with_timeout : Option EdgeRetryPolicy → ℕ → Deadline → Deadline
with_timeout none now deadline = deadline
with_timeout (some p) now deadline =
    if ltb 0 p.timeout_ms then earlier deadline (now + p.timeout_ms) else deadline
  where
    earlier : Deadline → ℕ → Deadline
    earlier none t = some t
    earlier (some d) t = if ltb d t then some d else some t

-- Whether the policy lists the error's code.
unfoldable pub blocked : Option EdgeRetryPolicy → Err → Bool
blocked none e = false
blocked (some p) e =
    let code = error_code (some e) in
    if code == [] then false else any (λ b. b == code) p.non_retryable_error_codes

-- Both tests after a failed attempt: it is retryable, and its code is not blocked.
unfoldable pub again : Option EdgeRetryPolicy → Err → Bool
unfolding blocked
again policy e = if should_retry (some e) then not (blocked policy e) else false

edge_msg : Edge → Text → Text → Text → Msg
edge_msg edge from_port edge_to payload = record {
  edge_id = edge.id;
  from = from_port;
  to = edge_to;
  payload = payload;
  depth = 0;
  mode = [];
  run_id = [];
  step_key = [];
  reply_subject = [];
  reply_target = [];
  reply_deadline = 0;
}

-- A durable run stamps the hop, once, before the first attempt.
unfoldable pub stamp : Option Run → Edge → Text → Text → Text → Msg × Option Run
unfolding edge_msg
stamp none edge from_port edge_to payload = (edge_msg edge from_port edge_to payload, none)
stamp (some r) edge from_port edge_to payload =
    let (key, r') = next_step_key r edge.id in
    (
      record (edge_msg edge from_port edge_to payload) {
        run_id = r.run_id;
        step_key = key;
        reply_subject = r.reply_subject;
        reply_target = r.reply_target;
        reply_deadline = r.reply_deadline;
      },
      some r',
    )

-- What the step's ledger record says of a hop that was stored.
abbrev pub emit_of : Msg → EmitRecord
emit_of m = record {
  to = m.to;
  from = m.from;
  edge_id = m.edge_id;
  step_key = m.step_key;
  payload = m.payload;
  reply_subject = m.reply_subject;
  reply_target = m.reply_target;
  reply_deadline = m.reply_deadline;
}

unfoldable pub collect : Msg → Option Run → Option Run
collect msg none = none
collect msg (some r) = some (record_emit r (emit_of msg))

-- The run after a send with this outcome.
unfoldable pub finish {ℓ} : {A : Type ℓ} → Msg → Option Run → Outcome A → Option Run
unfolding collect record_emit
finish msg run (ok res) = collect msg run
finish msg run (fail e) = run

module _ (floats : Floats) {W A : Type 0} (t : Transport W A) where
  -- ctx.Done() came first, or the delay passed
  after_wait : (W → Outcome A × W) → Option Err × W → Outcome A × W
  after_wait next (some stop, w) = (fail stop, w)
  after_wait next (none, w) = next w

  -- `left` attempts remain after the failed one; the flag says whether they may be used.
  after_failure :
      ℕ
      → Option EdgeRetryPolicy
      → Deadline
      → ℕ
      → (W → Outcome A × W)
      → Err
      → W
      → Bool
      → Outcome A × W
  after_failure left policy deadline attempt next e w false = (fail e, w)
  after_failure zero policy deadline attempt next e w true = (fail e, w)
  after_failure (suc left) policy deadline attempt next e w true =
      after_wait next (t.wait deadline (backoff_delay floats policy attempt) w)

  after_handle :
      ℕ
      → Option EdgeRetryPolicy
      → Deadline
      → ℕ
      → (Err → W → Outcome A × W)
      → Outcome A × W
      → Outcome A × W
  after_handle left policy deadline attempt next (ok res, w) = (ok res, w)
  after_handle left policy deadline attempt next (fail e, w) =
      after_failure left policy deadline attempt (next e) e w (again policy e)

  -- `left` attempts remain, the next being number `attempt`. The loop returns (nil, lastErr) after
  -- the last.
  unfoldable pub attempts :
      ℕ → ℕ → Option EdgeRetryPolicy → Deadline → Msg → Option Err → W → Outcome A × W
  unfolding after_wait after_failure after_handle
  attempts zero attempt policy deadline msg last w =
      (elim last [ none ↦ ok none | some e ↦ fail e ], w)
  attempts (suc left) attempt policy deadline msg last w =
      after_handle left policy deadline attempt
        (λ e w'. attempts left (suc attempt) policy deadline msg (some e) w')
        (t.handle deadline msg w)

  unfoldable pub send_to_edge :
      Deadline → Edge → Text → Text → Text → Option Run → W → Outcome A × Option Run × W
  unfolding finish
  send_to_edge deadline edge from_port edge_to payload run w =
      let policy = edge.retry_policy in
      let (msg, run') = stamp run edge from_port edge_to payload in
      let (outcome, w') =
        attempts (max_attempts policy) 1 policy (with_timeout policy (t.now w) deadline) msg none
          w in
      (outcome, finish msg run' outcome, w')
