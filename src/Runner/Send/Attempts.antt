-- ===== src/Runner/Send/Attempts.antt =====
-- How often a hop is attempted, and why the attempts end.
use module_lib.Prelude.{
  ℕ, zero, suc, ◌+◌, ◌≤◌, ◌<◌, ◌≡◌, refl, Bool, true, false, Option, none, some, arith, Text, ap,
  sym, ◌∙◌, ltb, ◌-◌, if◌then◌else◌,
}
use mathlib.Core.Path.{subst}
use module_lib.Prelude.Int.{ℤ}
use module_lib.Errors.{Err}
use module_lib.Node.{Edge, EdgeRetryPolicy}
use module_lib.Run.{Msg, Run}
use module_lib.Runner.Backoff.{Floats, backoff_delay}
use module_lib.Runner.Send.{
  Outcome, ok, fail, Deadline, Transport, max_attempts, again, after_wait, after_failure,
  after_handle, attempts, send_to_edge,
}

-- A count of the handler's calls that the world keeps: each call adds one, waiting adds none.
pub record IsCount {W A : Type 0} (t : Transport W A) (calls : W → ℕ) : Type 0 where
  pub counted : (d : Deadline) (m : Msg) (w : W) → calls (t.handle d m w).1 ≡ suc (calls w)
  pub kept : (d : Deadline) (x : ℤ) (w : W) → calls (t.wait d x w).1 ≡ calls w

module _ (floats : Floats) {W A : Type 0} (t : Transport W A) (policy : Option EdgeRetryPolicy)
    (d : Deadline) (m : Msg) where
  -- The course of the loop, with the attempts left after the next one, the number of that one, the
  -- world before it and what comes out.
  pub data Course : ℕ → ℕ → W → Outcome A × W → Type 0 where
    succeeded :
        {left attempt : ℕ} {w w' : W} (res : Option A)
        → t.handle d m w ≡ (ok res, w')
        → Course left attempt w (ok res, w')
    refused :
        {left attempt : ℕ} {w w' : W} (e : Err)
        → t.handle d m w ≡ (fail e, w')
        → again policy e ≡ false
        → Course left attempt w (fail e, w')
    exhausted :
        {attempt : ℕ} {w w' : W} (e : Err)
        → t.handle d m w ≡ (fail e, w')
        → again policy e ≡ true
        → Course 0 attempt w (fail e, w')
    cancelled :
        {left attempt : ℕ} {w w' w'' : W} (e stop : Err)
        → t.handle d m w ≡ (fail e, w')
        → again policy e ≡ true
        → t.wait d (backoff_delay floats policy attempt) w' ≡ (some stop, w'')
        → Course (suc left) attempt w (fail stop, w'')
    repeated :
        {left attempt : ℕ} {w w' w'' : W} {x : Outcome A × W} (e : Err)
        → t.handle d m w ≡ (fail e, w')
        → again policy e ≡ true
        → t.wait d (backoff_delay floats policy attempt) w' ≡ (none, w'')
        → Course left (suc attempt) w'' x
        → Course (suc left) attempt w x

  Course-wait :
      (left attempt : ℕ) (next : W → Outcome A × W) (w w' : W) (e : Err)
      → t.handle d m w ≡ (fail e, w')
      → again policy e ≡ true
      → ((v : W) → Course left (suc attempt) v (next v))
      → (x : Option Err × W) → t.wait d (backoff_delay floats policy attempt) w' ≡ x
      → Course (suc left) attempt w (after_wait floats t next x)
  unfolding attempts
  Course-wait left attempt next w w' e h a more (some stop, w'') s = cancelled e stop h a s
  Course-wait left attempt next w w' e h a more (none, w'') s = repeated e h a s (more w'')

  Course-failure :
      (left attempt : ℕ) (next : W → Outcome A × W) (w w' : W) (e : Err)
      → t.handle d m w ≡ (fail e, w')
      → ((k : ℕ) → left ≡ suc k → (v : W) → Course k (suc attempt) v (next v))
      → (b : Bool) → again policy e ≡ b
      → Course left attempt w (after_failure floats t left policy d attempt next e w' b)
  unfolding attempts
  Course-failure left attempt next w w' e h more false a = refused e h a
  Course-failure zero attempt next w w' e h more true a = exhausted e h a
  Course-failure (suc left) attempt next w w' e h more true a =
      Course-wait left attempt next w w' e h a (more left refl) _ refl

  Course-handle :
      (left attempt : ℕ) (next : Err → W → Outcome A × W) (w : W)
      → ((k : ℕ) → left ≡ suc k → (e : Err) (v : W) → Course k (suc attempt) v (next e v))
      → (x : Outcome A × W) → t.handle d m w ≡ x
      → Course left attempt w (after_handle floats t left policy d attempt next x)
  unfolding attempts
  Course-handle left attempt next w more (ok res, w') h = succeeded res h
  Course-handle left attempt next w more (fail e, w') h =
      Course-failure left attempt (next e) w w' e h (λ k p. more k p e) (again policy e) refl

  -- Whatever the transport does, the retry loop with at least one attempt left takes one of five
  -- ways: the handler succeeds and its response is the outcome; its failure is not to be retried, or
  -- was of the last attempt, and is the outcome; the wait is cut off and the context's error is
  -- the outcome; or, after the backoff of this attempt, the loop goes on with one attempt less.
  pub attempts-Course :
      (left attempt : ℕ) (last : Option Err) (w : W)
      → Course left attempt w (attempts floats t (suc left) attempt policy d m last w)
  unfolding attempts
  attempts-Course zero attempt last w =
      Course-handle zero attempt (λ e v. attempts floats t zero (suc attempt) policy d m (some e) v)
        w (λ k p. absurd (omega arith)) (t.handle d m w) refl
  attempts-Course (suc left) attempt last w =
      Course-handle (suc left) attempt
        (λ e v. attempts floats t (suc left) (suc attempt) policy d m (some e) v) w
        (λ k p e v.
          let q : left ≡ k = omega arith in
          subst
            (λ n.
              Course n (suc attempt) v
                (attempts floats t (suc left) (suc attempt) policy d m (some e) v))
            q (attempts-Course left (suc attempt) (some e) v))
        (t.handle d m w) refl

module _ (floats : Floats) {W A : Type 0} (t : Transport W A) (calls : W → ℕ) (c : IsCount t calls)
    (policy : Option EdgeRetryPolicy) (d : Deadline) (m : Msg) where
  calls-handle : {w w' : W} (o : Outcome A) → t.handle d m w ≡ (o, w') → calls w' ≡ suc (calls w)
  calls-handle {w} o h = sym (ap (λ (x : Outcome A × W). calls x.1) h) ∙ c.counted d m w

  calls-wait : {w w' : W} (x : ℤ) (o : Option Err) → t.wait d x w ≡ (o, w') → calls w' ≡ calls w
  calls-wait {w} x o h = sym (ap (λ (y : Option Err × W). calls y.1) h) ∙ c.kept d x w

  Course-calls :
      {left attempt : ℕ} {w : W} {x : Outcome A × W}
      → Course floats t policy d m left attempt w x
      → (calls w < calls x.1) × (calls x.1 ≤ calls w + suc left)
  Course-calls (succeeded res h) = omega (arith, calls-handle (ok res) h)
  Course-calls (refused e h a) = omega (arith, calls-handle (fail e) h)
  Course-calls (exhausted e h a) = omega (arith, calls-handle (fail e) h)
  Course-calls (cancelled e stop h a s) =
      omega (arith, calls-handle (fail e) h, calls-wait _ (some stop) s)
  Course-calls (repeated e h a s r) =
      omega (arith, calls-handle (fail e) h, calls-wait _ none s, Course-calls r)

pub max_attempts-pos : (p : Option EdgeRetryPolicy) → (k : ℕ) × (max_attempts p ≡ suc k)
unfolding max_attempts
max_attempts-pos none = (2, refl)
max_attempts-pos (some p) = ((if ltb 0 p.max_attempts then p.max_attempts - 1 else 2), ground arith)

-- A send calls the handler at least once and at most `max_attempts` times, for any count of its
-- calls that the world keeps.
pub send_to_edge-calls :
    (floats : Floats) {W A : Type 0} (t : Transport W A) (calls : W → ℕ)
    → IsCount t calls
    → (d : Deadline) (edge : Edge) (from_port edge_to payload : Text) (run : Option Run) (w : W)
    → let w' = (send_to_edge floats t d edge from_port edge_to payload run w).2 in
      (calls w < calls w') × (calls w' ≤ calls w + max_attempts edge.retry_policy)
unfolding send_to_edge
send_to_edge-calls floats t calls c d edge from_port edge_to payload run w =
    let (k, e) = max_attempts-pos edge.retry_policy in
    rw e (
      Course-calls floats t calls c edge.retry_policy _ _
        (attempts-Course floats t edge.retry_policy _ _ k 1 none w))
