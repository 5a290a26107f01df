-- ===== src/Runner/Debouncer.antt =====
-- `ReconcileDebouncer` of internal/scheduler/runner/debouncer.go, over any type U of update functions.
-- A timer of Go's time.AfterFunc that expires starts its callback in a goroutine of its own, which
-- runs when it gets the lock: Stop no longer reaches it then. So the state keeps, beside the
-- struct's fields, how many callbacks are due and how many running timers the struct has let go.
use module_lib.Prelude.{ℕ, ◌+◌, ◌-◌, Bool, true, false, Option, none, some}

pub data Timer : Type 0 where
  -- d.timer is nil, a running timer, or one whose callback is due
  unset running expired : Timer

pub record Debouncer {ℓ} (U : Type ℓ) : Type ℓ where
  pub timer : Timer
  pub pending_update : Option U
  pub pending : Bool
  pub due : ℕ
  pub stray : ℕ

abbrev started : Timer → Timer
started unset = running
started running = running
started expired = expired

abbrev was_debounced : Timer → Bool → Bool
was_debounced unset pending = false
was_debounced running pending = pending
was_debounced expired pending = pending

-- d.timer = nil forgets a timer that runs.
abbrev let_go : Timer → ℕ → ℕ
let_go unset stray = stray
let_go running stray = stray + 1
let_go expired stray = stray

module _ {ℓ} {U : Type ℓ} where
  unfoldable pub new_debouncer : Debouncer U
  new_debouncer = record {
    timer = unset;
    pending_update = none;
    pending = false;
    due = 0;
    stray = 0;
  }

  -- The result is the Boolean that Debounce returns.
  unfoldable pub debounce : U → Debouncer U → Bool × Debouncer U
  debounce u d = (
    was_debounced d.timer d.pending,
    record d { pending_update = some u; pending = true; timer = started d.timer },
  )

  -- The clock: the struct's timer expires, or one that it has let go.
  unfoldable pub expire : Debouncer U → Debouncer U
  expire d = record d { timer = expired; due = d.due + 1 }

  unfoldable pub expire_stray : Debouncer U → Debouncer U
  expire_stray d = record d { stray = d.stray - 1; due = d.due + 1 }

  -- A callback that is due takes the lock. The result is the function that it then calls.
  unfoldable pub callback : Debouncer U → Option U × Debouncer U
  callback d = (
    d.pending_update,
    record d {
      pending_update = none;
      pending = false;
      timer = unset;
      due = d.due - 1;
      stray = let_go d.timer d.stray;
    },
  )

  -- A running timer is stopped. The result is the function that Flush then calls.
  unfoldable pub flush : Debouncer U → Option U × Debouncer U
  flush d = (d.pending_update, record d { pending_update = none; pending = false; timer = unset })

  unfoldable pub stop : Debouncer U → Debouncer U
  stop d = record d { pending_update = none; pending = false; timer = unset }

  abbrev pub is_pending : Debouncer U → Bool
  is_pending d = d.pending
