-- ===== src/Runner/Updates/Delivery.antt =====
-- No updater is stranded.
use module_lib.Prelude.{◌<◌, ◌≡◌, ◌≢◌, ◌⊎◌, true, false, none, [], arith}
use module_lib.Runner.Debouncer.{unset, running, expired, expire, expire_stray}
use module_lib.Runner.Updates.{
  Updates, new_updates, emit_control, emit_reconcile, run_callback, run_flush, drain, patch, Step,
  emits_control, emits_reconcile, expires, expires_stray, calls_back, flushes, drains, patches,
  Reach, here, next,
}

-- A pending update has a timer that runs or a callback that is due; `pending` and
-- `pending_update` agree; and updaters wait only while a function that drains them is pending or
-- taken.
pub record IsLive {X : Type 0} (s : Updates X) : Type 0 where
  pub agrees : s.debouncer.pending ≡ true → s.debouncer.pending_update ≢ none
  pub set : s.debouncer.pending ≡ true → s.debouncer.timer ≢ unset
  pub due : s.debouncer.timer ≡ expired → 0 < s.debouncer.due
  pub drained : s.updaters ≢ [] → s.debouncer.pending ≡ false → 0 < s.taken

module _ {X : Type 0} where
  Step-IsLive : {s t : Updates X} → Step s t → IsLive s → IsLive t
  unfolding emit_control emit_reconcile run_callback run_flush drain patch expire expire_stray
  Step-IsLive emits_control v = ground arith
  Step-IsLive (emits_reconcile x) v = ground arith
  Step-IsLive (expires h) v = ground arith
  Step-IsLive (expires_stray h) v = ground arith
  Step-IsLive (calls_back h) v = ground arith
  Step-IsLive flushes v = ground arith
  Step-IsLive (drains h) v = ground arith
  Step-IsLive (patches i true) v = ground arith
  Step-IsLive (patches i false) v = ground arith

  Reach-IsLive : {s t : Updates X} → Reach s t → IsLive s → IsLive t
  Reach-IsLive here v = v
  Reach-IsLive (next r st) v = Step-IsLive st (Reach-IsLive r v)

  new_updates-IsLive : IsLive (new_updates {X = X})
  unfolding new_updates
  new_updates-IsLive = ground arith

  -- However emits, timers, callbacks, flushes, drains and patches interleave, while updaters wait some
  -- function that will drain them is taken, or is pending with its timer running or its callback
  -- due: no updater is stranded.
  pub updaters_drained :
      {s : Updates X}
      → Reach new_updates s
      → s.updaters ≢ []
      → (0 < s.taken)
        ⊎ ((s.debouncer.pending_update ≢ none)
            × ((s.debouncer.timer ≡ running) ⊎ (0 < s.debouncer.due)))
  updaters_drained {s} r h = waiting s (Reach-IsLive r new_updates-IsLive) h
    where
      waiting :
          (s : Updates X)
          → IsLive s
          → s.updaters ≢ []
          → (0 < s.taken)
            ⊎ ((s.debouncer.pending_update ≢ none)
                × ((s.debouncer.timer ≡ running) ⊎ (0 < s.debouncer.due)))
      waiting s v h = ground arith
