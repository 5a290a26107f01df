-- ===== src/Tests/Updating.antt =====
-- Status updates.
use module_lib.Prelude.{ℕ, ◌<◌, ◌≡◌, refl, ◌≢◌, ◌⊎◌, Bool, true, none, some, [], ◌∷◌, arith, leb}
use module_lib.Runner.Debouncer.{running, expire}
use module_lib.Runner.Updates.{
  Updates, new_updates, emit_reconcile, run_flush, drain, patch, Reach, here, next, emits_reconcile,
  expires, flushes, drains, patches,
}
use module_lib.Runner.Updates.Delivery.{updaters_drained}
use module_lib.Runner.Updates.Kept.{
  handed, number, everywhere, everywhere-handed, InTurn, in_order, applied-handed,
}

-- An updater is handed over and the timer expires; a flush takes the function before the callback,
-- and a second updater comes before the function drains.
abbrev state : Updates ℕ
state = emit_reconcile (some 8) (
    run_flush (record (emit_reconcile (some 7) new_updates) {
      debouncer = expire (emit_reconcile (some 7) (new_updates {X = ℕ})).debouncer;
    }))

path : Reach new_updates state
unfolding emit_reconcile new_updates
path =
    next (next (next (next here (emits_reconcile (some 7))) (expires refl)) flushes)
      (emits_reconcile (some 8))

updaters_drained_example :
    (0 < state.taken)
    ⊎ ((state.debouncer.pending_update ≢ none)
        × ((state.debouncer.timer ≡ running) ⊎ (0 < state.debouncer.due)))
unfolding emit_reconcile run_flush new_updates
updaters_drained_example = updaters_drained path some_wait
  where
    some_wait : state.updaters ≢ []
    some_wait = ground arith

-- The function drains both, a third updater comes, and the function patches.
abbrev drained : Updates ℕ
drained = emit_reconcile (some 9) (drain state)

drained_path : Reach new_updates drained
unfolding emit_reconcile run_flush new_updates expire
drained_path = next (next path (drains (omega arith))) (emits_reconcile (some 9))

abbrev patched : Updates ℕ
patched = patch 0 true drained

patched_path : Reach new_updates patched
patched_path = next drained_path (patches 0 true)

patched_lem : (patched.applied ≡ 7 ∷ 8 ∷ []) × (patched.updaters ≡ 9 ∷ [])
unfolding patch drain emit_reconcile run_flush new_updates
patched_lem = (refl, refl)

abbrev is_seven : ℕ → Bool
is_seven x = leb x 7

everywhere-handed_example : everywhere is_seven patched ≡ number is_seven (handed patched_path)
everywhere-handed_example = everywhere-handed is_seven patched_path

turns : InTurn patched_path
unfolding patched_path drained_path path emit_reconcile run_flush new_updates
turns = (((((((tt, tt), tt), tt), tt), refl), tt), tt)

applied-handed_example : in_order patched ≡ handed patched_path
unfolding patch drain emit_reconcile run_flush new_updates
applied-handed_example = applied-handed patched_path turns refl

-- A second function drains before the first has patched, and patches before it.
abbrev both_drained : Updates ℕ
both_drained = drain (run_flush drained)

overtaken : (patch 0 true (patch 1 true both_drained)).applied ≡ 9 ∷ 7 ∷ 8 ∷ []
unfolding patch drain emit_reconcile run_flush new_updates
overtaken = refl
