-- ===== src/Runner/Updates.antt =====
-- The status updates of a runner: the branches of `DataHandler` for the ports _control and _reconcile,
-- in internal/scheduler/runner/runner.go, over the debouncer. X is the type of node updaters. Every
-- debounced function drains the updaters under their lock and then patches the node with them; it runs
-- after the lock of the debouncer is released, and others may come between its two parts.
pub mod Delivery
pub mod Kept
use module_lib.Prelude.{
  ℕ, zero, suc, ◌+◌, ◌-◌, ◌<◌, ◌≡◌, Bool, true, false, Option, none, some, List, [], ◌∷◌, ◌++◌,
  if◌then◌else◌,
}
use module_lib.Runner.Debouncer.{
  Debouncer, running, new_debouncer, debounce, expire, expire_stray, callback, flush, stop,
}

pub data Kind : Type 0 where
  control reconcile : Kind

pub record Updates (X : Type 0) : Type 0 where
  pub debouncer : Debouncer Kind
  -- pendingNodeUpdaters
  pub updaters : List X
  -- debounced functions that were taken and have not drained yet
  pub taken : ℕ
  -- what the functions that have drained are about to patch the node with
  pub draining : List (List X)
  -- updaters applied by a PatchNode that succeeded, and those drained by one that failed
  pub applied : List X
  pub lost : List X

abbrev pub take_fn : Option Kind → ℕ → ℕ
take_fn none n = n
take_fn (some k) n = n + 1

module _ {X : Type 0} where
  unfoldable pub new_updates : Updates X
  unfolding new_debouncer
  new_updates = record {
    debouncer = new_debouncer;
    updaters = [];
    taken = 0;
    draining = [];
    applied = [];
    lost = [];
  }

  -- DataHandler at _control
  unfoldable pub emit_control : Updates X → Updates X
  unfolding debounce
  emit_control s = record s { debouncer = (debounce control s.debouncer).1 }

  abbrev pub with_updater : Option X → List X → List X
  with_updater none xs = xs
  with_updater (some x) xs = xs ++ (x ∷ [])

  -- DataHandler at _reconcile, with or without an updater as its data
  unfoldable pub emit_reconcile : Option X → Updates X → Updates X
  unfolding debounce
  emit_reconcile x s = record s {
    updaters = with_updater x s.updaters;
    debouncer = (debounce reconcile s.debouncer).1;
  }

  -- The timer's callback, and Flush: both take the pending function.
  unfoldable pub run_callback : Updates X → Updates X
  unfolding callback
  run_callback s =
      let (fn, d) = callback s.debouncer in record s { debouncer = d; taken = take_fn fn s.taken }

  unfoldable pub run_flush : Updates X → Updates X
  unfolding flush
  run_flush s =
      let (fn, d) = flush s.debouncer in record s { debouncer = d; taken = take_fn fn s.taken }

  -- A function that was taken drains the updaters.
  unfoldable pub drain : Updates X → Updates X
  drain s = record s {
    updaters = [];
    taken = s.taken - 1;
    draining = s.draining ++ (s.updaters ∷ []);
  }

  unfoldable pub batch_at : ℕ → List (List X) → List X
  batch_at i [] = []
  batch_at zero (b ∷ bs) = b
  batch_at (suc i) (b ∷ bs) = batch_at i bs

  unfoldable pub other_batches : ℕ → List (List X) → List (List X)
  other_batches i [] = []
  other_batches zero (b ∷ bs) = bs
  other_batches (suc i) (b ∷ bs) = b ∷ other_batches i bs

  -- One of those that have drained calls PatchNode with what it drained, which succeeds or not.
  unfoldable pub patch : ℕ → Bool → Updates X → Updates X
  unfolding batch_at other_batches
  patch i true s = record s {
    draining = other_batches i s.draining;
    applied = s.applied ++ batch_at i s.draining;
  }
  patch i false s = record s {
    draining = other_batches i s.draining;
    lost = s.lost ++ batch_at i s.draining;
  }

  -- What can happen, in any order.
  pub data Step (s : Updates X) : Updates X → Type 0 where
    emits_control : Step s (emit_control s)
    emits_reconcile : (x : Option X) → Step s (emit_reconcile x s)
    expires : s.debouncer.timer ≡ running → Step s (record s { debouncer = expire s.debouncer })
    expires_stray :
        0 < s.debouncer.stray → Step s (record s { debouncer = expire_stray s.debouncer })
    calls_back : 0 < s.debouncer.due → Step s (run_callback s)
    flushes : Step s (run_flush s)
    drains : 0 < s.taken → Step s (drain s)
    patches : (i : ℕ) (b : Bool) → Step s (patch i b s)

  pub data Reach (s : Updates X) : Updates X → Type 0 where
    here : Reach s s
    next : {t u : Updates X} → Reach s t → Step t u → Reach s u
