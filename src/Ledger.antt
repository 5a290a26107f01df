-- ===== src/Ledger.antt =====
-- The run reconciler: internal/scheduler/reconciler.go. The execution-scope KV bucket, the publishing of a
-- message, the clock and the JSON codec of step records are an interface over a world W.
pub mod Numbers
pub mod Keys
pub mod Frontier
pub mod Counters
pub mod Redrive
pub mod Reading
use Prim.Native.Nat.{◌^◌}
use module_lib.Prelude.{
  ℕ, zero, suc, ◌+◌, ◌-◌, ◌*◌, Bool, true, false, Option, none, some, List, [], ◌∷◌, ◌++◌, Text,
  codes, ◌==◌, ltb, leb, if◌then◌else◌,
}
use module_lib.Prelude.Int.{ℤ, pos}
use module_lib.Dict
use module_lib.Dict.{Dict}
use module_lib.Names.{split}
use module_lib.Run.{Msg, EmitRecord, StepRecord, StepStatus, failed}
use Numbers.{atoi, itoa, next_ℤ, leb_ℤ}
use Keys.{KeyKind, step_entry, redrive_entry, other_entry, classify, redrive_key, step_key}

pub data KeysResult : Type 0 where
  listed : List Text → KeysResult
  no_keys : KeysResult
  keys_failed : KeysResult

pub record Cluster (W : Type 0) : Type 0 where
  pub keys : W → KeysResult
  -- none for any error
  pub get : Text → W → Option Text
  -- whether it succeeded
  pub put : Text → Text → W → Bool × W
  pub delete : Text → W → W
  pub publish : Msg → W → Bool × W
  pub now : W → ℕ
  pub decode : Text → Option StepRecord
  pub encode : StepRecord → Option Text

-- The schedule's fields; zero durations stand for the defaults. Milliseconds.
pub record Settings : Type 0 where
  pub stale_after : ℕ
  pub gc_after : ℕ

abbrev default_stale_after : ℕ
default_stale_after = 6 * 60000

abbrev default_gc_after : ℕ
default_gc_after = 24 * 3600000

abbrev pub max_redrives : ℤ
max_redrives = pos 3

pub record RunLedger : Type 0 where
  pub records : Dict StepRecord
  pub raw_keys : List Text
  pub latest : ℕ

abbrev no_ledger : RunLedger
no_ledger = record { records = []; raw_keys = []; latest = 0 }

abbrev pub ledger_of : Dict RunLedger → Text → RunLedger
ledger_of runs run = elim (Dict.get runs run) [ none ↦ no_ledger | some l ↦ l ]

add_key : Text → RunLedger → RunLedger
add_key k l = record l { raw_keys = l.raw_keys ++ (k ∷ []) }

add_record : Text → Text → StepRecord → RunLedger → RunLedger
add_record k step rec l = record {
  records = Dict.put l.records step rec;
  raw_keys = l.raw_keys ++ (k ∷ []);
  latest = if ltb l.latest rec.completed_at then rec.completed_at else l.latest;
}

-- The hops of a step that have no record of their own.
unfoldable pub unseen : Dict StepRecord → List EmitRecord → List EmitRecord
unseen records [] = []
unseen records (e ∷ es) =
    let rest = unseen records es in if Dict.has records e.step_key then rest else e ∷ rest

frontier_from : Dict StepRecord → Dict StepRecord → List EmitRecord
frontier_from records [] = []
frontier_from records ((k, rec) ∷ more) = unseen records rec.emits ++ frontier_from records more

unfoldable pub frontier_of : RunLedger → List EmitRecord
unfolding frontier_from unseen
frontier_of l = frontier_from l.records l.records

-- The loop of readLedger, for one key.
unfoldable pub read_entry : KeyKind → Text → Option StepRecord → Dict RunLedger → Dict RunLedger
unfolding add_key add_record
read_entry (redrive_entry run) k value runs = Dict.put runs run (add_key k (ledger_of runs run))
read_entry (step_entry run step) k none runs = runs
read_entry (step_entry run step) k (some rec) runs =
    Dict.put runs run (add_record k step rec (ledger_of runs run))
read_entry other_entry k value runs = runs

abbrev pub limit_error : ℤ → Text
limit_error attempts =
    codes "re-drive limit reached after "
    ++ itoa attempts
    ++ codes " attempts "
    ++ (0xe2
        ∷ 0x80
        ∷ 0x94
        ∷ codes
            " hop never completed (is the target module on an SDK >= v0.11 with durable support?)")

abbrev pub hop_msg : Text → EmitRecord → Msg
hop_msg run hop = record {
  edge_id = hop.edge_id;
  from = hop.from;
  to = hop.to;
  payload = hop.payload;
  depth = 0;
  mode = [];
  run_id = run;
  step_key = hop.step_key;
  reply_subject = hop.reply_subject;
  reply_target = hop.reply_target;
  reply_deadline = hop.reply_deadline;
}

module _ {W : Type 0} (c : Cluster W) where
  -- The record that a key holds, where it can be read and decoded.
  unfoldable pub stored : Text → W → Option StepRecord
  stored k w = elim (c.get k w) [ none ↦ none | some value ↦ c.decode value ]

  unfoldable pub read_keys : List Text → W → Dict RunLedger → Dict RunLedger
  unfolding read_entry stored
  read_keys [] w runs = runs
  read_keys (k ∷ ks) w runs = read_keys ks w (read_entry (classify k) k (stored k w) runs)

  unfoldable pub read_ledger : W → Option (Dict RunLedger)
  unfolding read_keys
  read_ledger w = elim (c.keys w) [
    | listed ks ↦ some (read_keys ks w [])
    | no_keys ↦ some []
    | keys_failed ↦ none
  ]

  unfoldable pub redrive_attempts : Text → Text → W → ℤ
  redrive_attempts run step w = elim (c.get (redrive_key run step) w) [
    | none ↦ pos 0
    | some value ↦ elim (atoi value) [ none ↦ pos 0 | some n ↦ n ]
  ]

  unfoldable pub record_redrive : Text → Text → ℤ → W → W
  record_redrive run step attempts w = (c.put (redrive_key run step) (itoa attempts) w).1

  abbrev pub failed_record : EmitRecord → ℤ → W → StepRecord
  failed_record hop attempts w = record {
    node = hop.to;
    status = failed;
    error = limit_error attempts;
    emits = [];
    started_at = 0;
    completed_at = c.now w;
    duration_ms = 0;
  }

  unfoldable pub fail_step : Text → EmitRecord → ℤ → W → W
  fail_step run hop attempts w = elim (c.encode (failed_record hop attempts w)) [
    | none ↦ w
    | some bytes ↦ (c.put (step_key run hop.step_key) bytes w).1
  ]

  after_publish : Text → EmitRecord → ℤ → Bool × W → Bool × W
  after_publish run hop attempts (true, w) =
      (true, record_redrive run hop.step_key (next_ℤ attempts) w)
  after_publish run hop attempts (false, w) = (false, w)

  redrive_at : Text → EmitRecord → ℤ → W → Bool × W
  redrive_at run hop attempts w =
      if leb_ℤ max_redrives attempts
      then (false, fail_step run hop attempts w)
      else after_publish run hop attempts (c.publish (hop_msg run hop) w)

  -- One hop of a stale run's frontier: the flag says that it was published again.
  unfoldable pub redrive_hop : Text → EmitRecord → W → Bool × W
  unfolding redrive_at after_publish
  redrive_hop run hop w = redrive_at run hop (redrive_attempts run hop.step_key w) w

  unfoldable pub redrive_hops : Text → List EmitRecord → W → List EmitRecord × W
  unfolding redrive_hop
  redrive_hops run [] w = ([], w)
  redrive_hops run (hop ∷ hops) w =
      let (again, w') = redrive_hop run hop w in
      let (more, w'') = redrive_hops run hops w' in ((if again then hop ∷ more else more), w'')

  delete_keys : List Text → W → W
  delete_keys [] w = w
  delete_keys (k ∷ ks) w = delete_keys ks (c.delete k w)

  -- The loop's body for one run.
  unfoldable pub reconcile_run : Settings → Text → RunLedger → W → List EmitRecord × W
  unfolding redrive_hops delete_keys
  reconcile_run settings run l w = elim (frontier_of l) [
    | [] ↦
        let collected = delete_keys l.raw_keys w in
        (
          [],
          if ltb (or_default settings.gc_after default_gc_after) (c.now w - l.latest)
              then collected
              else w,
        )
    | hop ∷ hops ↦
        let redriven = redrive_hops run (hop ∷ hops) w in
        if ltb (c.now w - l.latest) (or_default settings.stale_after default_stale_after)
        then ([], w)
        else redriven
  ]
    where
      or_default : ℕ → ℕ → ℕ
      or_default zero d = d
      or_default (suc n) d = suc n

  reconcile_each : Settings → Dict RunLedger → W → List EmitRecord × W
  reconcile_each settings [] w = ([], w)
  reconcile_each settings ((run, l) ∷ runs) w =
      let (hops, w') = reconcile_run settings run l w in
      let (more, w'') = reconcile_each settings runs w' in (hops ++ more, w'')

  -- One pass: the hops that were published again, or none where the keys cannot be read.
  unfoldable pub reconcile_runs : Settings → W → Option (List EmitRecord) × W
  unfolding read_ledger reconcile_run reconcile_each
  reconcile_runs settings w = elim (read_ledger w) [
    | none ↦ (none, w)
    | some runs ↦ let (hops, w') = reconcile_each settings runs w in (some hops, w')
  ]

  -- A tick of StartRunReconciler, on a pod that leads or not.
  unfoldable pub tick : Settings → Bool → W → W
  unfolding reconcile_runs
  tick settings leads w = let done = (reconcile_runs settings w).1 in if leads then done else w
