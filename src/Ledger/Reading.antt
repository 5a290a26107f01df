-- ===== src/Ledger/Reading.antt =====
-- What a pass reads of the bucket.
use module_lib.Prelude.{
  ◌≡◌, refl, ◌∙◌, true, ◌&&◌, Option, none, some, List, [], ◌∷◌, arith, Text, ◌==◌, eq_iff, any,
  if◌then◌else◌,
}
use module_lib.Dict
use module_lib.Dict.{Dict, get-put, get-put_self}
use module_lib.Names.Address.{free}
use module_lib.Run.{StepRecord}
use module_lib.Ledger.{
  Cluster, RunLedger, ledger_of, add_key, add_record, read_entry, stored, read_keys,
}
use module_lib.Ledger.Keys.{
  KeyKind, step_entry, redrive_entry, other_entry, classify, step_key, classify-step_key,
  classify_step_entry,
}

-- The record of a run's step in what was read so far.
abbrev pub record_at : Dict RunLedger → Text → Text → Option StepRecord
record_at runs run step = Dict.get (ledger_of runs run).records step

record_at-nil : (run step : Text) → record_at [] run step ≡ none
unfolding Dict.get
record_at-nil run step = refl

abbrev pub or_else : Option StepRecord → Option StepRecord → Option StepRecord
or_else none o = o
or_else (some r) o = some r

record_at-put :
    (runs : Dict RunLedger) (r run step : Text) (l : RunLedger)
    → record_at (Dict.put runs r l) run step
      ≡ (if r == run then Dict.get l.records step else record_at runs run step)
record_at-put runs r run step l = ground (arith, get-put runs r run l)

-- One key changes the record of the step that it names, and of no other.
record_at-read_step :
    (k r s run step : Text) (value : Option StepRecord) (runs : Dict RunLedger)
    → record_at (read_entry (step_entry r s) k value runs) run step ≡ (
        if r == run && s == step
        then or_else value (record_at runs run step)
        else record_at runs run step)
unfolding read_entry add_record
record_at-read_step k r s run step none runs = ground arith
record_at-read_step k r s run step (some rec) runs =
    record_at-put runs r run step (add_record k s rec (ledger_of runs r))
    ∙ ground (arith, eq_iff r run, get-put (ledger_of runs r).records s step rec)

module _ {W : Type 0} (c : Cluster W) (w : W) where
  record_at-read_entry :
      (kind : KeyKind) (k run step : Text) (runs : Dict RunLedger)
      → classify k ≡ kind
      → free b'/' run ≡ true
      → record_at (read_entry kind k (stored c k w) runs) run step ≡ (
          if k == step_key run step
          then or_else (stored c (step_key run step) w) (record_at runs run step)
          else record_at runs run step)
  unfolding read_entry add_key
  record_at-read_entry (step_entry r s) k run step runs e h =
      record_at-read_step k r s run step (stored c k w) runs
      ∙ ground (
        arith,
        eq_iff r run,
        eq_iff s step,
        eq_iff k (step_key run step),
        classify_step_entry k r s e,
        classify-step_key run step h,
      )
  record_at-read_entry (redrive_entry r) k run step runs e h =
      record_at-put runs r run step (add_key k (ledger_of runs r))
      ∙ ground (arith, eq_iff r run, eq_iff k (step_key run step), classify-step_key run step h)
  record_at-read_entry other_entry k run step runs e h =
      ground (arith, eq_iff k (step_key run step), classify-step_key run step h)

  record_at-read_keys :
      (ks : List Text) (run step : Text) (runs : Dict RunLedger)
      → free b'/' run ≡ true
      → record_at (read_keys c ks w runs) run step ≡ (
          if any (λ k. k == step_key run step) ks
          then or_else (stored c (step_key run step) w) (record_at runs run step)
          else record_at runs run step)
  unfolding read_keys
  record_at-read_keys [] run step runs h = refl
  record_at-read_keys (k ∷ ks) run step runs h =
      record_at-read_keys ks run step _ h
      ∙ ground (arith, record_at-read_entry (classify k) k run step runs refl h)

  -- A pass reads, for each step of a run whose identifier has no slash, exactly the record that the bucket holds under the key
  -- exec/<run>/step/<step>, if that key is listed and its value can be read and decoded. Keys of
  -- other runs, of other steps, of the re-drive counters and of other shapes do not matter.
  pub read_keys_exact :
      (ks : List Text) (run step : Text)
      → free b'/' run ≡ true
      → record_at (read_keys c ks w []) run step
        ≡ (if any (λ k. k == step_key run step) ks then stored c (step_key run step) w else none)
  read_keys_exact ks run step h = record_at-read_keys ks run step [] h ∙ last
    where
      last :
          (if any (λ k. k == step_key run step) ks
            then or_else (stored c (step_key run step) w) (record_at [] run step)
            else record_at [] run step)
          ≡ (if any (λ k. k == step_key run step) ks then stored c (step_key run step) w else none)
      last = ground (arith, record_at-nil run step)
