-- ===== src/Runner/Fanout/Results.antt =====
-- What an emit returns, from what its sends returned.
use module_lib.Prelude.{
  ◌≡◌, refl, Option, none, some, List, [], ◌∷◌, ◌++◌, Text, append_assoc, append-nil,
}
use mathlib.Core.Path.{ap₂, sym, ◌∙◌}
use module_lib.Errors.{Err}
use module_lib.Node.{Edge}
use module_lib.Run.{Run}
use module_lib.Runner.Backoff.{Floats}
use module_lib.Runner.Send.{Outcome, ok, fail, Deadline, Transport, send_to_edge}
use module_lib.Runner.Fanout.{choose, add_result, add_error, send_all}

module _ {A : Type 0} where
  pub first_value : List (Outcome A) → Option A
  first_value [] = none
  first_value (ok (some v) ∷ os) = some v
  first_value (ok none ∷ os) = first_value os
  first_value (fail e ∷ os) = first_value os

  pub first_error : List (Outcome A) → Option Err
  first_error [] = none
  first_error (ok res ∷ os) = first_error os
  first_error (fail e ∷ os) = some e

  -- The first response that is not nil; if there is none, the first error; if there is none, nil.
  pub summary : List (Outcome A) → Outcome A
  summary os = elim (first_value os) [
    | some v ↦ ok (some v)
    | none ↦ elim (first_error os) [ some e ↦ fail e | none ↦ ok none ]
  ]

  head? : List A → Option A
  head? [] = none
  head? (v ∷ vs) = some v

  values : List (Outcome A) → List A
  values [] = []
  values (ok (some v) ∷ os) = v ∷ values os
  values (ok none ∷ os) = values os
  values (fail e ∷ os) = values os

  errors_of : List (Outcome A) → List Err
  errors_of [] = []
  errors_of (ok res ∷ os) = errors_of os
  errors_of (fail e ∷ os) = e ∷ errors_of os

module _ {A : Type 0} where
  choose-summary : (os : List (Outcome A)) → choose (values os) (errors_of os) ≡ summary os
  unfolding choose values errors_of summary first_value first_error head?
  choose-summary [] = refl
  choose-summary (ok (some v) ∷ os) = refl
  choose-summary (ok none ∷ os) = choose-summary os
  choose-summary (fail e ∷ os) = with_error (values os) (first_value os) (value_head os)
    where
      value_head : (l : List (Outcome A)) → first_value l ≡ head? (values l)
      value_head [] = refl
      value_head (ok (some v) ∷ l) = refl
      value_head (ok none ∷ l) = value_head l
      value_head (fail x ∷ l) = value_head l

      with_error :
          (vs : List A) (o : Option A)
          → o ≡ head? vs
          → choose vs (e ∷ errors_of os) ≡ elim o [ some v ↦ ok (some v) | none ↦ fail e ]
      with_error [] o p = rw p
      with_error (v ∷ vs) o p = rw p

  add_result-values :
      (o : Outcome A) (os : List (Outcome A)) (results : List A)
      → add_result o results ++ values os ≡ results ++ values (o ∷ os)
  unfolding add_result values
  add_result-values (ok (some v)) os results = append_assoc results (v ∷ []) (values os)
  add_result-values (ok none) os results = refl
  add_result-values (fail e) os results = refl

  add_error-errors :
      (o : Outcome A) (os : List (Outcome A)) (errors : List Err)
      → add_error o errors ++ errors_of os ≡ errors ++ errors_of (o ∷ os)
  unfolding add_error errors_of
  add_error-errors (ok res) os errors = refl
  add_error-errors (fail e) os errors = append_assoc errors (e ∷ []) (errors_of os)

module _ (floats : Floats) {W A : Type 0} (t : Transport W A) (d : Deadline)
    (from_port payload : Text) where
  -- The outcomes of the sends, one after the other.
  pub outcomes : List Edge → Option Run → W → List (Outcome A)
  outcomes [] run w = []
  outcomes (e ∷ es) run w =
      let (o, run', w') = send_to_edge floats t d e from_port e.to payload run w in
      o ∷ outcomes es run' w'

  -- The loop with its accumulators, as one choice over all the outcomes.
  send_all-choose :
      (es : List Edge) (results : List A) (errors : List Err) (run : Option Run) (w : W)
      → (send_all floats t d from_port payload es results errors run w).0
        ≡ choose (results ++ values (outcomes es run w)) (errors ++ errors_of (outcomes es run w))
  unfolding send_all outcomes values errors_of
  send_all-choose [] results errors run w =
      ap₂ choose (sym (append-nil results)) (sym (append-nil errors))
  send_all-choose (e ∷ es) results errors run w =
      let (o, run', w') = send_to_edge floats t d e from_port e.to payload run w in
      send_all-choose es (add_result o results) (add_error o errors) run' w'
      ∙ ap₂ choose (add_result-values o (outcomes es run' w') results)
          (add_error-errors o (outcomes es run' w') errors)

  -- An emit that sends over these edges returns the first response that is not nil, also when other
  -- sends fail; with none, the first error; and nil if there is neither.
  pub send_all-summary :
      (es : List Edge) (run : Option Run) (w : W)
      → (send_all floats t d from_port payload es [] [] run w).0 ≡ summary (outcomes es run w)
  send_all-summary es run w = send_all-choose es [] [] run w ∙ choose-summary (outcomes es run w)
