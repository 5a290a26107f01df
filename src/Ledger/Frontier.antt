-- ===== src/Ledger/Frontier.antt =====
-- Which hops of a run are outstanding.
use module_lib.Prelude.{
  ◌≡◌, ◌↔◌, ◌⊎◌, inl, inr, false, List, [], ◌∷◌, ◌++◌, In, Bool-cases, ap, sym, ◌∙◌,
}
use mathlib.Core.Bool.{false≢true}
use module_lib.Dict
use module_lib.Dict.{Dict}
use module_lib.Run.{EmitRecord, StepRecord}
use module_lib.Ledger.{RunLedger, unseen, frontier_from, frontier_of}

In-append : {A : Type 0} (a : A) (xs ys : List A) → In a (xs ++ ys) ↔ (In a xs ⊎ In a ys)
In-append a [] ys = ((λ h. inr h), (λ h. elim h [ inl x ↦ absurd x | inr y ↦ y ]))
In-append a (x ∷ xs) ys = (
  (λ h. elim h [
    | inl e ↦ inl (inl e)
    | inr t ↦ elim ((In-append a xs ys).0 t) [ inl l ↦ inl (inr l) | inr r ↦ inr r ]
  ]),
  (λ h. elim h [
    | inl l ↦ elim l [ inl e ↦ inl e | inr t ↦ inr ((In-append a xs ys).1 (inl t)) ]
    | inr r ↦ inr ((In-append a xs ys).1 (inr r))
  ]),
)

In-unseen :
    (records : Dict StepRecord) (es : List EmitRecord) (e : EmitRecord)
    → In e (unseen records es) ↔ (In e es × (Dict.has records e.step_key ≡ false))
unfolding unseen
In-unseen records [] e = ((λ h. absurd h), (λ h. absurd h.0))
In-unseen records (x ∷ es) e = elim (Bool-cases (Dict.has records x.step_key)) [
  | inl old ↦ rw old (
    (λ h. let (i, n) = (In-unseen records es e).0 h in (inr i, n)),
    (λ (i, n). elim i [
      | inl q ↦
          absurd (false≢true (sym n ∙ ap (λ (r : EmitRecord). Dict.has records r.step_key) q ∙ old))
      | inr t ↦ (In-unseen records es e).1 (t, n)
    ]),
  )
  | inr new ↦ rw new (
    (λ h. elim h [
      | inl q ↦ (inl q, ap (λ (r : EmitRecord). Dict.has records r.step_key) q ∙ new)
      | inr t ↦ let (i, n) = (In-unseen records es e).0 t in (inr i, n)
    ]),
    (λ (i, n). elim i [ inl q ↦ inl q | inr t ↦ inr ((In-unseen records es e).1 (t, n)) ]),
  )
]

-- The hop was emitted by a step that has a record in this list.
abbrev pub EmittedBy : Dict StepRecord → EmitRecord → Type 0
EmittedBy [] e = ⊥
EmittedBy ((k, rec) ∷ more) e = In e rec.emits ⊎ EmittedBy more e

In-frontier_from :
    (records more : Dict StepRecord) (e : EmitRecord)
    → In e (frontier_from records more) ↔ (EmittedBy more e × (Dict.has records e.step_key ≡ false))
unfolding frontier_from
In-frontier_from records [] e = ((λ h. absurd h), (λ h. absurd h.0))
In-frontier_from records ((k, rec) ∷ more) e = (
  (λ h. elim ((In-append e (unseen records rec.emits) (frontier_from records more)).0 h) [
    | inl l ↦ let (i, n) = (In-unseen records rec.emits e).0 l in (inl i, n)
    | inr r ↦ let (i, n) = (In-frontier_from records more e).0 r in (inr i, n)
  ]),
  (λ (i, n). (In-append e (unseen records rec.emits) (frontier_from records more)).1 (elim i [
    | inl l ↦ inl ((In-unseen records rec.emits e).1 (l, n))
    | inr r ↦ inr ((In-frontier_from records more e).1 (r, n))
  ])),
)

-- The frontier of a run holds exactly the hops that some recorded step emitted and that have no
-- record of their own, failed records counting as records.
pub frontier_of_exact :
    (l : RunLedger) (e : EmitRecord)
    → In e (frontier_of l) ↔ (EmittedBy l.records e × (Dict.has l.records e.step_key ≡ false))
unfolding frontier_of
frontier_of_exact l e = In-frontier_from l.records l.records e
