-- ===== src/Ledger/Keys.antt =====
-- The keys of the execution bucket: exec/<run>/step/<step> and exec/<run>/redrive/<step>.
use module_lib.Prelude.{
  ℕ, zero, suc, ◌≡◌, refl, true, List, [], ◌∷◌, ◌++◌, arith, Text, codes, ◌==◌, eq_iff, eqb,
  if◌then◌else◌,
}
use mathlib.Core.Path.{ap, ap₂, sym, ◌∙◌}
use module_lib.Prelude.{Bool-cases, eqb_iff, inl, inr}
use module_lib.Names.Address.{free}

cons_head : ℕ → List Text → List Text
cons_head c [] = (c ∷ []) ∷ []
cons_head c (p ∷ ps) = (c ∷ p) ∷ ps

-- strings.SplitN(s, "/", n + 1): at most n cuts
unfoldable pub split_n : ℕ → Text → List Text
unfolding cons_head
split_n n [] = [] ∷ []
split_n zero (c ∷ s) = (c ∷ s) ∷ []
split_n (suc n) (c ∷ s) =
    let rest = split_n n s in
    let same = split_n (suc n) s in if eqb c b'/' then [] ∷ rest else cons_head c same

pub data KeyKind : Type 0 where
  step_entry : Text → Text → KeyKind
  redrive_entry : Text → KeyKind
  other_entry : KeyKind

kind_of : List Text → KeyKind
kind_of (scope ∷ run ∷ kind ∷ step ∷ []) =
    if scope == codes "exec"
    then (if kind == codes "redrive"
        then redrive_entry run
        else if kind == codes "step"
        then step_entry run step
        else other_entry)
    else other_entry
kind_of _ = other_entry

unfoldable pub classify : Text → KeyKind
unfolding split_n kind_of
classify k = kind_of (split_n 3 k)

unfoldable pub step_key : Text → Text → Text
step_key run step = codes "exec/" ++ (run ++ (codes "/step/" ++ step))

unfoldable pub redrive_key : Text → Text → Text
redrive_key run step = codes "exec/" ++ (run ++ (codes "/redrive/" ++ step))

split_n-free :
    (n : ℕ) (p s : Text) → free b'/' p ≡ true → split_n (suc n) (p ++ (b'/' ∷ s)) ≡ p ∷ split_n n s
unfolding split_n
split_n-free n [] s h = refl
split_n-free n (c ∷ p) s h = ground (arith, split_n-free n p s)

split_n-zero : (s : Text) → split_n 0 s ≡ s ∷ []
unfolding split_n
split_n-zero [] = refl
split_n-zero (c ∷ s) = refl

-- The key that the runner writes for a step is read as that step of that run, also where the
-- step's key has slashes; the run's identifier has none.
pub classify-step_key :
    (run step : Text) → free b'/' run ≡ true → classify (step_key run step) ≡ step_entry run step
unfolding classify step_key split_n ◌==◌
classify-step_key run step h =
    rw (split_n-free 1 run (codes "step/" ++ step) h) (rw (split_n-zero step))

join : List Text → Text
join [] = []
join (p ∷ []) = p
join (p ∷ q ∷ ps) = p ++ (b'/' ∷ join (q ∷ ps))

join-cons_head : (c : ℕ) (ps : List Text) → join (cons_head c ps) ≡ c ∷ join ps
unfolding join cons_head
join-cons_head c [] = refl
join-cons_head c (p ∷ []) = refl
join-cons_head c (p ∷ q ∷ ps) = refl

join-nil_cons_head :
    (c : ℕ) (ps : List Text) → join ([] ∷ cons_head c ps) ≡ b'/' ∷ join (cons_head c ps)
unfolding join cons_head
join-nil_cons_head c [] = refl
join-nil_cons_head c (p ∷ ps) = refl

join-nil_split_n : (n : ℕ) (s : Text) → join ([] ∷ split_n n s) ≡ b'/' ∷ join (split_n n s)
unfolding join split_n
join-nil_split_n n [] = refl
join-nil_split_n zero (c ∷ s) = refl
join-nil_split_n (suc n) (c ∷ s) = elim (Bool-cases (eqb c b'/')) [
  | inl e ↦ rw e refl
  | inr e ↦ rw e (join-nil_cons_head c (split_n (suc n) s))
]

join-split_n : (n : ℕ) (s : Text) → join (split_n n s) ≡ s
unfolding split_n
join-split_n n [] = unfold join in refl
join-split_n zero (c ∷ s) = unfold join in refl
join-split_n (suc n) (c ∷ s) = elim (Bool-cases (eqb c b'/')) [
  | inl e ↦ rw e (join-nil_split_n n s ∙ ap₂ ◌∷◌ (sym ((eqb_iff c b'/').0 e)) (join-split_n n s))
  | inr e ↦ rw e (join-cons_head c (split_n (suc n) s) ∙ ap (λ r. c ∷ r) (join-split_n (suc n) s))
]

kind_of-step :
    (ps : List Text) (run step : Text)
    → kind_of ps ≡ step_entry run step
    → ps ≡ codes "exec" ∷ run ∷ codes "step" ∷ step ∷ []
unfolding kind_of
kind_of-step [] run step h = cc
kind_of-step (a ∷ []) run step h = cc
kind_of-step (a ∷ b ∷ []) run step h = cc
kind_of-step (a ∷ b ∷ c ∷ []) run step h = cc
kind_of-step (a ∷ b ∷ c ∷ d ∷ []) run step h =
    ground (arith, eq_iff a (codes "exec"), eq_iff c (codes "redrive"), eq_iff c (codes "step"))
kind_of-step (a ∷ b ∷ c ∷ d ∷ e ∷ ps) run step h = cc

-- A key that is read as a step of a run is the key of that step.
pub classify_step_entry :
    (k run step : Text) → classify k ≡ step_entry run step → k ≡ step_key run step
unfolding classify
classify_step_entry k run step h =
    sym (join-split_n 3 k)
    ∙ ap join (kind_of-step (split_n 3 k) run step h)
    ∙ unfold join step_key in refl
