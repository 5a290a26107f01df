-- ===== src/Runner/Updates/Kept.antt =====
-- No updater is lost but by a failed patch, none is applied twice, and, if the functions that drain do not
-- overlap, none is overtaken.
use module_lib.Prelude.{
  ℕ, zero, suc, ◌+◌, ◌≡◌, refl, Bool, true, false, none, some, List, [], ◌∷◌, ◌++◌, arith,
  append_assoc, append-nil, append-eq-nil, sym, ap, ◌∙◌, if◌then◌else◌,
}
use module_lib.Runner.Updates.{
  Updates, new_updates, emit_control, emit_reconcile, run_callback, run_flush, drain, patch,
  batch_at, other_batches, Step, emits_control, emits_reconcile, expires, expires_stray, calls_back,
  flushes, drains, patches, Reach, here, next,
}

module _ {X : Type 0} where
  handed_over : {s t : Updates X} → Step s t → List X
  handed_over emits_control = []
  handed_over (emits_reconcile none) = []
  handed_over (emits_reconcile (some x)) = x ∷ []
  handed_over (expires h) = []
  handed_over (expires_stray h) = []
  handed_over (calls_back h) = []
  handed_over flushes = []
  handed_over (drains h) = []
  handed_over (patches i b) = []

  -- The updaters that were handed to the _reconcile port on the way, in order.
  pub handed : {s t : Updates X} → Reach s t → List X
  handed here = []
  handed (next r st) = handed r ++ handed_over st

module _ {X : Type 0} (p : X → Bool) where
  -- How many of the updaters pass a test.
  unfoldable pub number : List X → ℕ
  number [] = 0
  number (x ∷ xs) = (if p x then 1 else 0) + number xs

  unfoldable pub number_in_all : List (List X) → ℕ
  unfolding number
  number_in_all [] = 0
  number_in_all (b ∷ bs) = number b + number_in_all bs

  number-append : (xs ys : List X) → number (xs ++ ys) ≡ number xs + number ys
  unfolding number
  number-append [] ys = omega arith
  number-append (x ∷ xs) ys = omega (arith, number-append xs ys)

  number_in_all-append :
      (bs : List (List X)) (xs : List X)
      → number_in_all (bs ++ (xs ∷ [])) ≡ number_in_all bs + number xs
  unfolding number_in_all
  number_in_all-append [] xs = omega arith
  number_in_all-append (b ∷ bs) xs = omega (arith, number_in_all-append bs xs)

  number-batch_at :
      (i : ℕ) (bs : List (List X))
      → number (batch_at i bs) + number_in_all (other_batches i bs) ≡ number_in_all bs
  unfolding batch_at other_batches number_in_all
  number-batch_at zero [] = refl
  number-batch_at (suc i) [] = refl
  number-batch_at zero (b ∷ bs) = refl
  number-batch_at (suc i) (b ∷ bs) = omega (arith, number-batch_at i bs)

  -- The updaters that pass, wherever they are: applied, failed, drained or waiting.
  abbrev pub everywhere : Updates X → ℕ
  everywhere s = number s.applied + number s.lost + number_in_all s.draining + number s.updaters

  Step-everywhere :
      {s t : Updates X} (st : Step s t) → everywhere t ≡ everywhere s + number (handed_over st)
  unfolding handed_over emit_control emit_reconcile run_callback run_flush drain patch number
  Step-everywhere emits_control = omega arith
  Step-everywhere (emits_reconcile none) = omega arith
  Step-everywhere {s} (emits_reconcile (some x)) = omega (arith, number-append s.updaters (x ∷ []))
  Step-everywhere (expires h) = omega arith
  Step-everywhere (expires_stray h) = omega arith
  Step-everywhere (calls_back h) = omega arith
  Step-everywhere flushes = omega arith
  Step-everywhere {s} (drains h) = omega (arith, number_in_all-append s.draining s.updaters)
  Step-everywhere {s} (patches i true) =
      omega (arith, number-append s.applied (batch_at i s.draining), number-batch_at i s.draining)
  Step-everywhere {s} (patches i false) =
      omega (arith, number-append s.lost (batch_at i s.draining), number-batch_at i s.draining)

  -- However emits, timers, callbacks, flushes, drains and patches interleave, of the updaters of any kind
  -- there are as many among those that were applied, that a failed patch lost, that are about to be
  -- applied and that still wait, as were handed over: none is dropped on the way, and none is applied
  -- twice.
  pub everywhere-handed :
      {s : Updates X} (r : Reach new_updates s) → everywhere s ≡ number (handed r)
  unfolding handed new_updates number_in_all
  everywhere-handed here = refl
  everywhere-handed (next r st) =
      omega
        (arith, everywhere-handed r, Step-everywhere st, number-append (handed r) (handed_over st))

module _ {X : Type 0} where
  unfoldable pub flat : List (List X) → List X
  flat [] = []
  flat (b ∷ bs) = b ++ flat bs

  abbrev AtMostOne : List (List X) → Type 0
  AtMostOne [] = Unit
  AtMostOne (b ∷ []) = Unit
  AtMostOne (b ∷ c ∷ bs) = ⊥

  -- A function drains only when none has drained that has not patched yet.
  abbrev Turn : {s t : Updates X} → Step s t → Type 0
  Turn {s} (drains h) = s.draining ≡ []
  Turn _ = Unit

  abbrev pub InTurn : {s t : Updates X} → Reach s t → Type 0
  InTurn here = Unit
  InTurn (next r st) = InTurn r × Turn st

  batch_at-flat :
      (i : ℕ) (bs : List (List X)) (a u : List X)
      → AtMostOne bs
      → AtMostOne (other_batches i bs)
        × ((a ++ batch_at i bs) ++ (flat (other_batches i bs) ++ u) ≡ a ++ (flat bs ++ u))
  unfolding batch_at other_batches flat
  batch_at-flat zero [] a u h = (tt, simp append-nil)
  batch_at-flat (suc i) [] a u h = (tt, simp append-nil)
  batch_at-flat zero (b ∷ []) a u h = (tt, simp (append-nil, append_assoc))
  batch_at-flat (suc zero) (b ∷ []) a u h = (tt, simp append-nil)
  batch_at-flat (suc (suc i)) (b ∷ []) a u h = (tt, simp append-nil)
  batch_at-flat i (b ∷ c ∷ bs) a u h = absurd h

  -- Applied, about to be applied, and waiting.
  abbrev pub in_order : Updates X → List X
  in_order s = s.applied ++ (flat s.draining ++ s.updaters)

  abbrev Ordered : {s t : Updates X} → Step s t → Type 0
  Ordered {s} {t} st =
      AtMostOne t.draining
      × (t.lost ≡ [] → (s.lost ≡ []) × (in_order t ≡ in_order s ++ handed_over st))

  Step-Ordered : {s t : Updates X} (st : Step s t) → AtMostOne s.draining → Turn st → Ordered st
  unfolding handed_over emit_control emit_reconcile run_callback run_flush drain patch flat
  Step-Ordered emits_control one turn = (one, λ h. (h, sym (append-nil _)))
  Step-Ordered (emits_reconcile none) one turn = (one, λ h. (h, sym (append-nil _)))
  Step-Ordered {s} (emits_reconcile (some x)) one turn =
      (one, λ h. (h, rw (append_assoc s.applied, append_assoc (flat s.draining)) refl))
  Step-Ordered (expires k) one turn = (one, λ h. (h, sym (append-nil _)))
  Step-Ordered (expires_stray k) one turn = (one, λ h. (h, sym (append-nil _)))
  Step-Ordered (calls_back k) one turn = (one, λ h. (h, sym (append-nil _)))
  Step-Ordered flushes one turn = (one, λ h. (h, sym (append-nil _)))
  Step-Ordered {s} (drains k) one turn = rw turn (tt, λ h. (h, simp append-nil))
  Step-Ordered {s} (patches i true) one turn =
      let (o, e) = batch_at-flat i s.draining s.applied s.updaters one in
      (o, λ h. (h, e ∙ sym (append-nil _)))
  Step-Ordered {s} (patches i false) one turn =
      let (o, e) = batch_at-flat i s.draining [] s.updaters one in
      (
        o,
        λ h.
            let (l, b) = append-eq-nil s.lost (batch_at i s.draining) h in
            (
              l,
              ap (λ ys. s.applied ++ ys)
                    (sym (ap (λ xs. xs ++ (flat (other_batches i s.draining) ++ s.updaters)) b) ∙ e)
                  ∙ sym (append-nil _),
            ),
      )

  Reach-Ordered :
      {s : Updates X} (r : Reach new_updates s)
      → InTurn r
      → AtMostOne s.draining × (s.lost ≡ [] → in_order s ≡ handed r)
  unfolding handed new_updates flat
  Reach-Ordered here t = (tt, λ h. refl)
  Reach-Ordered (next r st) (t, turn) =
      let (one, rest) = Reach-Ordered r t in
      let (one', now) = Step-Ordered st one turn in
      (one', λ h. let (l, e) = now h in e ∙ ap (λ xs. xs ++ handed_over st) (rest l))

  -- If a function drains only when no other has drained and not patched yet, and no patch failed on the
  -- way, the updaters that were applied, those about to be and those that still wait are exactly the
  -- ones that were handed over, in the order of their emits: none is overtaken, however the debouncer
  -- merges the requests.
  pub applied-handed :
      {s : Updates X} (r : Reach new_updates s)
      → InTurn r
      → s.lost ≡ []
      → s.applied ++ (flat s.draining ++ s.updaters) ≡ handed r
  applied-handed r t h = (Reach-Ordered r t).1 h
