-- ===== src/Ledger/Counters.antt =====
-- The re-drive counter of a hop, and what the operations of a pass do to it.
use module_lib.Prelude.{
  ℕ, zero, suc, ◌≤◌, ◌≡◌, refl, ◌≢◌, ◌∙◌, ap, none, some, ◌∷◌, arith, Text, codes, ◌==◌, eq_iff,
  eq_refl, Option-cases, if◌then◌else◌,
}
use module_lib.Prelude.{inl, inr}
use module_lib.Prelude.Int.{ℤ, pos}
use module_lib.Prelude.Strings.{append_inj}
use module_lib.Run.{EmitRecord, Msg}
use module_lib.Ledger.{Cluster, redrive_attempts, record_redrive, fail_step, hop_msg, failed_record}
use module_lib.Ledger.Numbers.{atoi, itoa}
use module_lib.Ledger.Keys.{redrive_key, step_key}

-- What the bucket and the broker are relied on for: every Put succeeds, is read back and changes no
-- other key, and publishing changes no key of the bucket.
pub record IsLawful {W : Type 0} (c : Cluster W) : Type 0 where
  pub get-put :
      (k v j : Text) (w : W) → c.get j (c.put k v w).1 ≡ (if k == j then some v else c.get j w)
  pub get-publish : (m : Msg) (j : Text) (w : W) → c.get j (c.publish m w).1 ≡ c.get j w

atoi-itoa : (n : ℕ) → n ≤ 3 → atoi (itoa (pos n)) ≡ some (pos n)
unfolding atoi itoa
atoi-itoa zero h = refl
atoi-itoa (suc zero) h = refl
atoi-itoa (suc (suc zero)) h = refl
atoi-itoa (suc (suc (suc zero))) h = refl
atoi-itoa (suc (suc (suc (suc n)))) h = absurd (omega arith)

abbrev second : Text → ℕ
second (a ∷ b ∷ s) = b
second _ = 0

step_key-ne-redrive_key : (run s t : Text) → step_key run s ≢ redrive_key run t
unfolding step_key redrive_key
step_key-ne-redrive_key run s t e =
    absurd (omega (arith, ap second (append_inj run (append_inj (codes "exec/") e))))

module _ {W : Type 0} (c : Cluster W) (L : IsLawful c) (run : Text) (hop : EmitRecord) where
  -- The hop's counter reads this number.
  abbrev pub Counts : ℕ → W → Type 0
  Counts n w = redrive_attempts c run hop.step_key w ≡ pos n

  pub Counts-get :
      (n : ℕ) (v w : W)
      → c.get (redrive_key run hop.step_key) v ≡ c.get (redrive_key run hop.step_key) w
      → Counts n w
      → Counts n v
  unfolding redrive_attempts
  Counts-get n v w e h = rw (e, redrive_attempts) h

  pub Counts-none : (w : W) → c.get (redrive_key run hop.step_key) w ≡ none → Counts 0 w
  unfolding redrive_attempts
  Counts-none w e = rw (e, redrive_attempts)

  Counts-publish : (n : ℕ) (w : W) → Counts n w → Counts n (c.publish (hop_msg run hop) w).1
  Counts-publish n w h =
      Counts-get n _ w (L.get-publish (hop_msg run hop) (redrive_key run hop.step_key) w) h

  get-record_redrive :
      (n : ℕ) (w : W)
      → c.get (redrive_key run hop.step_key) (record_redrive c run hop.step_key (pos n) w)
        ≡ some (itoa (pos n))
  unfolding record_redrive
  get-record_redrive n w =
      L.get-put (redrive_key run hop.step_key) (itoa (pos n)) (redrive_key run hop.step_key) w
      ∙ rw (eq_refl (redrive_key run hop.step_key))

  pub Counts-record_redrive :
      (n : ℕ) (w : W) → n ≤ 3 → Counts n (record_redrive c run hop.step_key (pos n) w)
  unfolding redrive_attempts
  Counts-record_redrive n w h = rw (get-record_redrive n w, redrive_attempts) (rw (atoi-itoa n h))

  pub fail_step_lem :
      (a : ℤ) (w : W) (t : Text)
      → c.encode (failed_record c hop a w) ≡ some t
      → fail_step c run hop a w ≡ (c.put (step_key run hop.step_key) t w).1
  unfolding fail_step
  fail_step_lem a w t e = rw (e, fail_step)

  get-fail_step :
      (a : ℤ) (w : W)
      → c.get (redrive_key run hop.step_key) (fail_step c run hop a w)
        ≡ c.get (redrive_key run hop.step_key) w
  unfolding fail_step
  get-fail_step a w = elim (Option-cases (c.encode (failed_record c hop a w))) [
    | inl e ↦ rw (e, fail_step)
    | inr (t, e) ↦ rw (fail_step_lem a w t e) (
        L.get-put (step_key run hop.step_key) t (redrive_key run hop.step_key) w
        ∙ ground (
          arith,
          eq_iff (step_key run hop.step_key) (redrive_key run hop.step_key),
          step_key-ne-redrive_key run hop.step_key hop.step_key,
        ))
  ]

  pub Counts-fail_step : (n : ℕ) (a : ℤ) (w : W) → Counts n w → Counts n (fail_step c run hop a w)
  Counts-fail_step n a w h = Counts-get n _ w (get-fail_step a w) h
