-- ===== src/Ledger/Redrive.antt =====
-- How often a hop that never completes is published again, and how that ends.
use module_lib.Prelude.{
  ℕ, suc, ◌+◌, ◌≤◌, ◌<◌, ◌≡◌, refl, ◌∙◌, sym, ap, Bool, true, false, none, some, List, [], ◌∷◌,
  arith, Text, eq_refl, Bool-cases, Option-cases, if◌then◌else◌,
}
use mathlib.Core.Path.{subst}
use module_lib.Prelude.{inl, inr}
use module_lib.Prelude.Int.{ℤ, pos}
use module_lib.Run.{EmitRecord, StepRecord}
use module_lib.Ledger.{
  Cluster, record_redrive, fail_step, redrive_at, after_publish, redrive_hop, max_redrives, hop_msg,
  stored, failed_record,
}
use module_lib.Ledger.Counters.{
  IsLawful, Counts, Counts-get, Counts-none, Counts-record_redrive, fail_step_lem, Counts-fail_step,
}
use module_lib.Ledger.Numbers.{itoa, next_ℤ, leb_ℤ}
use module_lib.Ledger.Keys.{redrive_key, step_key}

-- Two counts that the world keeps of the publishing of a hop: the calls, and those of them that reported
-- an error. The bucket's writes leave both alone.
pub record IsCount {W : Type 0} (c : Cluster W) (run : Text) (hop : EmitRecord)
    (calls refused : W → ℕ) : Type 0 where
  pub calls-publish : (w : W) → calls (c.publish (hop_msg run hop) w).1 ≡ suc (calls w)
  pub refused-publish :
      (w : W)
      → refused (c.publish (hop_msg run hop) w).1
        ≡ (if (c.publish (hop_msg run hop) w).0 then refused w else suc (refused w))
  pub calls-put : (k v : Text) (w : W) → calls (c.put k v w).1 ≡ calls w
  pub refused-put : (k v : Text) (w : W) → refused (c.put k v w).1 ≡ refused w

module _ {W : Type 0} (c : Cluster W) (L : IsLawful c) (run : Text) (hop : EmitRecord)
    (calls refused : W → ℕ) (N : IsCount c run hop calls refused) where
  -- What a round does to the counter, from its number and the world before: a hop that was published again
  -- was below the limit and was published once, and its counter is one more; otherwise every call of
  -- the broker was refused.
  Round : ℕ → W → Bool × W → Type 0
  Round n w (true, w') =
      (n < 3)
      × Counts c L run hop (n + 1) w'
      × (calls w' ≡ suc (calls w))
      × (refused w' ≡ refused w)
  Round n w (false, w') = Counts c L run hop n w' × (calls w' + refused w ≡ calls w + refused w')

  calls-record_redrive :
      (n : ℕ) (w : W)
      → (calls (record_redrive c run hop.step_key (pos n) w) ≡ calls w)
        × (refused (record_redrive c run hop.step_key (pos n) w) ≡ refused w)
  unfolding record_redrive
  calls-record_redrive n w = (
    N.calls-put (redrive_key run hop.step_key) (itoa (pos n)) w,
    N.refused-put (redrive_key run hop.step_key) (itoa (pos n)) w,
  )

  calls-fail_step :
      (a : ℤ) (w : W)
      → (calls (fail_step c run hop a w) ≡ calls w)
        × (refused (fail_step c run hop a w) ≡ refused w)
  unfolding fail_step
  calls-fail_step a w = elim (Option-cases (c.encode (failed_record c hop a w))) [
    | inl e ↦ rw (e, fail_step) (refl, refl)
    | inr (t, e) ↦
        rw (fail_step_lem c L run hop a w t e) (
          N.calls-put (step_key run hop.step_key) t w,
          N.refused-put (step_key run hop.step_key) t w,
        )
  ]

  after_publish-Round :
      (n : ℕ) (w : W)
      → n < 3
      → Counts c L run hop n w
      → (x : Bool × W) → c.publish (hop_msg run hop) w ≡ x
      → Round n w (after_publish c run hop (pos n) x)
  unfolding Round redrive_hop next_ℤ
  after_publish-Round n w lt h (true, w') e =
      let called : calls w' ≡ suc (calls w) =
        ap (λ (x : Bool × W). calls x.1) (sym e) ∙ N.calls-publish w in
      let kept : refused w' ≡ refused w =
        ap (λ (x : Bool × W). refused x.1) (sym e)
        ∙ N.refused-publish w
        ∙ ap (λ (x : Bool × W). if x.0 then refused w else suc (refused w)) e in
      let (c1, c2) = calls-record_redrive (n + 1) w' in
      (lt, Counts-record_redrive c L run hop (n + 1) w' (omega arith), c1 ∙ called, c2 ∙ kept)
  after_publish-Round n w lt h (false, w') e =
      let called : calls w' ≡ suc (calls w) =
        ap (λ (x : Bool × W). calls x.1) (sym e) ∙ N.calls-publish w in
      let failing : refused w' ≡ suc (refused w) =
        ap (λ (x : Bool × W). refused x.1) (sym e)
        ∙ N.refused-publish w
        ∙ ap (λ (x : Bool × W). if x.0 then refused w else suc (refused w)) e in
      (
        Counts-get c L run hop n w' w
            (ap (λ (x : Bool × W). c.get (redrive_key run hop.step_key) x.1) (sym e)
              ∙ L.get-publish (hop_msg run hop) (redrive_key run hop.step_key) w)
            h,
        omega (arith, called, failing),
      )

  redrive_at-Round :
      (n : ℕ) (w : W) → n ≤ 3 → Counts c L run hop n w → Round n w (redrive_at c run hop (pos n) w)
  unfolding redrive_hop Round
  redrive_at-Round n w le h = elim (Bool-cases (leb_ℤ max_redrives (pos n))) [
    | inl full ↦
        let (c1, c2) = calls-fail_step (pos n) w in
        rw full (Counts-fail_step c L run hop n (pos n) w h, omega (arith, c1, c2))
    | inr room ↦
        rw room (after_publish-Round n w (ground arith) h (c.publish (hop_msg run hop) w) refl)
  ]

  redrive_hop-Round :
      (n : ℕ) (w : W) → n ≤ 3 → Counts c L run hop n w → Round n w (redrive_hop c run hop w)
  unfolding redrive_hop
  redrive_hop-Round n w le h =
      subst (λ a. Round n w (redrive_at c run hop a w)) (sym h) (redrive_at-Round n w le h)

  -- The world after passes over the hop, each after something else happened in the cluster.
  unfoldable pub passes : List (W → W) → W → W
  passes [] w = w
  passes (env ∷ envs) w = passes envs (redrive_hop c run hop (env w)).1

  -- What happens between the passes leaves the hop's counter and the two counts alone.
  abbrev pub Keeps : List (W → W) → Type 0
  Keeps [] = Unit
  Keeps (env ∷ envs) =
      ((w : W)
        → (c.get (redrive_key run hop.step_key) (env w) ≡ c.get (redrive_key run hop.step_key) w)
          × (calls (env w) ≡ calls w)
          × (refused (env w) ≡ refused w))
      × Keeps envs

  -- The calls of the broker that were not refused, with the counter, are at most three.
  abbrev Within : ℕ → W → W → Type 0
  Within n w v = calls v + n + refused w ≤ calls w + 3 + refused v

  Round-Within :
      (envs : List (W → W)) (u : W)
      → ((n : ℕ) (w : W) → n ≤ 3 → Counts c L run hop n w → Within n w (passes envs w))
      → (n : ℕ) → n ≤ 3
      → (x : Bool × W) → Round n u x
      → Within n u (passes envs x.1)
  unfolding Round
  Round-Within envs u ih n le (true, w) (lt, h, p, q) = omega (arith, ih (n + 1) w (omega arith) h)
  Round-Within envs u ih n le (false, w) (h, p) = omega (arith, ih n w le h)

  passes-Within :
      (envs : List (W → W)) (n : ℕ) (w : W)
      → Keeps envs
      → n ≤ 3
      → Counts c L run hop n w
      → Within n w (passes envs w)
  unfolding passes
  passes-Within [] n w k le h = omega arith
  passes-Within (env ∷ envs) n w (k, ks) le h =
      let (same, p, q) = k w in
      let rest =
        Round-Within envs (env w) (λ m v lm hm. passes-Within envs m v ks lm hm) n le
          (redrive_hop c run hop (env w))
          (redrive_hop-Round n (env w) le (Counts-get c L run hop n (env w) w same h)) in
      omega (arith, rest, p, q)

  -- Where every Put of the bucket succeeds and is read back, a hop with no counter yet is published
  -- again at most three times beside the calls of the broker that report an error, however many passes
  -- come over it, and whatever happens between them that leaves its counter and its publishing alone.
  pub redrives_bounded :
      (envs : List (W → W)) (w : W)
      → Keeps envs
      → c.get (redrive_key run hop.step_key) w ≡ none
      → let w' = passes envs w in calls w' + refused w ≤ calls w + 3 + refused w'
  redrives_bounded envs w k fresh =
      omega (arith, passes-Within envs 0 w k (omega arith) (Counts-none c L run hop w fresh))

  stored-read :
      (k t : Text) (w : W) (r : StepRecord)
      → c.get k w ≡ some t
      → c.decode t ≡ some r
      → stored c k w ≡ some r
  unfolding stored
  stored-read k t w r e d = rw (e, stored) d

  -- When the counter stands at the limit of three, the broker is not called for the hop, by any count of
  -- these calls; and where every Put succeeds and the codec reads back the failed record that names
  -- the hop's target, the hop's step holds that record afterwards.
  pub redrive_hop_exhausted :
      (w : W) (t : Text)
      → Counts c L run hop 3 w
      → c.encode (failed_record c hop (pos 3) w) ≡ some t
      → c.decode t ≡ some (failed_record c hop (pos 3) w)
      → let (again, w') = redrive_hop c run hop w in
        (again ≡ false)
        × (calls w' ≡ calls w)
        × (stored c (step_key run hop.step_key) w' ≡ some (failed_record c hop (pos 3) w))
  unfolding redrive_hop
  redrive_hop_exhausted w t h e d = rw h (
      rw (fail_step_lem c L run hop (pos 3) w t e) (
        refl,
        N.calls-put (step_key run hop.step_key) t w,
        stored-read (step_key run hop.step_key) t _ _
            (L.get-put (step_key run hop.step_key) t (step_key run hop.step_key) w
              ∙ rw (eq_refl (step_key run hop.step_key)))
            d,
      ))
