-- ===== src/Runner/Backoff/Laws.antt =====
-- The waits between attempts: capped, growing while the arithmetic stays in range.
use module_lib.Prelude.{ℕ, zero, suc, ◌-◌, ◌<◌, ◌≡◌, true, Option, none, some, arith, if◌then◌else◌}
use module_lib.Prelude.Int.{ℤ, ◌≤ℤ◌, ltb_ℤ}
use module_lib.Node.{EdgeRetryPolicy}
use module_lib.Runner.Backoff.{
  Floats, IsLawful, max_delay, coefficient, scale, uncapped, backoff_delay, or_two, initial_delay,
}

capped : (m d : ℤ) → (if ltb_ℤ m d then m else d) ≤ℤ m
capped m d = ground arith

capped_mono : (m d e : ℤ) → d ≤ℤ e → (if ltb_ℤ m d then m else d) ≤ℤ (if ltb_ℤ m e then m else e)
capped_mono m d e h = ground arith

module _ (floats : Floats) (L : IsLawful floats) (policy : Option EdgeRetryPolicy) where
  coefficient_large : floats.at_least_one (coefficient floats policy) ≡ true
  unfolding coefficient
  coefficient_large = large policy
    where
      parsed : (o : Option floats.F) → floats.at_least_one (or_two floats o) ≡ true
      parsed none = L.two_large
      parsed (some v) = ground (arith, L.two_large)

      large : (p : Option EdgeRetryPolicy) → floats.at_least_one (coefficient floats p) ≡ true
      large none = L.two_large
      large (some p) =
          ground (arith, L.two_large, parsed (floats.parse_float p.backoff_coefficient))

  scale_grows :
      (rounds : ℕ)
      → let d = floats.of_ns (initial_delay policy) in
        L.InRange (scale floats rounds (coefficient floats policy) d)
        → L.le
            (scale floats rounds (coefficient floats policy) d)
            (scale floats (suc rounds) (coefficient floats policy) d)
  unfolding scale
  scale_grows rounds h = L.times_grows _ _ h coefficient_large

  uncapped-suc :
      (n : ℕ)
      → uncapped floats policy (suc n)
        ≡ scale floats n (coefficient floats policy) (floats.of_ns (initial_delay policy))
  unfolding uncapped
  uncapped-suc n = let e : suc n - 1 ≡ n = omega arith in rw e

  uncapped_mono :
      (n : ℕ)
      → L.InRange (uncapped floats policy (suc n))
      → L.InRange (uncapped floats policy (suc (suc n)))
      → floats.to_ns (uncapped floats policy (suc n))
        ≤ℤ floats.to_ns (uncapped floats policy (suc (suc n)))
  uncapped_mono n r s =
      L.to_ns_mono _ _
        (rw (uncapped-suc (suc n), uncapped-suc n) (scale_grows n (rw (uncapped-suc n) at r))) s

  -- While the scaled delay is within the range of int64, the wait after the next attempt is at
  -- least the wait after this one, and at most the policy's cap.
  pub backoff_delay_mono :
      (attempt : ℕ)
      → 0 < attempt
      → L.InRange (uncapped floats policy attempt)
      → L.InRange (uncapped floats policy (suc attempt))
      → (backoff_delay floats policy attempt ≤ℤ backoff_delay floats policy (suc attempt))
        × (backoff_delay floats policy (suc attempt) ≤ℤ max_delay policy)
  unfolding backoff_delay
  backoff_delay_mono zero h r s = elim h [ ]
  backoff_delay_mono (suc n) h r s =
      (capped_mono (max_delay policy) _ _ (uncapped_mono n r s), capped (max_delay policy) _)
