-- ===== src/Runner/Backoff.antt =====
-- `backoffDelay` of internal/scheduler/runner/runner.go. Go's float64 and strconv.ParseFloat are an
-- interface; durations are int64 nanoseconds.
pub mod Laws
use module_lib.Prelude.{
  ℕ, zero, suc, ◌-◌, ◌*◌, ◌≡◌, Bool, true, Option, none, some, [], Text, ◌==◌, ltb, if◌then◌else◌,
}
use module_lib.Prelude.Int.{ℤ, pos, ltb_ℤ, ◌≤ℤ◌, int64}
use module_lib.Node.{EdgeRetryPolicy}

pub record Floats : Type 1 where
  pub F : Type 0
  pub of_ns : ℤ → F
  pub times : F → F → F
  pub two : F
  pub parse_float : Text → Option F
  pub at_least_one : F → Bool
  -- time.Duration(d)
  pub to_ns : F → ℤ

-- What the arithmetic is relied on for: scaling by a factor of at least one does not shrink a
-- duration, and the conversion to int64 keeps order where its argument is in range.
pub record IsLawful (floats : Floats) : Type 1 where
  pub InRange : floats.F → Type 0
  pub le : floats.F → floats.F → Type 0
  pub two_large : floats.at_least_one floats.two ≡ true
  pub times_grows :
      (d c : floats.F) → InRange d → floats.at_least_one c ≡ true → le d (floats.times d c)
  pub in_range_below : (d e : floats.F) → le d e → InRange e → InRange d
  pub to_ns_mono : (d e : floats.F) → le d e → InRange e → floats.to_ns d ≤ℤ floats.to_ns e

abbrev millisecond : ℕ
millisecond = 1000000

abbrev second : ℕ
second = 1000000000

initial_delay : Option EdgeRetryPolicy → ℤ
initial_delay none = pos second
initial_delay (some p) =
    if ltb 0 p.initial_delay_ms then int64 (p.initial_delay_ms * millisecond) else pos second

unfoldable pub max_delay : Option EdgeRetryPolicy → ℤ
max_delay none = pos (30 * second)
max_delay (some p) =
    if ltb 0 p.max_delay_ms then int64 (p.max_delay_ms * millisecond) else pos (30 * second)

module _ (floats : Floats) where
  open floats use {F, of_ns, times, two, parse_float, at_least_one, to_ns}

  -- a parsed coefficient below one, or none, means two
  or_two : Option F → F
  or_two none = two
  or_two (some v) = if at_least_one v then v else two

  unfoldable pub coefficient : Option EdgeRetryPolicy → F
  unfolding or_two
  coefficient none = two
  coefficient (some p) =
      if p.backoff_coefficient == [] then two else or_two (parse_float p.backoff_coefficient)

  -- the loop `for i := 1; i < attempt; i++`, of attempt - 1 rounds
  scale : ℕ → F → F → F
  scale zero c d = d
  scale (suc rounds) c d = times (scale rounds c d) c

  unfoldable pub uncapped : Option EdgeRetryPolicy → ℕ → F
  unfolding scale coefficient initial_delay
  uncapped policy attempt = scale (attempt - 1) (coefficient policy) (of_ns (initial_delay policy))

  unfoldable pub backoff_delay : Option EdgeRetryPolicy → ℕ → ℤ
  unfolding uncapped max_delay
  backoff_delay policy attempt =
      let d = to_ns (uncapped policy attempt) in
      if ltb_ℤ (max_delay policy) d then max_delay policy else d
