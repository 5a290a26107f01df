-- ===== src/Graph/Requests/Policy.antt =====
-- The attempts that the senders of messages make under the retry policy of a request.
use module_lib.Prelude.{
  ℕ, ◌≡◌, Bool, true, false, not, ◌||◌, [], arith, Text, codes, ◌==◌, eqb, any,
}
use module_lib.Json.{Json, null, number, text, array, Fields, at, elements}

-- A text that is not empty, in a list.
abbrev pub is_code : Json → Bool
is_code (text s) = not (s == [])
is_code _ = false

abbrev pub has_code : Json → Bool
has_code (array xs) = any is_code (elements xs)
has_code _ = false

module _ (count : Text → ℕ) where
  -- A number that is not 0.
  abbrev pub is_positive : Json → Bool
  is_positive (number s) = not (eqb (count s) 0)
  is_positive _ = false

  abbrev pub is_once : Json → Bool
  is_once (number s) = eqb (count s) 1
  is_once _ = false

  abbrev pub number_in : Json → ℕ
  number_in (number s) = count s
  number_in _ = 0

  -- What the policy says beside the number of attempts: a delay, a coefficient, a bound on the delay, a
  -- timeout or a code of an error.
  abbrev pub says_more : Fields → Bool
  says_more raw =
      is_positive (at raw (codes "initialDelayMs"))
      || is_code (at raw (codes "backoffCoefficient"))
      || is_positive (at raw (codes "maxDelayMs"))
      || is_positive (at raw (codes "timeoutMs"))
      || has_code (at raw (codes "nonRetryableErrorCodes"))

  is_once-is_positive : (v : Json) → is_once v ≡ true → is_positive v ≡ true
  is_once-is_positive (number s) h = ground arith
  is_once-is_positive null h = cc
  is_once-is_positive _ h = cc
