-- ===== src/Errors.antt =====
-- The retryability contract of errors: module/errors.go and pkg/errors/errors.go. An `error` is the
-- chain that `errors.As` walks; nil is `none`. Joined errors, which the program does not build,
-- are left out.
pub mod Marking
use module_lib.Prelude.{
  Bool, true, false, Option, none, some, ◌++◌, [], ◌≡◌, Text, codes, if◌then◌else◌,
}

pub data Err : Type 0 where
  -- errors.New, fmt.Errorf with no %w
  plain : Text → Err
  -- fmt.Errorf("…%w"): the text in front, and what it wraps
  wrap : Text → Err → Err
  -- &PermanentError{Err: e}
  permanent_error : Err → Err
  -- &CodedError{Code: c, Err: e}, and the same with a nil Err
  coded_error : Text → Err → Err
  bare_code : Text → Err
  -- retryableError{err: e, retryable: b}, or any other RetryableError
  retryable_error : Err → Bool → Err

-- err.Error()
unfoldable pub error_text : Err → Text
error_text (plain s) = s
error_text (wrap s e) = s ++ error_text e
error_text (permanent_error e) = error_text e
error_text (coded_error c e) = c ++ codes ": " ++ error_text e
error_text (bare_code c) = c
error_text (retryable_error e b) = error_text e

-- errors.As(err, &perr) for a *PermanentError
has_permanent : Err → Bool
has_permanent (plain s) = false
has_permanent (wrap s e) = has_permanent e
has_permanent (permanent_error e) = true
has_permanent (coded_error c e) = has_permanent e
has_permanent (bare_code c) = false
has_permanent (retryable_error e b) = has_permanent e

-- errors.As(err, &re) for a RetryableError, and its Retryable()
find_retryable : Err → Option Bool
find_retryable (plain s) = none
find_retryable (wrap s e) = find_retryable e
find_retryable (permanent_error e) = find_retryable e
find_retryable (coded_error c e) = find_retryable e
find_retryable (bare_code c) = none
find_retryable (retryable_error e b) = some b

-- errors.As(err, &ce) for a *CodedError, and its Code
find_code : Err → Option Text
find_code (plain s) = none
find_code (wrap s e) = find_code e
find_code (permanent_error e) = find_code e
find_code (coded_error c e) = some c
find_code (bare_code c) = some c
find_code (retryable_error e b) = find_code e

unfoldable pub new_permanent_error : Option Err → Option Err
new_permanent_error none = none
new_permanent_error (some e) = some (permanent_error e)

unfoldable pub is_permanent : Option Err → Bool
unfolding has_permanent
is_permanent none = false
is_permanent (some e) = has_permanent e

unfoldable pub non_retryable : Text → Option Err → Option Err
non_retryable code none = none
non_retryable code (some e) = some (coded_error code e)

-- "" when no CodedError is in the chain
unfoldable pub error_code : Option Err → Text
unfolding find_code
error_code none = []
error_code (some e) = elim (find_code e) [ none ↦ [] | some c ↦ c ]

unfoldable pub retryable : Option Err → Option Err
retryable none = none
retryable (some e) = some (retryable_error e true)

unfoldable pub permanent : Option Err → Option Err
permanent none = none
permanent (some e) = some (retryable_error e false)

unfoldable pub is_retryable : Option Err → Bool
unfolding find_retryable
is_retryable none = false
is_retryable (some e) = elim (find_retryable e) [ none ↦ false | some b ↦ b ]

unfoldable pub should_retry : Option Err → Bool
unfolding is_permanent is_retryable
should_retry none = false
should_retry (some e) = if is_permanent (some e) then false else is_retryable (some e)

pub record ErrorMessage {ℓ} (A : Type ℓ) : Type ℓ where
  pub context : A
  pub error : Text
  pub is_transient : Bool

unfoldable pub new_error {ℓ} : {A : Type ℓ} → A → Option Err → ErrorMessage A
unfolding is_retryable error_text
new_error ctx err = record {
  context = ctx;
  error = elim err [ none ↦ [] | some e ↦ error_text e ];
  is_transient = is_retryable err;
}
