-- ===== src/Errors/Marking.antt =====
-- When a failure may be attempted again, by what stands in its chain.
use module_lib.Prelude.{◌≡◌, refl, ◌↔◌, Bool, true, false, some, arith, Text}
use module_lib.Errors.{
  Err, plain, wrap, permanent_error, coded_error, bare_code, retryable_error, has_permanent,
  find_retryable, should_retry,
}

-- `Inside d e`: unwrapping e some number of times reaches d.
pub data Inside (d : Err) : Err → Type 0 where
  here : Inside d d
  in_wrap : {e : Err} (s : Text) → Inside d e → Inside d (wrap s e)
  in_permanent : {e : Err} → Inside d e → Inside d (permanent_error e)
  in_coded : {e : Err} (c : Text) → Inside d e → Inside d (coded_error c e)
  in_retryable : {e : Err} (b : Bool) → Inside d e → Inside d (retryable_error e b)

-- `Mark b e`: the outermost retryability marking of e is b.
pub data Mark (b : Bool) : Err → Type 0 where
  marked : (e : Err) → Mark b (retryable_error e b)
  mark_wrap : {e : Err} (s : Text) → Mark b e → Mark b (wrap s e)
  mark_permanent : {e : Err} → Mark b e → Mark b (permanent_error e)
  mark_coded : {e : Err} (c : Text) → Mark b e → Mark b (coded_error c e)

Inside-has_permanent : (d e : Err) → Inside (permanent_error d) e → has_permanent e ≡ true
unfolding has_permanent
Inside-has_permanent d e here = refl
Inside-has_permanent d (wrap s e) (in_wrap _ i) = Inside-has_permanent d e i
Inside-has_permanent d (permanent_error e) (in_permanent i) = refl
Inside-has_permanent d (coded_error c e) (in_coded _ i) = Inside-has_permanent d e i
Inside-has_permanent d (retryable_error e b) (in_retryable _ i) = Inside-has_permanent d e i

has_permanent-Inside : (e : Err) → has_permanent e ≡ true → (d : Err) × Inside (permanent_error d) e
unfolding has_permanent
has_permanent-Inside (plain s) h = cc
has_permanent-Inside (wrap s e) h = let (d, i) = has_permanent-Inside e h in (d, in_wrap s i)
has_permanent-Inside (permanent_error e) h = (e, here)
has_permanent-Inside (coded_error c e) h =
    let (d, i) = has_permanent-Inside e h in (d, in_coded c i)
has_permanent-Inside (bare_code c) h = cc
has_permanent-Inside (retryable_error e b) h =
    let (d, i) = has_permanent-Inside e h in (d, in_retryable b i)

Mark-find_retryable : {b : Bool} (e : Err) → Mark b e → find_retryable e ≡ some b
unfolding find_retryable
Mark-find_retryable _ (marked e) = refl
Mark-find_retryable (wrap s e) (mark_wrap _ m) = Mark-find_retryable e m
Mark-find_retryable (permanent_error e) (mark_permanent m) = Mark-find_retryable e m
Mark-find_retryable (coded_error c e) (mark_coded _ m) = Mark-find_retryable e m

find_retryable-Mark : {b : Bool} (e : Err) → find_retryable e ≡ some b → Mark b e
unfolding find_retryable
find_retryable-Mark (plain s) h = cc
find_retryable-Mark (wrap s e) h = mark_wrap s (find_retryable-Mark e h)
find_retryable-Mark (permanent_error e) h = mark_permanent (find_retryable-Mark e h)
find_retryable-Mark (coded_error c e) h = mark_coded c (find_retryable-Mark e h)
find_retryable-Mark (bare_code c) h = cc
find_retryable-Mark {b} (retryable_error e b') h = rw (some_inj h) (marked e)
  where
    some_inj : some b' ≡ some b → b' ≡ b
    some_inj p = cc

should_retry-true :
    (e : Err)
    → (has_permanent e ≡ false)
    → (find_retryable e ≡ some true)
    → should_retry (some e) ≡ true
unfolding should_retry
should_retry-true e h k = ground arith

should_retry_inv :
    (e : Err)
    → should_retry (some e) ≡ true
    → (has_permanent e ≡ false) × (find_retryable e ≡ some true)
unfolding should_retry
should_retry_inv e h = ground arith

has_permanent-false :
    (e : Err) → ((d : Err) → ¬ Inside (permanent_error d) e) → has_permanent e ≡ false
has_permanent-false e h = split (has_permanent e) refl
  where
    split : (b : Bool) → has_permanent e ≡ b → has_permanent e ≡ false
    split true p = let (d, i) = has_permanent-Inside e p in absurd (h d i)
    split false p = p

-- A failure is attempted again exactly when no PermanentError stands anywhere in its chain and
-- the outermost retryability marking says that it is transient.
pub should_retry_exact :
    (e : Err)
    → (should_retry (some e) ≡ true) ↔ (((d : Err) → ¬ Inside (permanent_error d) e) × Mark true e)
should_retry_exact e = (
  (λ h.
      let (np, fr) = should_retry_inv e h in
      ((λ d i. cc (np, Inside-has_permanent d e i)), find_retryable-Mark e fr)),
  (λ (clean, m). should_retry-true e (has_permanent-false e clean) (Mark-find_retryable e m)),
)
