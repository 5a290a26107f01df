-- ===== src/Tests/Messages.antt =====
-- Errors, names, addresses and step keys.
use module_lib.Prelude.{◌≡◌, refl, ◌↔◌, true, false, some, [], codes, ◌==◌}
use module_lib.Errors.{
  Err, plain, wrap, permanent_error, coded_error, retryable_error, should_retry, error_code,
}
use module_lib.Errors.Marking.{Inside, Mark, should_retry_exact}
use module_lib.Names.{parse_full_port_name, name_matches}
use module_lib.Run.{Run, new_run, fnv64a}

-- A transient failure under a code, and the same with a permanent error inside.
abbrev timeout_error : Err
timeout_error =
    wrap (codes "call: ")
      (retryable_error (coded_error (codes "TIMEOUT") (plain (codes "slow"))) true)

abbrev dead_error : Err
dead_error = retryable_error (permanent_error (plain (codes "gone"))) true

retries : (should_retry (some timeout_error) ≡ true) × (should_retry (some dead_error) ≡ false)
unfolding should_retry
retries = (refl, refl)

code_found : error_code (some timeout_error) ≡ codes "TIMEOUT"
unfolding error_code
code_found = refl

should_retry_exact_example :
    (should_retry (some timeout_error) ≡ true)
    ↔ (((d : Err) → ¬ Inside (permanent_error d) timeout_error) × Mark true timeout_error)
should_retry_exact_example = should_retry_exact timeout_error

two_colons : parse_full_port_name (codes "a:b:c") ≡ ([], [])
unfolding parse_full_port_name
two_colons = refl

suffix_match :
    (name_matches (codes "http-module") (codes "Tiny/http-module") ≡ true)
    × (name_matches (codes "module") (codes "http") ≡ false)
unfolding name_matches ◌==◌
suffix_match = (refl, refl)

abbrev run : Run
unfolding new_run
run = new_run (codes "r1") (codes "r1.root")

-- The offset basis of FNV-1a on 64 bits, which is what an empty text hashes to.
first_key : fnv64a [] ≡ 14695981039346656037
unfolding fnv64a
first_key = refl
