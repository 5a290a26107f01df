-- ===== src/Prelude/Strings.antt =====
-- Go strings, as lists of bytes: comparison, prefixes and splitting.
use Prim.Native.Nat.{ℕ}
use Prim.Native.Char.{code}
use Prim.Native.String.{String}
use mathlib.Core.Path.{◌≡◌, refl, ap}
use mathlib.Core.Logic.{◌↔◌}
use mathlib.Core.Bool.{Bool, true, false, ◌&&◌}
use mathlib.Core.List.{List, [], ◌∷◌, ◌++◌}
use native.Mathlib.Omega.{arith}
use module_lib.Prelude.Tests.{eqb}

abbrev pub Text : Type 0
Text = List ℕ

-- A literal; its bytes are its code points where it is ASCII, as every literal of the program is.
abbrev pub codes : String → Text
codes String.[] = []
codes (String.◌∷◌ c s) = code c ∷ codes s

infix 50 ◌==◌
unfoldable pub ◌==◌ : Text → Text → Bool
[] == [] = true
[] == (y ∷ ys) = false
(x ∷ xs) == [] = false
(x ∷ xs) == (y ∷ ys) = eqb x y && xs == ys

pub eq_iff : (s t : Text) → ((s == t) ≡ true) ↔ (s ≡ t)
unfolding ◌==◌
eq_iff [] [] = ground arith
eq_iff [] (y ∷ ys) = ground arith
eq_iff (x ∷ xs) [] = ground arith
eq_iff (x ∷ xs) (y ∷ ys) = ground (arith, eq_iff xs ys)

pub eq_refl : (s : Text) → (s == s) ≡ true
eq_refl s = (eq_iff s s).1 refl

-- `strings.HasPrefix(s, p)`
unfoldable pub starts_with : Text → Text → Bool
starts_with s [] = true
starts_with [] (y ∷ p) = false
starts_with (x ∷ s) (y ∷ p) = eqb x y && starts_with s p

pub starts_with-append : (p s : Text) → starts_with (p ++ s) p ≡ true
unfolding starts_with
starts_with-append [] s = refl
starts_with-append (x ∷ p) s = ground (arith, starts_with-append p s)

-- What `s[len(p):]` leaves.
unfoldable pub drop_prefix : Text → Text → Text
drop_prefix [] s = s
drop_prefix (y ∷ p) [] = []
drop_prefix (y ∷ p) (x ∷ s) = drop_prefix p s

pub drop_prefix-append : (p s : Text) → drop_prefix p (p ++ s) ≡ s
unfolding drop_prefix
drop_prefix-append [] s = refl
drop_prefix-append (x ∷ p) s = drop_prefix-append p s

-- A text with a prefix is that prefix and the rest.
pub starts_with-split : (s p : Text) → starts_with s p ≡ true → s ≡ p ++ drop_prefix p s
unfolding starts_with drop_prefix
starts_with-split s [] h = refl
starts_with-split [] (y ∷ p) h = cc
starts_with-split (x ∷ s) (y ∷ p) h = ground (arith, starts_with-split s p)

pub append_inj : (p : Text) {s t : Text} → p ++ s ≡ p ++ t → s ≡ t
append_inj p {s} {t} e = subst_drop (ap (drop_prefix p) e)
  where
    subst_drop : drop_prefix p (p ++ s) ≡ drop_prefix p (p ++ t) → s ≡ t
    subst_drop q = cc (q, drop_prefix-append p s, drop_prefix-append p t)
