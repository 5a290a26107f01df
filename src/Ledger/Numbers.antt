-- ===== src/Ledger/Numbers.antt =====
-- strconv.Itoa and strconv.Atoi, as the re-drive counters use them.
use Prim.Native.Nat.{◌^◌}
use module_lib.Prelude.{
  ℕ, zero, suc, ◌+◌, ◌-◌, ◌*◌, Bool, ◌&&◌, Option, none, some, [], ◌∷◌, Text, leb, if◌then◌else◌,
}
use module_lib.Prelude.Int.{ℤ, pos, negsuc, ltb_ℤ}
use module_lib.Run.{decimal}

digits_from : ℕ → Text → Option ℕ
digits_from n [] = some n
digits_from n (c ∷ s) =
    let rest = digits_from (n * 10 + (c - b'0')) s in
    if leb b'0' c && leb c b'9' then rest else none

unsigned : Text → Option ℕ
unsigned [] = none
unsigned (c ∷ s) = digits_from 0 (c ∷ s)

-- within int64, or ErrRange
positive : Option ℕ → Option ℤ
positive none = none
positive (some n) = if leb (2 ^ 63) n then none else some (pos n)

negative : Option ℕ → Option ℤ
negative none = none
negative (some zero) = some (pos 0)
negative (some (suc n)) = if leb (2 ^ 63) n then none else some (negsuc n)

unfoldable pub atoi : Text → Option ℤ
unfolding digits_from unsigned positive negative
atoi [] = none
atoi (c ∷ s) =
    if leb b'-' c && leb c b'-'
    then negative (unsigned s)
    else if leb b'+' c && leb c b'+'
    then positive (unsigned s)
    else positive (unsigned (c ∷ s))

unfoldable pub itoa : ℤ → Text
unfolding decimal
itoa (pos n) = decimal n
itoa (negsuc n) = b'-' ∷ decimal (suc n)

unfoldable pub next_ℤ : ℤ → ℤ
next_ℤ (pos n) = pos (n + 1)
next_ℤ (negsuc zero) = pos 0
next_ℤ (negsuc (suc n)) = negsuc n

abbrev pub leb_ℤ : ℤ → ℤ → Bool
leb_ℤ a b = module_lib.Prelude.not (ltb_ℤ b a)
