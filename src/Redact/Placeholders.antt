-- ===== src/Redact/Placeholders.antt =====
-- Placeholders for credentials that are only known at run time.
use module_lib.Prelude.{◌≡◌, refl, ap, ◌∙◌, Bool, true, false, not, ◌&&◌, arith, Text}
use module_lib.Json.{
  Json, Items, Fields, null, bool, number, text, array, object, nil, item, end, field, is_null,
}
use module_lib.Redact.{matches_secret, placed, placeholders, placeholder_items, placeholder_fields}

-- No field of a credential's name is null, at any depth.
mutual
  pub filled : Json → Bool
  filled null = true
  filled (bool b) = true
  filled (number n) = true
  filled (text s) = true
  filled (array xs) = filled_items xs
  filled (object m) = filled_fields m

  pub filled_items : Items → Bool
  filled_items nil = true
  filled_items (item v xs) = filled v && filled_items xs

  pub filled_fields : Fields → Bool
  filled_fields end = true
  filled_fields (field k v m) = not (is_null v && matches_secret k) && (filled v && filled_fields m)

filled-placed :
    (k : Text) (v w : Json)
    → filled w ≡ true
    → (is_null v ≡ false → is_null w ≡ false)
    → (is_null v ≡ true → w ≡ null)
    → (not (is_null (placed k v w) && matches_secret k) && filled (placed k v w)) ≡ true
unfolding filled
filled-placed k null w f h n = ground (arith, n refl)
filled-placed k (bool b) w f h n = ground (arith, h refl)
filled-placed k (number t) w f h n = ground (arith, h refl)
filled-placed k (text s) w f h n = ground (arith, h refl)
filled-placed k (array xs) w f h n = ground (arith, h refl)
filled-placed k (object m) w f h n = ground (arith, h refl)

placeholders_null : (v : Json) → is_null v ≡ true → placeholders v ≡ null
unfolding placeholders
placeholders_null null h = refl
placeholders_null (bool b) h = cc
placeholders_null (number t) h = cc
placeholders_null (text s) h = cc
placeholders_null (array xs) h = cc
placeholders_null (object m) h = cc

is_null-placeholders : (v : Json) → is_null (placeholders v) ≡ is_null v
unfolding placeholders
is_null-placeholders null = refl
is_null-placeholders (bool b) = refl
is_null-placeholders (number t) = refl
is_null-placeholders (text s) = refl
is_null-placeholders (array xs) = refl
is_null-placeholders (object m) = refl

mutual
  unfolding placeholders filled

  filled_at : (v : Json) → filled (placeholders v) ≡ true
  filled_at null = refl
  filled_at (bool b) = refl
  filled_at (number n) = refl
  filled_at (text s) = refl
  filled_at (array xs) = filled_at_items xs
  filled_at (object m) = filled_at_fields m

  filled_at_items : (xs : Items) → filled_items (placeholder_items xs) ≡ true
  filled_at_items nil = refl
  filled_at_items (item v xs) = ground (arith, filled_at v, filled_at_items xs)

  filled_at_fields : (m : Fields) → filled_fields (placeholder_fields m) ≡ true
  filled_at_fields end = refl
  filled_at_fields (field k v m) = ground (
    arith,
    filled-placed k v (placeholders v) (filled_at v) (λ h. is_null-placeholders v ∙ h)
        (placeholders_null v),
    filled_at_fields m,
  )

-- A value without gaps is left as it is.
mutual
  unfolding placeholders filled

  unchanged : (v : Json) → filled v ≡ true → placeholders v ≡ v
  unchanged null h = refl
  unchanged (bool b) h = refl
  unchanged (number n) h = refl
  unchanged (text s) h = refl
  unchanged (array xs) h = ap array (unchanged_items xs h)
  unchanged (object m) h = ap object (unchanged_fields m h)

  unchanged_items : (xs : Items) → filled_items xs ≡ true → placeholder_items xs ≡ xs
  unchanged_items nil h = refl
  unchanged_items (item v xs) h =
      let a : filled v ≡ true = ground arith in
      let b : filled_items xs ≡ true = ground arith in cc (unchanged v a, unchanged_items xs b)

  unchanged_fields : (m : Fields) → filled_fields m ≡ true → placeholder_fields m ≡ m
  unchanged_fields end h = refl
  unchanged_fields (field k null m) h =
      let a : matches_secret k ≡ false = ground arith in
      let b : filled_fields m ≡ true = ground arith in
      rw a (ap (field k null) (unchanged_fields m b))
  unchanged_fields (field k (bool c) m) h = ap (field k (bool c)) (unchanged_fields m h)
  unchanged_fields (field k (number n) m) h = ap (field k (number n)) (unchanged_fields m h)
  unchanged_fields (field k (text s) m) h = ap (field k (text s)) (unchanged_fields m h)
  unchanged_fields (field k (array xs) m) h =
      let a : filled_items xs ≡ true = ground arith in
      let b : filled_fields m ≡ true = ground arith in
      cc (unchanged_items xs a, unchanged_fields m b)
  unchanged_fields (field k (object fs) m) h =
      let a : filled_fields fs ≡ true = ground arith in
      let b : filled_fields m ≡ true = ground arith in
      cc (unchanged_fields fs a, unchanged_fields m b)

-- After the pass no field of a credential's name is null, at any depth, and a second pass changes
-- nothing more.
pub filled-placeholders :
    (v : Json) → (filled (placeholders v) ≡ true) × (placeholders (placeholders v) ≡ placeholders v)
filled-placeholders v = (filled_at v, unchanged (placeholders v) (filled_at v))
