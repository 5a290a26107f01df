-- ===== src/Redact/Leaves.antt =====
-- What the redactions do to each string of a payload, by the field that it stands under.
use module_lib.Prelude.{
  ◌≡◌, refl, ◌∙◌, ap, sym, Bool, true, not, ◌&&◌, ◌||◌, List, [], ◌∷◌, ◌++◌, arith, Text, ◌==◌,
  eq_iff,
}
use module_lib.Json.{
  Json, Items, Fields, null, bool, number, text, array, object, nil, item, end, field,
}
use module_lib.Redact.{
  value_marker, is_secret_key, is_expression, redacted_text, value, value_items, value_fields,
  secrets,
}

-- The strings of a value, each with the nearest field name above it, in order; `start` stands where
-- there is none.
unfoldable mutual
  pub leaves : Text → Json → List (Text × Text)
  leaves key null = []
  leaves key (bool b) = []
  leaves key (number n) = []
  leaves key (text s) = (key, s) ∷ []
  leaves key (array xs) = leaves_items key xs
  leaves key (object m) = leaves_fields m

  pub leaves_items : Text → Items → List (Text × Text)
  leaves_items key nil = []
  leaves_items key (item v xs) = leaves key v ++ leaves_items key xs

  pub leaves_fields : Fields → List (Text × Text)
  leaves_fields end = []
  leaves_fields (field k v m) = leaves k v ++ leaves_fields m

-- The value with each string replaced by what `f` makes of it under its field name.
unfoldable mutual
  pub map_leaves : (Text → Text → Text) → Text → Json → Json
  map_leaves f key null = null
  map_leaves f key (bool b) = bool b
  map_leaves f key (number n) = number n
  map_leaves f key (text s) = text (f key s)
  map_leaves f key (array xs) = array (map_items f key xs)
  map_leaves f key (object m) = object (map_fields f m)

  pub map_items : (Text → Text → Text) → Text → Items → Items
  map_items f key nil = nil
  map_items f key (item v xs) = item (map_leaves f key v) (map_items f key xs)

  pub map_fields : (Text → Text → Text) → Fields → Fields
  map_fields f end = end
  map_fields f (field k v m) = field k (map_leaves f k v) (map_fields f m)

-- Every string satisfies the test, at its field name.
abbrev pub each : (Text → Text → Bool) → List (Text × Text) → Bool
each p [] = true
each p ((k, s) ∷ l) = p k s && each p l

each-append :
    (p : Text → Text → Bool) (l m : List (Text × Text)) → each p (l ++ m) ≡ (each p l && each p m)
each-append p [] m = refl
each-append p ((k, s) ∷ l) m = ground (arith, each-append p l m)

-- There is nothing to hide: the string is empty, a reference, already marked, or under no
-- credential-shaped name.
abbrev pub hidden : Text → Text → Bool
hidden k s = s == [] || is_expression s || s == value_marker || not (is_secret_key k)

hidden-redacted_text : (k s : Text) → hidden k (redacted_text k s) ≡ true
unfolding redacted_text
hidden-redacted_text k s = ground (arith, eq_iff value_marker value_marker, eq_iff s value_marker)

redacted_text_twice : (k s : Text) → redacted_text k (redacted_text k s) ≡ redacted_text k s
unfolding redacted_text
redacted_text_twice k s = ground arith

mutual
  unfolding value map_leaves

  value-map_leaves : (key : Text) (v : Json) → value key v ≡ map_leaves redacted_text key v
  value-map_leaves key null = refl
  value-map_leaves key (bool b) = refl
  value-map_leaves key (number n) = refl
  value-map_leaves key (text s) = refl
  value-map_leaves key (array xs) = ap array (value_items-map_items key xs)
  value-map_leaves key (object m) = ap object (value_fields-map_fields m)

  value_items-map_items :
      (key : Text) (xs : Items) → value_items key xs ≡ map_items redacted_text key xs
  value_items-map_items key nil = refl
  value_items-map_items key (item v xs) = cc (value-map_leaves key v, value_items-map_items key xs)

  value_fields-map_fields : (m : Fields) → value_fields m ≡ map_fields redacted_text m
  value_fields-map_fields end = refl
  value_fields-map_fields (field k v m) = cc (value-map_leaves k v, value_fields-map_fields m)

mutual
  unfolding map_leaves leaves

  pub each-map_leaves :
      (p : Text → Text → Bool) (f : Text → Text → Text)
      → ((k s : Text) → p k (f k s) ≡ true)
      → (key : Text) (v : Json) → each p (leaves key (map_leaves f key v)) ≡ true
  each-map_leaves p f h key null = refl
  each-map_leaves p f h key (bool b) = refl
  each-map_leaves p f h key (number n) = refl
  each-map_leaves p f h key (text s) = ground (arith, h key s)
  each-map_leaves p f h key (array xs) = each-map_items p f h key xs
  each-map_leaves p f h key (object m) = each-map_fields p f h m

  each-map_items :
      (p : Text → Text → Bool) (f : Text → Text → Text)
      → ((k s : Text) → p k (f k s) ≡ true)
      → (key : Text) (xs : Items) → each p (leaves_items key (map_items f key xs)) ≡ true
  each-map_items p f h key nil = refl
  each-map_items p f h key (item v xs) =
      each-append p (leaves key (map_leaves f key v)) (leaves_items key (map_items f key xs))
      ∙ ground (arith, each-map_leaves p f h key v, each-map_items p f h key xs)

  each-map_fields :
      (p : Text → Text → Bool) (f : Text → Text → Text)
      → ((k s : Text) → p k (f k s) ≡ true)
      → (m : Fields) → each p (leaves_fields (map_fields f m)) ≡ true
  each-map_fields p f h end = refl
  each-map_fields p f h (field k v m) =
      each-append p (leaves k (map_leaves f k v)) (leaves_fields (map_fields f m))
      ∙ ground (arith, each-map_leaves p f h k v, each-map_fields p f h m)

-- No credential is left: after redaction every string of the payload, at any depth, is empty, an
-- expression or the marker, unless its field has no credential-shaped name.
pub leaves-secrets : (v : Json) → each hidden (leaves [] (secrets v)) ≡ true
unfolding secrets
leaves-secrets v =
    ap (λ w. each hidden (leaves [] w)) (value-map_leaves [] v)
    ∙ each-map_leaves hidden redacted_text hidden-redacted_text [] v

mutual
  unfolding map_leaves

  map_leaves_twice :
      (f : Text → Text → Text)
      → ((k s : Text) → f k (f k s) ≡ f k s)
      → (key : Text) (v : Json) → map_leaves f key (map_leaves f key v) ≡ map_leaves f key v
  map_leaves_twice f h key null = refl
  map_leaves_twice f h key (bool b) = refl
  map_leaves_twice f h key (number n) = refl
  map_leaves_twice f h key (text s) = ap text (h key s)
  map_leaves_twice f h key (array xs) = ap array (map_items_twice f h key xs)
  map_leaves_twice f h key (object m) = ap object (map_fields_twice f h m)

  map_items_twice :
      (f : Text → Text → Text)
      → ((k s : Text) → f k (f k s) ≡ f k s)
      → (key : Text) (xs : Items) → map_items f key (map_items f key xs) ≡ map_items f key xs
  map_items_twice f h key nil = refl
  map_items_twice f h key (item v xs) = cc (map_leaves_twice f h key v, map_items_twice f h key xs)

  map_fields_twice :
      (f : Text → Text → Text)
      → ((k s : Text) → f k (f k s) ≡ f k s)
      → (m : Fields) → map_fields f (map_fields f m) ≡ map_fields f m
  map_fields_twice f h end = refl
  map_fields_twice f h (field k v m) = cc (map_leaves_twice f h k v, map_fields_twice f h m)

-- Redaction replaces strings in place and keeps every other part of the payload, and redacting what
-- was redacted changes nothing more.
pub secrets-secrets :
    (v : Json) → (secrets v ≡ map_leaves redacted_text [] v) × (secrets (secrets v) ≡ secrets v)
unfolding secrets
secrets-secrets v = (
  value-map_leaves [] v,
  value-map_leaves [] (value [] v)
      ∙ ap (map_leaves redacted_text []) (value-map_leaves [] v)
      ∙ map_leaves_twice redacted_text redacted_text_twice [] v
      ∙ sym (value-map_leaves [] v),
)
