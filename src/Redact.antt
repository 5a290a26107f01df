-- ===== src/Redact.antt =====
-- Hiding credentials in decoded payloads: pkg/redact/redact.go and authored.go, and the placeholders of
-- pkg/utils/secret_placeholder.go.
pub mod Leaves
pub mod Names
pub mod Placeholders
use module_lib.Prelude.{
  ℕ, ◌+◌, Bool, true, false, not, ◌&&◌, ◌||◌, Option, none, some, List, [], ◌∷◌, ◌++◌, Text, codes,
  ◌==◌, eqb, leb, any, if◌then◌else◌, starts_with,
}
use module_lib.Json.{
  Json, Items, Fields, null, bool, number, text, array, object, nil, item, end, field, at, as_text,
  as_object, is_null,
}

-- const Value
abbrev pub value_marker : Text
value_marker = codes "<redacted>"

-- Case folding as (?i) and strings.EqualFold do it on the letters that the patterns use: the capital
-- ASCII letters, the long s (U+017F) and the Kelvin sign (U+212A).
abbrev lower_letter : ℕ → ℕ
lower_letter c = if leb b'A' c && leb c b'Z' then c + 32 else c

unfoldable pub folded : Text → Text
folded [] = []
folded (a ∷ []) = lower_letter a ∷ []
folded (a ∷ b ∷ []) =
    if eqb a 0xc5 && eqb b 0xbf then b's' ∷ [] else lower_letter a ∷ lower_letter b ∷ []
folded (a ∷ b ∷ c ∷ s) =
    let long_s = b's' ∷ folded (c ∷ s) in
    let kelvin = b'k' ∷ folded s in
    let plain = lower_letter a ∷ folded (b ∷ c ∷ s) in
    if eqb a 0xc5 && eqb b 0xbf
    then long_s
    else if eqb a 0xe2 && eqb b 0x84 && eqb c 0xaa
    then kelvin
    else plain

-- strings.EqualFold(s, t) at a lower-case t
unfoldable pub equal_fold : Text → Text → Bool
unfolding folded
equal_fold s t = folded s == t

-- strings.Contains(s, t)
unfoldable pub contains : Text → Text → Bool
contains [] t = t == []
contains (c ∷ s) t = starts_with (c ∷ s) t || contains s t

-- The alternatives of secretKeyRe, each [_-]? written out.
abbrev key_patterns : List Text
key_patterns =
    codes "apikey"
    ∷ codes "api_key"
    ∷ codes "api-key"
    ∷ codes "secret"
    ∷ codes "token"
    ∷ codes "passw"
    ∷ codes "authorization"
    ∷ codes "bearer"
    ∷ codes "credential"
    ∷ codes "privatekey"
    ∷ codes "private_key"
    ∷ codes "private-key"
    ∷ codes "accesskey"
    ∷ codes "access_key"
    ∷ codes "access-key"
    ∷ []

-- secretKeyRe.MatchString and secretFieldRe.MatchString, which are the same pattern
unfoldable pub matches_secret : Text → Bool
unfolding folded contains
matches_secret key = any (λ p. contains (folded key) p) key_patterns

unfoldable pub is_secret_key : Text → Bool
unfolding matches_secret
is_secret_key key = not (key == []) && matches_secret key

unfoldable pub is_expression : Text → Bool
unfolding contains
is_expression s = contains s (codes "{{")

-- The case `string` of value.
unfoldable pub redacted_text : Text → Text → Text
redacted_text key s =
    if not (s == []) && not (is_expression s) && is_secret_key key then value_marker else s

unfoldable mutual
  unfolding redacted_text

  pub value : Text → Json → Json
  value key null = null
  value key (bool b) = bool b
  value key (number n) = number n
  value key (text s) = text (redacted_text key s)
  value key (array xs) = array (value_items key xs)
  value key (object m) = object (value_fields m)

  pub value_items : Text → Items → Items
  value_items key nil = nil
  value_items key (item v xs) = item (value key v) (value_items key xs)

  pub value_fields : Fields → Fields
  value_fields end = end
  value_fields (field k v m) = field k (value k v) (value_fields m)

unfoldable pub secrets : Json → Json
unfolding value
secrets v = value [] v

abbrev names_key : List Text → Text → Bool
names_key names key = any (λ n. n == key) names

-- byName: the value and whether it changed. A container is copied at its first changed child and
-- returned as it is when there is none.
abbrev changed_text : List Text → Text → Text → Json × Bool
changed_text names key s =
    if not (names_key names key) || s == [] || is_expression s
    then (text s, false)
    else (text value_marker, true)

abbrev kept_or {ℓ} : {A : Type ℓ} → A → A × Bool → (A → Json) → Json × Bool
kept_or old (new, true) wrap = (wrap new, true)
kept_or old (new, false) wrap = (wrap old, false)

abbrev with_child {ℓ κ} :
    {A : Type ℓ} {B : Type κ} → (A → B → B) → A → B → A × Bool → B × Bool → B × Bool
with_child put old rest (new, true) (rest', c) = (put new rest', true)
with_child put old rest (new, false) (rest', c) = (put old rest', c)

unfoldable mutual
  pub by_name_at : List Text → Text → Json → Json × Bool
  by_name_at names key null = (null, false)
  by_name_at names key (bool b) = (bool b, false)
  by_name_at names key (number n) = (number n, false)
  by_name_at names key (text s) = changed_text names key s
  by_name_at names key (array xs) = kept_or xs (by_name_items names key xs) array
  by_name_at names key (object m) = kept_or m (by_name_fields names m) object

  pub by_name_items : List Text → Text → Items → Items × Bool
  by_name_items names key nil = (nil, false)
  by_name_items names key (item v xs) =
      with_child item v xs (by_name_at names key v) (by_name_items names key xs)

  pub by_name_fields : List Text → Fields → Fields × Bool
  by_name_fields names end = (end, false)
  by_name_fields names (field k v m) =
      with_child (field k) v m (by_name_at names k v) (by_name_fields names m)

abbrev none_named : List Text → Bool
none_named [] = true
none_named (n ∷ ns) = false

abbrev only_changed : Json → Json × Bool → Json × Bool
only_changed v (out, true) = (out, true)
only_changed v (out, false) = (v, false)

unfoldable pub by_name : Json → List Text → Json × Bool
unfolding by_name_at
by_name v names =
    if none_named names || is_null v then (v, false) else only_changed v (by_name_at names [] v)

-- declaresSecret
abbrev is_true : Json → Bool
is_true (bool b) = b
is_true (text s) = equal_fold s (codes "true")
is_true _ = false

abbrev is_password : Json → Bool
is_password (text s) = equal_fold s (codes "password")
is_password _ = false

unfoldable pub declares_secret : Fields → Bool
declares_secret def =
    is_password (at def (codes "format"))
    || is_true (at def (codes "writeOnly"))
    || is_true (at def (codes "secret"))

-- The loop over a `properties` object.
unfoldable pub declared_in : Fields → List Text
unfolding declares_secret
declared_in end = []
declared_in (field name (object def) m) =
    let rest = declared_in m in if declares_secret def then name ∷ rest else rest
declared_in (field name _ m) = declared_in m

abbrev own_names : Option Fields → List Text
own_names none = []
own_names (some props) = declared_in props

unfoldable mutual
  pub collect_names : Json → List Text
  collect_names null = []
  collect_names (bool b) = []
  collect_names (number n) = []
  collect_names (text s) = []
  collect_names (array xs) = collect_items xs
  collect_names (object m) = own_names (as_object (at m (codes "properties"))) ++ collect_fields m

  pub collect_items : Items → List Text
  collect_items nil = []
  collect_items (item v xs) = collect_names v ++ collect_items xs

  pub collect_fields : Fields → List Text
  collect_fields end = []
  collect_fields (field k v m) = collect_names v ++ collect_fields m

-- `decoded` is what json.Unmarshal gives for the schema, none for an error or an empty schema.
unfoldable pub authored_secret_names : Option Json → List Text
unfolding collect_names
authored_secret_names none = []
authored_secret_names (some doc) = collect_names doc

-- placeholderForAbsentSecrets
abbrev pub simulated_secret_placeholder : Text
simulated_secret_placeholder = codes "(supplied at runtime)"

abbrev placed : Text → Json → Json → Json
placed key null walked = if matches_secret key then text simulated_secret_placeholder else walked
placed key _ walked = walked

unfoldable mutual
  pub placeholders : Json → Json
  placeholders null = null
  placeholders (bool b) = bool b
  placeholders (number n) = number n
  placeholders (text s) = text s
  placeholders (array xs) = array (placeholder_items xs)
  placeholders (object m) = object (placeholder_fields m)

  pub placeholder_items : Items → Items
  placeholder_items nil = nil
  placeholder_items (item v xs) = item (placeholders v) (placeholder_items xs)

  pub placeholder_fields : Fields → Fields
  placeholder_fields end = end
  placeholder_fields (field k v m) = field k (placed k v (placeholders v)) (placeholder_fields m)
