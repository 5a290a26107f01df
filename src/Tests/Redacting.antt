-- ===== src/Tests/Redacting.antt =====
-- Credentials in payloads.
use module_lib.Prelude.{◌≡◌, refl, true, some, [], codes, ◌==◌, starts_with}
use module_lib.Json.{Json, Fields, null, text, array, object, nil, item, end, field, at}
use module_lib.Redact.{
  equal_fold, is_expression, is_secret_key, secrets, value_marker, by_name, authored_secret_names,
  declares_secret, placeholders,
}
use module_lib.Redact.Leaves.{each, hidden, leaves, leaves-secrets}
use module_lib.Redact.Names.{Declares, here, in_object, Entry, masked, leaves-by_name}
use module_lib.Redact.Placeholders.{filled, filled-placeholders}

-- {"headers": [{"Authorization": "k"}, {"api_key": "{{$.k}}"}], "pin": "1234", "token": null}
abbrev headers : Json
headers = array (
    item (object (field (codes "Authorization") (text (codes "k")) end))
      (item (object (field (codes "api_key") (text (codes "{{$.k}}")) end)) nil))

abbrev payload : Json
payload = object (
    field (codes "headers") headers
      (field (codes "pin") (text (codes "1234")) (field (codes "token") null end)))

redacted :
    secrets payload
    ≡ object (
        field
          (codes "headers")
          (array (
            item
              (object (field (codes "Authorization") (text value_marker) end))
              (item (object (field (codes "api_key") (text (codes "{{$.k}}")) end)) nil)))
          (field (codes "pin") (text (codes "1234")) (field (codes "token") null end)))
unfolding secrets ◌==◌ is_expression starts_with is_secret_key
redacted = refl

leaves-secrets_example : each hidden (leaves [] (secrets payload)) ≡ true
leaves-secrets_example = leaves-secrets payload

-- {"$defs": {"Settings": {"properties": {"pin": {"secret": "True"}}}}}
abbrev definition : Fields
definition = field (codes "secret") (text (codes "True")) end

abbrev settings : Fields
settings = field (codes "properties") (object (field (codes "pin") (object definition) end)) end

abbrev schema : Json
schema =
    object (field (codes "$defs") (object (field (codes "Settings") (object settings) end)) end)

schema-Declares : Declares (codes "pin") schema
unfolding Declares declares_secret at ◌==◌ equal_fold
schema-Declares = (
  settings,
  field (codes "pin") (object definition) end,
  definition,
  in_object (codes "$defs") Entry.first (in_object (codes "Settings") Entry.first here),
  refl,
  Entry.first,
  refl,
)

leaves-by_name_example :
    each
      (masked (codes "pin"))
      (leaves [] (by_name payload (authored_secret_names (some schema))).0)
    ≡ true
leaves-by_name_example = leaves-by_name payload schema (codes "pin") schema-Declares

filled-placeholders_example :
    (filled (placeholders payload) ≡ true)
    × (placeholders (placeholders payload) ≡ placeholders payload)
filled-placeholders_example = filled-placeholders payload
