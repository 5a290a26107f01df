-- ===== src/Graph/Validation/Configs.antt =====
-- Edge configurations: validateConfigExpressions, checkExpressionSyntax, validateConfigKeysMatchSchema and
-- validateConfigurableFieldSchemas of pkg/utils/import_validation.go.
use module_lib.Prelude.{
  ℕ, zero, suc, ◌+◌, Bool, true, false, ◌&&◌, Option, none, some, List, [], ◌∷◌, ◌++◌, Text, codes,
  ◌==◌, length, if◌then◌else◌, starts_with,
}
use module_lib.Prelude.Strings.{drop_prefix}
use module_lib.Dict
use module_lib.Dict.{Dict}
use module_lib.Names.{split}
use module_lib.State.{sort}
use module_lib.Json.{
  Json, Items, Fields, null, bool, number, text, array, object, nil, item, end, field, lookup, at,
  entries, as_object, as_text,
}
use module_lib.Redact.{contains}
use module_lib.Graph.Ids.{trim_space, cut_last}
use module_lib.Graph.Problems.{
  Place, Problem, Warning, Report, unclosed_expression, empty_expression, single_quotes,
  context_passthrough, config_key, bare_configurable,
}

-- What stands before and after the first `t`
unfoldable pub cut_text : Text → Text → Option (Text × Text)
cut_text t [] = if t == [] then some ([], []) else none
cut_text t (c ∷ s) = cut_later c (starts_with (c ∷ s) t) (drop_prefix t (c ∷ s)) (cut_text t s)
  where
    cut_later : ℕ → Bool → Text → Option (Text × Text) → Option (Text × Text)
    cut_later c true after o = some ([], after)
    cut_later c false after none = none
    cut_later c false after (some (a, b)) = some (c ∷ a, b)

abbrev expression_report : Place → Text → Report
expression_report p expr = (
  (if trim_space expr == [] then empty_expression p ∷ [] else []),
  (if contains expr (codes "'") then single_quotes p (trim_space expr) ∷ [] else []),
)

abbrev joined : Report → Report → Report
joined (e, w) (e', w') = (e ++ e', w ++ w')

-- One round of the loop, from what follows an opening at `idx`; `next` is the rest of the loop.
close_at : Place → ℕ → (ℕ → Text → Report) → Option (Text × Text) → Report
close_at p idx next none = (unclosed_expression p idx ∷ [], [])
close_at p idx next (some (expr, rest)) =
    joined (expression_report p expr) (next (idx + 2 + length expr + 2) rest)

open_at : Place → ℕ → (ℕ → Text → Report) → Option (Text × Text) → Report
unfolding close_at
open_at p start next none = ([], [])
open_at p start next (some (before, after)) =
    close_at p (start + length before) next (cut_text (codes "}}") after)

-- The loop, with what is left of the value from `start` on; each round takes four bytes or more.
unfoldable pub check_from : ℕ → Place → ℕ → Text → Report
unfolding open_at
check_from zero p start s = ([], [])
check_from (suc fuel) p start s =
    open_at p start (λ start' rest. check_from fuel p start' rest) (cut_text (codes "{{") s)

unfoldable pub check_expression_syntax : Place → Text → Report
unfolding check_from
check_expression_syntax p value = check_from (suc (length value)) p 0 value

abbrev is_passthrough : Text → Json → Bool
is_passthrough key (text s) = key == codes "context" && s == codes "{{$}}"
is_passthrough key _ = false

unfoldable mutual
  unfolding check_expression_syntax

  pub validate_config_expressions : Place → Json → Report
  validate_config_expressions p null = ([], [])
  validate_config_expressions p (bool b) = ([], [])
  validate_config_expressions p (number n) = ([], [])
  validate_config_expressions p (text s) = check_expression_syntax p s
  validate_config_expressions p (array xs) = item_expressions p xs
  validate_config_expressions p (object m) = field_expressions p m

  pub item_expressions : Place → Items → Report
  item_expressions p nil = ([], [])
  item_expressions p (item v xs) = joined (validate_config_expressions p v) (item_expressions p xs)

  pub field_expressions : Place → Fields → Report
  field_expressions p end = ([], [])
  field_expressions p (field k v m) =
      joined ([], if is_passthrough k v then context_passthrough p ∷ [] else [])
        (joined (validate_config_expressions p v) (field_expressions p m))

-- strings.Split(ref, "/") has two parts or more; the last
last_part : List Text → Text → Text
last_part [] s = s
last_part (p ∷ ps) s = last_part ps p

ref_type : List Text → Option Text
unfolding last_part
ref_type (a ∷ b ∷ ps) = some (last_part ps b)
ref_type _ = none

abbrev or_none {ℓ κ} : {A : Type ℓ} {B : Type κ} → Option A → (A → Option B) → Option B
or_none none f = none
or_none (some a) f = f a

-- The properties of the type that the schema's $ref names.
root_properties : Fields → Option Text → Option Fields
root_properties schema root = or_none root λ name.
    or_none (as_object (at schema (codes "$defs")))
      λ defs. or_none (as_object (at defs name)) λ def. as_object (at def (codes "properties"))

has_key : Option Json → Bool
has_key none = false
has_key (some v) = true

unknown_keys : Place → Fields → Dict Json → List Problem
unfolding has_key
unknown_keys p props [] = []
unknown_keys p props ((key, v) ∷ config) =
    let rest = unknown_keys p props config in
    if has_key (lookup props key)
    then rest
    else config_key p key (sort (Dict.keys (entries props))) ∷ rest

keys_against : Place → Fields → Option Fields → List Problem
unfolding unknown_keys
keys_against p config none = []
keys_against p config (some props) = unknown_keys p props (entries config)

unfoldable pub validate_config_keys_match_schema : Place → Json → Json → List Problem
unfolding keys_against root_properties ref_type
validate_config_keys_match_schema p (object config) (object schema) = keys_against p config (
    root_properties schema
      (or_none (as_text (at schema (codes "$ref"))) λ ref. ref_type (split b'/' ref)))
validate_config_keys_match_schema p config schema = []

-- s[strings.LastIndex(s, "/")+1:]
abbrev after_slash : Text → Text
after_slash s = elim (cut_last b'/' s) [ none ↦ s | some (a, b) ↦ b ]

-- A definition that is configurable and has no properties.
is_bare : Fields → Bool
is_bare def =
    is_configurable (at def (codes "configurable"))
    && lacks_properties (at def (codes "properties"))
  where
    is_configurable : Json → Bool
    is_configurable (bool b) = b
    is_configurable _ = false

    lacks_properties : Json → Bool
    lacks_properties (object (field k v m)) = false
    lacks_properties _ = true

-- The definition that a property's $ref names, with its name.
referenced : Fields → Fields → Text → Option (Text × Fields)
referenced defs root_props key = or_none (as_object (at root_props key)) λ prop.
    or_none (as_text (at prop (codes "$ref")))
      λ ref. or_none (as_object (at defs (after_slash ref))) λ def. some (after_slash ref, def)

bare_warning : Place → Text → Fields → Option (Text × Fields) → List Warning
unfolding is_bare
bare_warning p key fields none = []
bare_warning p key fields (some (name, def)) =
    if is_bare def
    then bare_configurable p key name (sort (Dict.keys (entries fields))) ∷ []
    else []

configurable_fields : Place → Fields → Fields → Dict Json → List Warning
unfolding bare_warning referenced
configurable_fields p defs root_props [] = []
configurable_fields p defs root_props ((key, object (field k v m)) ∷ config) =
    bare_warning p key (field k v m) (referenced defs root_props key)
    ++ configurable_fields p defs root_props config
configurable_fields p defs root_props ((key, _) ∷ config) =
    configurable_fields p defs root_props config

abbrev pub handle_schema : Dict (Dict Fields) → Text → Text → Option Fields
handle_schema schemas node handle =
    or_none (Dict.get schemas node) λ handles. Dict.get handles handle

unfoldable pub validate_configurable_field_schemas : Place → Json → Option Fields → List Warning
unfolding configurable_fields root_properties
validate_configurable_field_schemas p (object config) (some schema) =
    elim (as_object (at schema (codes "$defs"))) [
      | none ↦ []
      | some defs ↦
          elim (root_properties schema
            (or_none (as_text (at schema (codes "$ref"))) λ ref. some (after_slash ref))) [
              | none ↦ []
              | some root_props ↦ configurable_fields p defs root_props (entries config)
            ]
    ]
validate_configurable_field_schemas p config schema = []
