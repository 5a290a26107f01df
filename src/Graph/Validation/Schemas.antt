-- ===== src/Graph/Validation/Schemas.antt =====
-- Schemas of handles and edges: validateSchemaCompleteness and findSchemaInconsistencies of
-- pkg/utils/import_validation.go.
use module_lib.Prelude.{
  Bool, true, false, not, ◌&&◌, ◌||◌, Option, none, some, List, [], ◌∷◌, ◌++◌, Text, codes, ◌==◌,
  if◌then◌else◌,
}
use module_lib.Dict.{Dict}
use module_lib.Json.{
  Json, Fields, null, bool, number, text, array, object, end, field, lookup, at, entries,
  text_or_empty, is_null,
}
use module_lib.Graph.Problems.{
  Place, property_of, def_of, Problem, Warning, Report, schema_not_object, schema_without_ref,
  schema_without_defs, defs_not_object, defs_empty, defs_key, properties_without_type,
  properties_of_type, array_without_items,
}

abbrev has_field : Fields → Text → Bool
has_field m k = elim (lookup m k) [ none ↦ false | some v ↦ true ]

abbrev type_of : Fields → Text
type_of m = text_or_empty (at m (codes "type"))

abbrev type_warnings : Place → Fields → List Warning
type_warnings p m =
    if has_field m (codes "properties") && not (type_of m == codes "object")
    then (if type_of m == []
        then properties_without_type p ∷ []
        else properties_of_type p (type_of m) ∷ [])
    else []

-- obj["properties"] is the first entry of that name, which `first_properties` looks for.
unfoldable mutual
  pub find_schema_inconsistencies : Place → Fields → List Warning
  find_schema_inconsistencies p end = type_warnings p end
  find_schema_inconsistencies p (field k v m) =
      type_warnings p (field k v m)
      ++ (let here = property_objects p v in
          let later = first_properties p m in if k == codes "properties" then here else later)

  pub first_properties : Place → Fields → List Warning
  first_properties p end = []
  first_properties p (field k v m) =
      let here = property_objects p v in
      let later = first_properties p m in if k == codes "properties" then here else later

  pub property_objects : Place → Json → List Warning
  property_objects p null = []
  property_objects p (bool b) = []
  property_objects p (number n) = []
  property_objects p (text s) = []
  property_objects p (array xs) = []
  property_objects p (object props) = each_property p props

  pub each_property : Place → Fields → List Warning
  each_property p end = []
  each_property p (field name v props) = property_warnings p name v ++ each_property p props

  pub property_warnings : Place → Text → Json → List Warning
  property_warnings p name null = []
  property_warnings p name (bool b) = []
  property_warnings p name (number n) = []
  property_warnings p name (text s) = []
  property_warnings p name (array xs) = []
  property_warnings p name (object m) =
      let nested = find_schema_inconsistencies (property_of p name) m in
      (if type_of m == codes "array" && not (has_field m (codes "items"))
        then array_without_items p name ∷ []
        else [])
      ++ (if type_of m == codes "object" || not (is_null (at m (codes "properties")))
          then nested
          else [])

def_warnings : Place → Dict Json → List Warning
unfolding find_schema_inconsistencies
def_warnings p [] = []
def_warnings p ((name, object def) ∷ defs) =
    find_schema_inconsistencies (def_of p name) def ++ def_warnings p defs
def_warnings p ((name, _) ∷ defs) = def_warnings p defs

key_problems : (Text → Text) → Place → Dict Json → List Problem
key_problems title p [] = []
key_problems title p ((key, v) ∷ defs) =
    let rest = key_problems title p defs in
    if key == title key then rest else defs_key p key (title key) ∷ rest

defs_report : (Text → Text) → Place → Option Json → Report
unfolding def_warnings key_problems
defs_report title p none = (schema_without_defs p ∷ [], [])
defs_report title p (some (object end)) = (defs_empty p ∷ [], [])
defs_report title p (some (object (field k v m))) =
    (key_problems title p (entries (field k v m)), def_warnings p (entries (field k v m)))
defs_report title p (some _) = (defs_not_object p ∷ [], [])

unfoldable pub validate_schema_completeness : (Text → Text) → Place → Json → Report
unfolding defs_report
validate_schema_completeness title p (object m) =
    let (errors, warnings) = defs_report title p (lookup m (codes "$defs")) in
    ((if has_field m (codes "$ref") then errors else schema_without_ref p ∷ errors), warnings)
validate_schema_completeness title p _ = (schema_not_object p ∷ [], [])
