-- ===== src/Json.antt =====
-- Decoded JSON, the `any` that encoding/json gives: a number is its literal, and an object is a Go
-- map, as an association list that is looked up by its first entry.
use module_lib.Prelude.{
  Bool, true, false, Option, none, some, List, [], ◌∷◌, Text, ◌==◌, if◌then◌else◌,
}
use module_lib.Dict.{Dict}

mutual
  pub data Json : Type 0 where
    null : Json
    bool : Bool → Json
    number : Text → Json
    text : Text → Json
    array : Items → Json
    object : Fields → Json

  pub data Items : Type 0 where
    nil : Items
    item : Json → Items → Items

  pub data Fields : Type 0 where
    end : Fields
    field : Text → Json → Fields → Fields

-- m[k], with the `ok` of the two-value form
unfoldable pub lookup : Fields → Text → Option Json
lookup end k = none
lookup (field j v m) k = if j == k then some v else lookup m k

-- m[k]: nil where there is no such key
unfoldable pub at : Fields → Text → Json
unfolding lookup
at m k = elim (lookup m k) [ none ↦ null | some v ↦ v ]

unfoldable pub put_field : Fields → Text → Json → Fields
put_field end k v = field k v end
put_field (field j w m) k v = if j == k then field k v m else field j w (put_field m k v)

-- `for k, v := range m` and `for _, v := range xs`, where the body does not recur into v
unfoldable pub entries : Fields → Dict Json
entries end = []
entries (field k v m) = (k, v) ∷ entries m

unfoldable pub elements : Items → List Json
elements nil = []
elements (item v xs) = v ∷ elements xs

-- v.(string), v.(map[string]any) and v.([]any)
abbrev pub as_text : Json → Option Text
as_text (text s) = some s
as_text _ = none

abbrev pub as_object : Json → Option Fields
as_object (object m) = some m
as_object _ = none

abbrev pub as_array : Json → Option Items
as_array (array xs) = some xs
as_array _ = none

-- `s, _ := v.(string)`, which is also GetStr of pkg/utils/elements.go
abbrev pub text_or_empty : Json → Text
text_or_empty (text s) = s
text_or_empty _ = []

abbrev pub is_null : Json → Bool
is_null null = true
is_null _ = false
