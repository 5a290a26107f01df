-- ===== src/Graph/Elements.antt =====
-- Elements of an exported flow, as decoded JSON objects: pkg/utils/elements.go, and the export format of
-- pkg/utils/project_export.go.
use module_lib.Prelude.{
  Bool, false, not, ◌&&◌, Option, none, List, Text, codes, ◌==◌, if◌then◌else◌,
}
use module_lib.Json.{Json, Fields, text, at, as_object, text_or_empty, is_null}

abbrev pub tiny_node_type : Text
tiny_node_type = codes "tinyNode"

abbrev pub tiny_edge_type : Text
tiny_edge_type = codes "tinyEdge"

-- v == s, for an `any` and a string
abbrev pub is_text : Text → Json → Bool
is_text s (text t) = t == s
is_text s _ = false

unfoldable pub is_node : Fields → Option Fields
is_node n =
    if is_null (at n (codes "data"))
    then none
    else if is_text tiny_node_type (at n (codes "type"))
    then as_object (at n (codes "data"))
    else none

unfoldable pub is_edge : Fields → Bool
is_edge n =
    is_text tiny_edge_type (at n (codes "type"))
    && not (is_null (at n (codes "source")))
    && not (is_null (at n (codes "target")))
    && not (is_null (at n (codes "targetHandle")))
    && not (is_null (at n (codes "sourceHandle")))

-- GetStr(m[k]) and `s, _ := m[k].(string)`
abbrev pub string_at : Fields → Text → Text
string_at m k = text_or_empty (at m k)

pub record ExportFlow : Type 0 where
  pub resource_name : Text

pub record ExportWidget : Type 0 where
  pub port : Text
  pub name : Text
  pub schema_patch : Text

pub record ExportPage : Type 0 where
  pub title : Text
  pub widgets : List ExportWidget

pub record ProjectExport : Type 0 where
  pub tiny_flows : List ExportFlow
  pub elements : List Fields
  pub pages : List ExportPage
