-- ===== src/Graph/Rebuild/Parts.antt =====
-- What the rebuilding reads of one element, and what an update of a node keeps: pkg/utils/graph_import.go.
use module_lib.Prelude.{
  ◌≡◌, refl, ◌≢◌, ◌∙◌, sym, true, false, none, some, List, [], ◌∷◌, arith, Text, codes, ◌==◌,
  eq_iff, Option-cases, inl, inr,
}
use module_lib.Dict
use module_lib.Dict.{Dict, has-put, has-get}
use module_lib.Json.{
  Json, Fields, null, bool, number, text, array, object, at, as_object, text_or_empty, is_null,
}
use module_lib.Node.{Node}
use module_lib.Graph.Elements.{is_node, is_edge, is_text, string_at, tiny_node_type, tiny_edge_type}
use module_lib.Graph.Rebuild.{BuildError, Numbers, marshalled, handle_ports, update}

is_text-text_or_empty : (s : Text) (v : Json) → s ≢ [] → is_text s v ≡ (text_or_empty v == s)
is_text-text_or_empty s null n = ground (arith, eq_iff [] s)
is_text-text_or_empty s (bool b) n = ground (arith, eq_iff [] s)
is_text-text_or_empty s (number t) n = ground (arith, eq_iff [] s)
is_text-text_or_empty s (text t) n = refl
is_text-text_or_empty s (array xs) n = ground (arith, eq_iff [] s)
is_text-text_or_empty s (object m) n = ground (arith, eq_iff [] s)

is_null-as_object : (v : Json) (m : Fields) → as_object v ≡ some m → is_null v ≡ false
is_null-as_object (object x) m h = refl
is_null-as_object null m h = cc
is_null-as_object (bool b) m h = refl
is_null-as_object (number n) m h = refl
is_null-as_object (text t) m h = refl
is_null-as_object (array xs) m h = refl

-- An element that is a node's has the type and the data.
pub is_node_accepted :
    (e : Fields) (dm : Fields)
    → string_at e (codes "type") ≡ tiny_node_type
    → as_object (at e (codes "data")) ≡ some dm
    → is_node e ≡ some dm
unfolding is_node
is_node_accepted e dm t h = ground (
  arith,
  is_null-as_object (at e (codes "data")) dm h,
  is_text-text_or_empty tiny_node_type (at e (codes "type")) (λ q. cc),
  (eq_iff (string_at e (codes "type")) tiny_node_type).1 t,
)

pub is_node_other :
    (e : Fields) → (string_at e (codes "type") == tiny_node_type) ≡ false → is_node e ≡ none
unfolding is_node
is_node_other e t =
    ground (arith, is_text-text_or_empty tiny_node_type (at e (codes "type")) (λ q. cc))

pub is_edge-type : (e : Fields) → is_edge e ≡ true → string_at e (codes "type") ≡ tiny_edge_type
unfolding is_edge
is_edge-type e h =
    (eq_iff (string_at e (codes "type")) tiny_edge_type).0
      (sym (is_text-text_or_empty tiny_edge_type (at e (codes "type")) (λ q. cc)) ∙ ground arith)

-- Each value has bytes.
abbrev pub MarshalsAll : Numbers → Type 0
MarshalsAll numbers = (v : Json) → numbers.marshal v ≢ none

module _ (numbers : Numbers) (total : MarshalsAll numbers) where
  pub marshalled-errors : (e : BuildError) (v : Json) → (marshalled numbers.marshal e v).1 ≡ []
  unfolding marshalled
  marshalled-errors e null = refl
  marshalled-errors e (bool b) = ground (arith, total (bool b))
  marshalled-errors e (number n) = ground (arith, total (number n))
  marshalled-errors e (text t) = ground (arith, total (text t))
  marshalled-errors e (array xs) = ground (arith, total (array xs))
  marshalled-errors e (object m) = ground (arith, total (object m))

  pub handle_ports-errors : (node : Text) (hs : List Json) → (handle_ports numbers node hs).2 ≡ []
  unfolding handle_ports
  handle_ports-errors node [] = refl
  handle_ports-errors node (object h ∷ hs) = ground (
    arith,
    marshalled-errors (BuildError.handle_configuration node (string_at h (codes "id")))
        (at h (codes "configuration")),
    marshalled-errors (BuildError.handle_schema node (string_at h (codes "id")))
        (at h (codes "schema")),
    handle_ports-errors node hs,
  )
  handle_ports-errors node (null ∷ hs) = handle_ports-errors node hs
  handle_ports-errors node (bool b ∷ hs) = handle_ports-errors node hs
  handle_ports-errors node (number n ∷ hs) = handle_ports-errors node hs
  handle_ports-errors node (text t ∷ hs) = handle_ports-errors node hs
  handle_ports-errors node (array xs ∷ hs) = handle_ports-errors node hs

pub has-update :
    (f : Node → Node) (id s : Text) (nodes : Dict Node)
    → Dict.has (update f id nodes) s ≡ Dict.has nodes s
unfolding update
has-update f id s nodes = elim (Option-cases (Dict.get nodes id)) [
  | inl n ↦ ground arith
  | inr (x, h) ↦
      ground (arith, has-put nodes id s (f x), (has-get nodes id).1 (λ q. cc), eq_iff id s)
]
