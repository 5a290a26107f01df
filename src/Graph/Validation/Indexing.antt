-- ===== src/Graph/Validation/Indexing.antt =====
-- The first loops of ValidateProjectImport in pkg/utils/import_validation.go: the flows' names, and the
-- nodes' IDs, labels and handle schemas.
use module_lib.Prelude.{
  ◌≡◌, refl, ◌∙◌, arith, Bool, not, ◌&&◌, ◌||◌, Option, none, some, List, [], ◌∷◌, Text, codes,
  ◌==◌, any, if◌then◌else◌,
}
use module_lib.Dict
use module_lib.Dict.{Dict}
use module_lib.Json.{Json, Items, Fields, object, at, elements, as_object, as_array}
use module_lib.Graph.Elements.{tiny_node_type, string_at, ExportFlow, ProjectExport}
use module_lib.Graph.Problems.{Problem}

-- The elements' IDs, labels, and schemas of target handles, by node and handle.
abbrev pub Schemas : Type 0
Schemas = Dict (Dict Fields)

pub record Index : Type 0 where
  pub flow_set : List Text
  pub node_ids : List Text
  pub node_labels : Dict Text
  pub handle_schemas : Schemas

abbrev pub listed : Text → List Text → Bool
listed s l = any (λ t. t == s) l

-- The first loop: the flows' names, and a problem for each empty one.
unfoldable pub flow_names : List ExportFlow → List Text × List Problem
flow_names [] = ([], [])
flow_names (f ∷ fs) =
    let (names, errors) = flow_names fs in
    if f.resource_name == []
    then (names, Problem.flow_without_name ∷ errors)
    else (f.resource_name ∷ names, errors)

abbrev label_of : Fields → Text
label_of dm =
    if string_at dm (codes "label") == []
    then string_at dm (codes "component")
    else string_at dm (codes "label")

schemas_at : Text → Schemas → Dict Fields
schemas_at id schemas = elim (Dict.get schemas id) [ none ↦ [] | some d ↦ d ]

index_handle : Text → Fields → Schemas → Schemas
unfolding schemas_at
index_handle id h schemas =
    if string_at h (codes "id") == [] || not (string_at h (codes "type") == codes "target")
    then schemas
    else elim (as_object (at h (codes "schema"))) [
      | none ↦ schemas
      | some sch ↦
          Dict.put schemas id (Dict.put (schemas_at id schemas) (string_at h (codes "id")) sch)
    ]

index_handles : Text → List Json → Schemas → Schemas
unfolding index_handle
index_handles id [] schemas = schemas
index_handles id (object h ∷ hs) schemas = index_handles id hs (index_handle id h schemas)
index_handles id (_ ∷ hs) schemas = index_handles id hs schemas

abbrev pub handles_of : Option Items → List Json
handles_of none = []
handles_of (some xs) = elements xs

index_data : Text → Option Fields → Index → Index
unfolding index_handles
index_data id none ix = ix
index_data id (some dm) ix = record ix {
  node_labels = Dict.put ix.node_labels id (label_of dm);
  handle_schemas =
      index_handles id (handles_of (as_array (at dm (codes "handles")))) ix.handle_schemas;
}

index_element : Fields → Index → Index
unfolding index_data
index_element elem ix =
    let id = string_at elem (codes "id") in
    if not (string_at elem (codes "type") == tiny_node_type) || id == []
    then ix
    else index_data id (as_object (at elem (codes "data")))
        (record ix { node_ids = id ∷ ix.node_ids })

unfoldable pub index_elements : List Fields → Index → Index
unfolding index_element
index_elements [] ix = ix
index_elements (e ∷ es) ix = index_elements es (index_element e ix)

unfoldable pub index_of : ProjectExport → Index
unfolding flow_names index_elements
index_of project = index_elements project.elements (record {
  flow_set = (flow_names project.tiny_flows).0;
  node_ids = [];
  node_labels = [];
  handle_schemas = [];
})

-- The element is a node's, with this ID.
abbrev pub node_named : Text → Fields → Bool
node_named s e =
    string_at e (codes "type") == tiny_node_type
    && not (string_at e (codes "id") == [])
    && string_at e (codes "id") == s

node_ids-index_data :
    (id : Text) (o : Option Fields) (ix : Index) → (index_data id o ix).node_ids ≡ ix.node_ids
unfolding index_elements
node_ids-index_data id none ix = refl
node_ids-index_data id (some dm) ix = refl

node_ids-index_element :
    (s : Text) (e : Fields) (ix : Index)
    → listed s (index_element e ix).node_ids ≡ (node_named s e || listed s ix.node_ids)
unfolding index_elements
node_ids-index_element s e ix = ground (
  arith,
  node_ids-index_data (string_at e (codes "id")) (as_object (at e (codes "data")))
      (record ix { node_ids = string_at e (codes "id") ∷ ix.node_ids }),
)

node_ids-index_elements :
    (s : Text) (es : List Fields) (ix : Index)
    → listed s (index_elements es ix).node_ids ≡ (any (node_named s) es || listed s ix.node_ids)
unfolding index_elements
node_ids-index_elements s [] ix = refl
node_ids-index_elements s (e ∷ es) ix =
    node_ids-index_elements s es (index_element e ix)
    ∙ ground (arith, node_ids-index_element s e ix)

pub node_ids-index_of :
    (s : Text) (project : ProjectExport)
    → listed s (index_of project).node_ids ≡ any (node_named s) project.elements
unfolding index_of
node_ids-index_of s project = node_ids-index_elements s project.elements _ ∙ ground arith
