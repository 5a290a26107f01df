-- ===== src/Graph/Validation.antt =====
-- The validation of an import: pkg/utils/import_validation.go. The title-casing of
-- golang.org/x/text/cases is an argument.
pub mod Indexing
pub mod Configs
pub mod Schemas
pub mod Sound
use module_lib.Prelude.{
  ℕ, zero, suc, ◌+◌, Bool, true, false, not, ◌&&◌, ◌||◌, Option, none, some, List, [], ◌∷◌, ◌++◌,
  Text, codes, ◌==◌, any, if◌then◌else◌,
}
use module_lib.Dict
use module_lib.Dict.{Dict}
use module_lib.Names.{split}
use module_lib.Json.{
  Json, Items, Fields, null, bool, number, text, array, object, lookup, at, elements, as_object,
  as_array, text_or_empty, is_null,
}
use module_lib.Graph.Ids.{cut}
use module_lib.Graph.Elements.{
  tiny_node_type, tiny_edge_type, string_at, ExportFlow, ExportWidget, ExportPage, ProjectExport,
}
use module_lib.Graph.Problems
use module_lib.Graph.Problems.{Place, Problem, Warning, Report}
use Indexing.{Index, listed, handles_of, flow_names, index_of}
use Configs.{
  validate_config_expressions, validate_config_keys_match_schema,
  validate_configurable_field_schemas,
}
use Schemas.{validate_schema_completeness}

-- The reports of two parts, one after the other.
infixr 40 ◌⧺◌
abbrev pub ◌⧺◌ : Report → Report → Report
(e, w) ⧺ (e', w') = (e ++ e', w ++ w')

abbrev pub nothing : Report
nothing = ([], [])

abbrev pub problem_if : Bool → Problem → Report
problem_if b p = if b then (p ∷ [], []) else nothing

abbrev pub warning_if : Bool → Warning → Report
warning_if b w = if b then ([], w ∷ []) else nothing

-- The tests of a flow's name, in nodes and edges.
abbrev flow_problems : Index → Place → Text → Report
flow_problems ix p flow =
    if flow == []
    then (Problem.missing_flow p ∷ [], [])
    else problem_if (not (listed flow ix.flow_set)) (Problem.unknown_flow p flow)

config_report : Place → Json → Report
config_report p null = ([], Warning.no_configuration p ∷ [])
config_report p config = validate_config_expressions p config

keys_report : Place → Json → Json → List Problem
keys_report p null schema = []
keys_report p config schema = validate_config_keys_match_schema p config schema

configurable_report : Index → Place → Json → Text → Text → List Warning
configurable_report ix p config target target_handle =
    let checked =
      validate_configurable_field_schemas p config
        (Configs.handle_schema ix.handle_schemas target target_handle) in
    if is_null config || target == [] || target_handle == [] then [] else checked

last_of : List Text → Text → Text
last_of [] s = s
last_of (p ∷ ps) s = last_of ps p

short_id : Text → Option Text → Text
unfolding last_of
short_id node label =
    if label_text label == [] then last_of (split b'.' node) node else label_text label
  where
    label_text : Option Text → Text
    label_text none = []
    label_text (some l) = l

edge_place : Index → Fields → Place
unfolding short_id
edge_place ix elem =
    let source = string_at elem (codes "source") in
    let target = string_at elem (codes "target") in
    Place.edge_between (short_id source (Dict.get ix.node_labels source))
      (string_at elem (codes "sourceHandle")) (short_id target (Dict.get ix.node_labels target))
      (string_at elem (codes "targetHandle"))

abbrev node_place : ℕ → Text → Place
node_place i id = if id == [] then Place.node_index i else Place.node_id id

module _ (title : Text → Text) where
  schema_report : Place → Json → Report
  schema_report p null = nothing
  schema_report p schema = validate_schema_completeness title p schema

  validate_handle : Place → ℕ → Fields → Report
  unfolding schema_report
  validate_handle p j h =
      let place = Place.handle_of p (string_at h (codes "id")) in
      let checked = schema_report place (at h (codes "schema")) in
      if string_at h (codes "type") == codes "source"
      then ([], Warning.source_handle_included place j ∷ [])
      else checked

  validate_handles : Place → ℕ → List Json → Report
  unfolding validate_handle
  validate_handles p j [] = nothing
  validate_handles p j (object h ∷ hs) = validate_handle p j h ⧺ validate_handles p (suc j) hs
  validate_handles p j (_ ∷ hs) = validate_handles p (suc j) hs

  validate_node_data : Place → Option Fields → Report
  unfolding validate_handles
  validate_node_data p none = (Problem.missing_data p ∷ [], [])
  validate_node_data p (some dm) =
      problem_if (string_at dm (codes "component") == []) (Problem.missing_component p)
      ⧺ problem_if (string_at dm (codes "module") == []) (Problem.missing_module p)
      ⧺ validate_handles p 0 (handles_of (as_array (at dm (codes "handles"))))

  unfoldable pub validate_import_node : Index → ℕ → Fields → Report
  unfolding validate_node_data
  validate_import_node ix i elem =
      let id = string_at elem (codes "id") in
      let p = node_place i id in
      problem_if (id == []) (Problem.missing_id p)
      ⧺ flow_problems ix p (string_at elem (codes "flow"))
      ⧺ validate_node_data p (as_object (at elem (codes "data")))

  edge_schema_report : Place → Json → Json → Report
  unfolding keys_report
  edge_schema_report p config null = ([], Warning.no_schema p ∷ [])
  edge_schema_report p config schema =
      validate_schema_completeness title (Place.schema_of p) schema
      ⧺ (keys_report p config schema, [])

  validate_edge_data : Index → Place → Text → Text → Option Fields → Report
  unfolding config_report edge_schema_report configurable_report
  validate_edge_data ix p target target_handle none = (Problem.missing_data p ∷ [], [])
  validate_edge_data ix p target target_handle (some dm) =
      config_report p (at dm (codes "configuration"))
      ⧺ edge_schema_report p (at dm (codes "configuration")) (at dm (codes "schema"))
      ⧺ ([], configurable_report ix p (at dm (codes "configuration")) target target_handle)

  unfoldable pub validate_import_edge : Index → ℕ → Fields → Report
  unfolding edge_place validate_edge_data
  validate_import_edge ix i elem =
      let source = string_at elem (codes "source") in
      let target = string_at elem (codes "target") in
      let p = edge_place ix elem in
      problem_if (source == []) (Problem.missing_source i)
      ⧺ problem_if (target == []) (Problem.missing_target i)
      ⧺ problem_if (string_at elem (codes "sourceHandle") == []) (Problem.missing_source_handle p)
      ⧺ problem_if (string_at elem (codes "targetHandle") == []) (Problem.missing_target_handle p)
      ⧺ problem_if (not (source == []) && not (listed source ix.node_ids))
          (Problem.unknown_source p source)
      ⧺ problem_if (not (target == []) && not (listed target ix.node_ids))
          (Problem.unknown_target p target)
      ⧺ flow_problems ix p (string_at elem (codes "flow"))
      ⧺ validate_edge_data ix p target (string_at elem (codes "targetHandle"))
          (as_object (at elem (codes "data")))

  unfoldable pub validate_element : Index → ℕ → Fields → Report
  unfolding validate_import_node validate_import_edge
  validate_element ix i elem =
      let type_name = string_at elem (codes "type") in
      let as_node = validate_import_node ix i elem in
      let as_edge = validate_import_edge ix i elem in
      if type_name == tiny_node_type
      then as_node
      else if type_name == tiny_edge_type || type_name == codes "edge"
      then as_edge
      else problem_if (not (type_name == []))
          (Problem.unknown_type i (string_at elem (codes "id")) type_name)

  unfoldable pub validate_elements : Index → ℕ → List Fields → Report
  unfolding validate_element
  validate_elements ix i [] = nothing
  validate_elements ix i (e ∷ es) = validate_element ix i e ⧺ validate_elements ix (suc i) es

-- A widget's port, cut at the first colon.
widget_port : Index → Place → Text → Bool → Option (Text × Text) → Report
widget_port ix p port patched none = (Problem.invalid_port p port ∷ [], [])
widget_port ix p port patched (some (node, name)) =
    if node == [] || name == []
    then (Problem.invalid_port p port ∷ [], [])
    else problem_if (not (listed node ix.node_ids)) (Problem.unknown_node p node)
      ⧺ warning_if patched (Warning.has_schema_patch p)

validate_widget : Index → Place → ℕ → ExportWidget → Report
unfolding widget_port
validate_widget ix page i w =
    let p = if w.name == [] then Place.widget_index page i else Place.widget_name page w.name in
    let patched =
      not (w.schema_patch == [])
      && not (w.schema_patch == codes "[]")
      && not (w.schema_patch == codes "null") in
    if w.port == []
    then (Problem.missing_port p ∷ [], [])
    else widget_port ix p w.port patched (cut b':' w.port)

validate_widgets : Index → Place → ℕ → List ExportWidget → Report
unfolding validate_widget
validate_widgets ix page i [] = nothing
validate_widgets ix page i (w ∷ ws) =
    validate_widget ix page i w ⧺ validate_widgets ix page (suc i) ws

unfoldable pub validate_import_page : Index → ℕ → ExportPage → Report
unfolding validate_widgets
validate_import_page ix i page =
    validate_widgets ix
      (if page.title == [] then Place.page_index i else Place.page_title page.title) 0 page.widgets

validate_pages : Index → ℕ → List ExportPage → Report
unfolding validate_import_page
validate_pages ix i [] = nothing
validate_pages ix i (page ∷ pages) =
    validate_import_page ix i page ⧺ validate_pages ix (suc i) pages

abbrev no_flow_problems : List ExportFlow → List Problem
no_flow_problems [] = Problem.no_flows ∷ []
no_flow_problems (f ∷ fs) = []

-- The errors, which block the import, and the warnings.
unfoldable pub validate_project_import : (Text → Text) → ProjectExport → Report
unfolding flow_names index_of validate_elements validate_pages
validate_project_import title project =
    let ix = index_of project in
    ((flow_names project.tiny_flows).1, [])
    ⧺ (no_flow_problems project.tiny_flows, [])
    ⧺ validate_elements title ix 0 project.elements
    ⧺ validate_pages ix 0 project.pages
