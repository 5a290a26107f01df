-- ===== src/Graph/Problems.antt =====
-- What the validation of an import reports: each message of pkg/utils/import_validation.go is a
-- constructor with what the message mentions, and each prefix is a place.
use module_lib.Prelude.{ℕ, List, Text}

pub data Place : Type 0 where
  node_id : Text → Place
  node_index : ℕ → Place
  -- the source's and the target's readable names, each with its handle
  edge_between : Text → Text → Text → Text → Place
  handle_of : Place → Text → Place
  schema_of : Place → Place
  def_of : Place → Text → Place
  property_of : Place → Text → Place
  page_title : Text → Place
  page_index : ℕ → Place
  widget_name : Place → Text → Place
  widget_index : Place → ℕ → Place

pub data Problem : Type 0 where
  flow_without_name : Problem
  no_flows : Problem
  unknown_type : ℕ → Text → Text → Problem
  missing_id missing_flow missing_data missing_component missing_module : Place → Problem
  unknown_flow : Place → Text → Problem
  missing_source missing_target : ℕ → Problem
  missing_source_handle missing_target_handle : Place → Problem
  unknown_source unknown_target : Place → Text → Problem
  missing_port : Place → Problem
  invalid_port unknown_node : Place → Text → Problem
  schema_not_object schema_without_ref schema_without_defs : Place → Problem
  defs_not_object defs_empty : Place → Problem
  -- the key, and the one expected
  defs_key : Place → Text → Text → Problem
  -- the position
  unclosed_expression : Place → ℕ → Problem
  empty_expression : Place → Problem
  -- the key, and the properties that there are
  config_key : Place → Text → List Text → Problem

pub data Warning : Type 0 where
  source_handle_included : Place → ℕ → Warning
  no_configuration no_schema has_schema_patch context_passthrough : Place → Warning
  single_quotes : Place → Text → Warning
  properties_without_type : Place → Warning
  properties_of_type array_without_items : Place → Text → Warning
  -- the key, the definition and the fields
  bare_configurable : Place → Text → Text → List Text → Warning

abbrev pub Report : Type 0
Report = List Problem × List Warning
