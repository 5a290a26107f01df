-- ===== src/Node.antt =====
-- The parts of a TinyNode that the runtime reads: api/v1alpha1/tinynode_types.go and consts.go.
-- Byte slices are texts; a nil map is the empty one. Counts that the code only tests for `> 0` are
-- natural numbers: a negative one behaves as 0.
use module_lib.Prelude.{ℕ, Bool, Option, List, Text, codes}
use module_lib.Prelude.Int.{ℤ}
use module_lib.Dict.{Dict}

pub record EdgeRetryPolicy : Type 0 where
  pub max_attempts : ℕ
  pub initial_delay_ms : ℕ
  pub backoff_coefficient : Text
  pub max_delay_ms : ℕ
  pub non_retryable_error_codes : List Text
  pub timeout_ms : ℕ

pub record Edge : Type 0 where
  pub id : Text
  pub port : Text
  pub to : Text
  pub flow_id : Text
  pub retry_policy : Option EdgeRetryPolicy

pub record PortConfig : Type 0 where
  pub from : Text
  pub port : Text
  pub schema : Text
  pub configuration : Text
  pub flow_id : Text

pub record PortStatus : Type 0 where
  pub name : Text
  pub label : Text
  pub position : ℤ
  pub source : Bool
  pub schema : Text
  pub configuration : Text

pub record Status : Type 0 where
  pub module_name : Text
  pub description : Text
  pub info : Text
  pub ports : List PortStatus
  pub metadata : Dict Text
  pub status : Text
  pub error : Bool

pub record Node : Type 0 where
  pub name : Text
  pub namespace : Text
  pub labels : Dict Text
  pub annotations : Dict Text
  pub module_name : Text
  pub component : Text
  pub ports : List PortConfig
  pub edges : List Edge
  pub status : Status

abbrev pub reconcile_port : Text
reconcile_port = codes "_reconcile"

abbrev pub control_port : Text
control_port = codes "_control"

abbrev pub settings_port : Text
settings_port = codes "_settings"

abbrev pub client_port : Text
client_port = codes "_client"

abbrev pub identity_port : Text
identity_port = codes "_identity"

abbrev pub execution_mode_label : Text
execution_mode_label = codes "tinysystems.io/execution-mode"

abbrev pub execution_mode_durable : Text
execution_mode_durable = codes "durable"

abbrev pub flow_name_label : Text
flow_name_label = codes "tinysystems.io/flow-name"

abbrev pub project_name_label : Text
project_name_label = codes "tinysystems.io/project-name"

abbrev pub dashboard_label : Text
dashboard_label = codes "tinysystems.io/dashboard"
