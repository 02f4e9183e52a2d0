-- ===== src/Nop/Models.antt =====
-- nps-nop/src/orch_models.rs and constants.rs: the nodes and edges of a task graph.
use nps_sdk_rust.Common.{ℕ, String, List, Option}
use nps_sdk_rust.Core.Json.{Value}

pub record RetryPolicy : Type 0 where
  pub max_retries : ℕ
  pub backoff : String
  pub initial_delay_ms : ℕ
  pub max_delay_ms : ℕ
  pub retry_on : Option (List String)

pub record DagNode (N : Type 0) : Type 0 where
  pub id : String
  pub action : String
  pub agent : String
  pub input_from : Option (List String)
  pub input_mapping : Option (List (String × Value N))
  pub timeout_ms : Option ℕ
  pub retry_policy : Option RetryPolicy
  pub condition : Option String
  pub min_required : ℕ
  pub compensate_action : Option String
  pub compensate_params_mapping : Option (List (String × Value N))

pub record DagEdge : Type 0 where
  pub from : String
  pub to : String

pub record TaskDag (N : Type 0) : Type 0 where
  pub nodes : List (DagNode N)
  pub edges : List DagEdge

abbrev pub max_dag_nodes : ℕ
max_dag_nodes = 32

abbrev pub max_condition_length : ℕ
max_condition_length = 512

abbrev pub max_input_mapping_depth : ℕ
max_input_mapping_depth = 8

abbrev pub max_timeout_ms : ℕ
max_timeout_ms = 3600000

abbrev pub max_delegate_chain_depth : ℕ
max_delegate_chain_depth = 3
