-- ===== src/Storage/Schema.antt =====
-- The tables of storage/store.py: one record for each row type, and the state of the database.
-- A time is the number that its ISO text stands for: the texts of now_iso() all have one offset,
-- and compare as their times do. REAL columns hold the literal.
use agent_eval_orchestrator.Prelude.{ℕ, String, Option, List, []}
use agent_eval_orchestrator.Json.{Fields}

pub record Template : Type 0 where
  pub template_id : String
  pub owner : String
  pub name : String
  pub dataset_ref : String
  pub executor_kind : String
  pub executor_config : Fields
  pub model_profile_ref : Option String
  pub note : String
  pub created_at : ℕ
  pub updated_at : ℕ

pub record Run : Type 0 where
  pub run_id : String
  pub template_id : String
  pub owner : String
  pub display_name : String
  pub bound_worker_id : Option String
  pub latest_batch_id : Option String
  pub parent_run_id : Option String
  pub sync_status : String
  pub sync_job_id : Option String
  pub sync_manifest : Fields
  pub rerun_status : String
  pub rerun_job_id : Option String
  pub created_at : ℕ
  pub updated_at : ℕ

pub record Batch : Type 0 where
  pub batch_id : String
  pub run_id : String
  pub owner : String
  pub status : String
  pub current_step : Option String
  pub preferred_worker_id : Option String
  pub assigned_worker_id : Option String
  pub executor_kind : String
  pub executor_metadata : Fields
  pub selected_case_ids : List String
  pub batch_options : Fields
  pub summary : Fields
  pub artifact_index : Fields
  pub batch_root : String
  pub created_at : ℕ
  pub started_at : Option ℕ
  pub finished_at : Option ℕ
  pub error_text : Option String
  pub parent_batch_id : Option String
  pub batch_kind : String

pub record CaseRun : Type 0 where
  pub case_run_id : String
  pub batch_id : String
  pub case_id : String
  pub status : String
  pub score : Option String
  pub metrics : Fields
  pub artifact_index : Fields
  pub error_text : Option String
  pub created_at : ℕ
  pub updated_at : ℕ

pub record Worker : Type 0 where
  pub worker_id : String
  pub display_name : String
  pub host : String
  pub slots_total : ℕ
  pub slots_used : ℕ
  pub capabilities : Fields
  pub status : String
  pub enabled : ℕ
  pub note : String
  pub tags : List String
  pub allocation_weight : String
  pub ssh_host_alias : String
  pub ssh_bootstrap_host_alias : Option String
  pub tunnel_remote_port : Option ℕ
  pub provision_status : String
  pub last_provision_error : Option String
  pub connection_mode : String
  pub controller_internal_ip : Option String
  pub last_heartbeat_at : Option ℕ
  pub created_at : ℕ
  pub updated_at : ℕ

-- One entry of steps_json of the provision and update jobs.
pub record Step : Type 0 where
  pub id : String
  pub label : String
  pub status : String

-- One entry of steps_json of the asset sync jobs.
pub record WorkerSteps : Type 0 where
  pub worker_id : String
  pub steps : List Step

-- The columns that the three job tables with steps have in common.
pub record JobState (S : Type 0) : Type 0 where
  pub status : String
  pub current_step : Option String
  pub steps : List S
  pub log_text : String
  pub error_text : Option String
  pub created_at : ℕ
  pub finished_at : Option ℕ

pub record ProvisionJob : Type 0 where
  pub job_id : String
  pub worker_id : String
  pub mode : String
  pub state : JobState Step

pub record WorkerUpdateJob : Type 0 where
  pub job_id : String
  pub worker_id : String
  pub targets : List String
  pub state : JobState Step

pub record AssetSyncJob : Type 0 where
  pub job_id : String
  pub run_id : String
  pub state : JobState WorkerSteps

-- One value of rerun_batches_json: a batch id, or a list of them.
pub data BatchRef : Type 0 where
  one : String → BatchRef
  many : List String → BatchRef

pub record RunRerunJob : Type 0 where
  pub job_id : String
  pub run_id : String
  pub status : String
  pub sync_job_id : Option String
  pub case_ids : List String
  pub worker_shards : List (String × List String)
  pub rerun_batches : List (String × BatchRef)
  pub selected_error_types : List String
  pub error_text : Option String
  pub created_at : ℕ
  pub finished_at : Option ℕ

pub record Store : Type 0 where
  pub templates : List Template
  pub runs : List Run
  pub batches : List Batch
  pub case_runs : List CaseRun
  pub workers : List Worker
  pub provision_jobs : List ProvisionJob
  pub worker_update_jobs : List WorkerUpdateJob
  pub asset_sync_jobs : List AssetSyncJob
  pub run_rerun_jobs : List RunRerunJob

-- The database of _init_schema, before any row.
abbrev pub empty : Store
empty = record {
  templates = [];
  runs = [];
  batches = [];
  case_runs = [];
  workers = [];
  provision_jobs = [];
  worker_update_jobs = [];
  asset_sync_jobs = [];
  run_rerun_jobs = [];
}

-- What a method of the store raises: a RuntimeError with its message, or sqlite3's IntegrityError
-- on a primary key that the table has, with the key's table and column, or what int() raises. The connection is closed with no commit, so the state of an
-- operation that raises is the state before it.
pub data Error : Type 0 where
  runtime_error : String → Error
  integrity_error : String → Error
  conversion_error : String → Error  -- the ValueError or TypeError of int()

pub data Result {ℓ} (T : Type ℓ) : Type ℓ where
  err : Error → Result T
  ok : T → Result T

-- What follows a call is not run where the call raises.
infixl 5 ◌>>=◌
abbrev pub ◌>>=◌ {ℓ κ} : {S : Type ℓ} → {T : Type κ} → Result S → (S → Result T) → Result T
err raised >>= next = err raised
ok value >>= next = next value

-- A missing value raises.
abbrev pub or_raise {ℓ} : {T : Type ℓ} → Option T → Error → Result T
or_raise (Option.some value) raised = ok value
or_raise Option.none raised = err raised
