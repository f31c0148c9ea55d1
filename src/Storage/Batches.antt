-- ===== src/Storage/Batches.antt =====
-- storage/store.py: batches of a run. Creating a directory on disk is not modelled.
pub mod Sync
use agent_eval_orchestrator.Prelude.{
  ℕ, String, Bool, false, ◌&&◌, ◌||◌, Option, none, some, List, [], ◌∷◌, filter, all, count,
  sort_by, ◌==◌,
}
use agent_eval_orchestrator.Core.Layout.{batch_dir}
use agent_eval_orchestrator.Table
use agent_eval_orchestrator.Text.{or_else}
use agent_eval_orchestrator.Json.{Fields, end}
use agent_eval_orchestrator.Storage.Schema.{
  Batch, Store, runtime_error, integrity_error, Result, ok, err, ◌>>=◌, or_raise,
}
use agent_eval_orchestrator.Storage.Templates.{get_task_template}
use agent_eval_orchestrator.Storage.Runs.{get_run, update_run}

abbrev pub batch_key : Batch → String
batch_key b = b.batch_id

-- get_batch
unfoldable pub get_batch : Store → String → Option Batch
unfolding Table.find
get_batch s batch_id = Table.find batch_key batch_id s.batches

-- create_batch; `root` is the layout's root and `batch_id` what new_id("batch") gives.
unfoldable pub create_batch :
    Store
    → (root batch_id : String) (now : ℕ)
    → (run_id : String) (selected_case_ids : List String) (preferred_worker_id : Option String)
    → (batch_options : Fields) (initial_status batch_kind : String)
      (parent_batch_id : Option String)
    → Result (Store × Batch)
unfolding get_run get_task_template Table.insert
create_batch s root batch_id now run_id case_ids preferred options status kind parent = do
  run ← or_raise (get_run s run_id) (runtime_error "run not found")
  template ← or_raise (get_task_template s run.template_id) (runtime_error "template not found")
  let row : Batch = record {
    batch_id = batch_id;
    run_id = run_id;
    owner = run.owner;
    status = status;
    current_step = none;
    preferred_worker_id = preferred;
    assigned_worker_id = none;
    executor_kind = template.executor_kind;
    executor_metadata = end;
    selected_case_ids = case_ids;
    batch_options = options;
    summary = end;
    artifact_index = end;
    batch_root = batch_dir root run.owner run_id batch_id;
    created_at = now;
    started_at = none;
    finished_at = none;
    error_text = none;
    parent_batch_id = parent;
    batch_kind = kind;
  }
  elim (Table.insert batch_key row s.batches) [
    | none ↦ err (integrity_error "batches.batch_id")
    | some rows ↦ ok (
      update_run (record s { batches = rows }) run_id
          (λ r. record r { latest_batch_id = some batch_id; updated_at = now }),
      row,
    )
  ]

-- list_batches_for_run
unfoldable pub list_batches_for_run : Store → String → List Batch
list_batches_for_run s run_id =
    sort_by (λ b. b.created_at) (filter (λ b. b.run_id == run_id) s.batches)

abbrev pub is_primary : Batch → Bool
is_primary b = or_else b.batch_kind "primary" == "primary"

-- list_primary_batches_for_run
unfoldable pub list_primary_batches_for_run : Store → String → List Batch
unfolding list_batches_for_run
list_primary_batches_for_run s run_id = filter is_primary (list_batches_for_run s run_id)

-- The set `terminal`, as is_run_terminal and finish_rerun_batch_if_complete write it.
unfoldable pub is_terminal : String → Bool
is_terminal status =
    status == "succeeded" || status == "failed" || status == "stopped" || status == "sync_failed"

-- `if not batches: return False`, then all(...).
unfoldable pub all_terminal : List Batch → Bool
unfolding is_terminal
all_terminal [] = false
all_terminal (b ∷ bs) = all (λ x. is_terminal x.status) (b ∷ bs)

unfoldable pub is_run_terminal : Store → String → Bool
unfolding all_terminal list_batches_for_run
is_run_terminal s run_id = all_terminal (list_batches_for_run s run_id)

unfoldable pub is_run_primary_terminal : Store → String → Bool
unfolding all_terminal list_primary_batches_for_run
is_run_primary_terminal s run_id = all_terminal (list_primary_batches_for_run s run_id)

-- The WHERE of the two sync updates: `preferred_worker_id = ?` is false of NULL.
unfoldable pub awaits_sync : String → String → Batch → Bool
awaits_sync run_id worker_id b =
    b.run_id == run_id
    && elim b.preferred_worker_id [ none ↦ false | some w ↦ w == worker_id ]
    && b.status == "pending_sync"

set_sync_status : Store → String → String → String → Store × ℕ
unfolding awaits_sync
set_sync_status s run_id worker_id status = (
  record s {
    batches =
        Table.update_where (awaits_sync run_id worker_id) (λ b. record b { status = status })
          s.batches;
  },
  count (awaits_sync run_id worker_id) s.batches,
)

-- promote_worker_batches_to_queued: the state and cursor.rowcount.
unfoldable pub promote_worker_batches_to_queued : Store → String → String → Store × ℕ
unfolding set_sync_status
promote_worker_batches_to_queued s run_id worker_id = set_sync_status s run_id worker_id "queued"

-- mark_worker_batches_sync_failed
unfoldable pub mark_worker_batches_sync_failed : Store → String → String → Store × ℕ
unfolding set_sync_status
mark_worker_batches_sync_failed s run_id worker_id =
    set_sync_status s run_id worker_id "sync_failed"
