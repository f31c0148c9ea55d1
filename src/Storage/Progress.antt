-- ===== src/Storage/Progress.antt =====
-- storage/store.py: update_batch_progress, what a worker reports of a batch.
pub mod Effects
use agent_eval_orchestrator.Prelude.{
  ℕ, String, Bool, true, false, Option, none, some, List, ◌==◌, if◌then◌else◌,
}
use agent_eval_orchestrator.Table
use agent_eval_orchestrator.Json.{Fields}
use agent_eval_orchestrator.Storage.Schema.{
  Batch, CaseRun, Worker, Store, integrity_error, Result, ok, err, ◌>>=◌, or_raise,
}
use agent_eval_orchestrator.Storage.Cases.{CasePayload, case_rows}
use agent_eval_orchestrator.Storage.Batches.{batch_key, get_batch}
use agent_eval_orchestrator.Storage.Claim.{worker_key}

abbrev pub case_key : CaseRun → String
case_key c = c.case_run_id

abbrev pub in_batch : String → CaseRun → Bool
in_batch batch_id c = c.batch_id == batch_id

-- The arguments of the call.
pub record Progress : Type 0 where
  pub batch_id : String
  pub worker_id : String
  pub status : String
  pub current_step : Option String
  pub finished : Bool
  pub error_text : Option String
  pub summary : Option Fields
  pub cases : Option (List CasePayload)
  pub executor_metadata : Option Fields
  pub artifact_index : Option Fields

abbrev pub given {ℓ} : {A : Type ℓ} → Option A → A → A
given none old = old
given (some a) old = a

-- The UPDATE of the batch.
unfoldable pub report : Progress → ℕ → Batch → Batch
report p now b = record b {
  status = p.status;
  current_step = p.current_step;
  error_text = p.error_text;
  finished_at = if p.finished then some now else b.finished_at;
  summary = given p.summary b.summary;
  executor_metadata = given p.executor_metadata b.executor_metadata;
  artifact_index = given p.artifact_index b.artifact_index;
}

-- DELETE and the loop of INSERTs; `ids i` is the id drawn for the i-th case.
unfoldable pub replace_cases :
    (ℕ → String) → ℕ → String → List CasePayload → List CaseRun → Option (List CaseRun)
unfolding case_rows Table.insert_all
replace_cases ids now batch_id cases rows =
    Table.insert_all case_key (case_rows ids 0 batch_id now cases)
      (Table.delete_where (in_batch batch_id) rows)

unfoldable pub reported_cases : (ℕ → String) → ℕ → Progress → List CaseRun → Option (List CaseRun)
unfolding replace_cases
reported_cases ids now p rows = elim p.cases [
  | none ↦ some rows
  | some cases ↦ replace_cases ids now p.batch_id cases rows
]

abbrev pub heartbeat : ℕ → Worker → Worker
heartbeat now w = record w { last_heartbeat_at = some now; updated_at = now; status = "online" }

-- update_batch_progress: the state and the row that is read back.
unfoldable pub update_batch_progress :
    Store → (ids : ℕ → String) (now : ℕ) → Progress → Result (Store × Option Batch)
unfolding get_batch report reported_cases
update_batch_progress s ids now p = elim (get_batch s p.batch_id) [
  | none ↦ ok (s, none)
  | some _ ↦ do
    rows ← or_raise (reported_cases ids now p s.case_runs) (integrity_error "case_runs.case_run_id")
    let s' : Store = record s {
      batches = Table.update batch_key p.batch_id (report p now) s.batches;
      case_runs = rows;
      workers = Table.update worker_key p.worker_id (heartbeat now) s.workers;
    }
    ok (s', get_batch s' p.batch_id)
]
