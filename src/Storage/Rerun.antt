-- ===== src/Storage/Rerun.antt =====
-- storage/store.py: the jobs of exception reruns, and when a rerun is complete.
pub mod Completion
use agent_eval_orchestrator.Prelude.{
  ℕ, String, Bool, true, false, not, ◌&&◌, ◌||◌, Option, none, some, List, [], ◌∷◌, ◌++◌, map,
  filter, all, any, coalesce, latest_by, ◌==◌, if◌then◌else◌,
}
use agent_eval_orchestrator.Table
use agent_eval_orchestrator.Text.{or_empty, is_empty}
use agent_eval_orchestrator.Storage.Schema.{
  Batch, Run, BatchRef, one, many, RunRerunJob, Store, integrity_error, Result, ok, err,
}
use agent_eval_orchestrator.Storage.Runs.{get_run, update_run_rerun_fields}
use agent_eval_orchestrator.Storage.Batches.{get_batch, is_terminal}

abbrev pub rerun_job_key : RunRerunJob → String
rerun_job_key j = j.job_id

unfoldable pub get_run_rerun_job : Store → String → Option RunRerunJob
unfolding Table.find
get_run_rerun_job s job_id = Table.find rerun_job_key job_id s.run_rerun_jobs

-- create_run_rerun_job
unfoldable pub create_run_rerun_job :
    Store
    → (job_id run_id : String) (now : ℕ) (case_ids : List String)
    → (worker_shards : List (String × List String)) (rerun_batches : List (String × BatchRef))
    → (selected_error_types : Option (List String)) → Result (Store × RunRerunJob)
unfolding Table.insert
create_run_rerun_job s job_id run_id now case_ids worker_shards rerun_batches selected =
    let row : RunRerunJob = record {
      job_id = job_id;
      run_id = run_id;
      status = "pending";
      sync_job_id = none;
      case_ids = case_ids;
      worker_shards = worker_shards;
      rerun_batches = rerun_batches;
      selected_error_types = elim selected [ none ↦ [] | some types ↦ types ];
      error_text = none;
      created_at = now;
      finished_at = none;
    } in
    elim (Table.insert rerun_job_key row s.run_rerun_jobs) [
      | none ↦ err (integrity_error "run_rerun_jobs.job_id")
      | some rows ↦ ok (record s { run_rerun_jobs = rows }, row)
    ]

-- update_run_rerun_job: the state, and the row as it is then.
unfoldable pub update_run_rerun_job :
    Store
    → (job_id : String) (now : ℕ)
    → (status sync_job_id : Option String) (rerun_batches : Option (List (String × BatchRef)))
    → (error_text : Option String) (finished : Bool) → Store × Option RunRerunJob
update_run_rerun_job s job_id now status sync_job_id rerun_batches error_text finished =
    elim (get_run_rerun_job s job_id) [
      | none ↦ (s, none)
      | some row ↦
          let s' : Store = record s {
            run_rerun_jobs =
                Table.update rerun_job_key job_id
                  (λ j. record j {
                    status = elim status [ none ↦ row.status | some x ↦ x ];
                    sync_job_id = coalesce sync_job_id row.sync_job_id;
                    rerun_batches = elim rerun_batches [ none ↦ row.rerun_batches | some x ↦ x ];
                    error_text = coalesce error_text row.error_text;
                    finished_at = if finished then some now else row.finished_at;
                  })
                  s.run_rerun_jobs;
          } in
          (s', get_run_rerun_job s' job_id)
    ]

-- get_active_run_rerun_job
unfoldable pub get_active_run_rerun_job : Store → String → Option RunRerunJob
get_active_run_rerun_job s run_id =
    latest_by (λ j. j.created_at)
      (filter (λ j. j.run_id == run_id && (j.status == "pending" || j.status == "running"))
        s.run_rerun_jobs)

-- One value of the dictionary: an empty text gives no pair.
abbrev ref_pairs : String → BatchRef → List (String × String)
ref_pairs worker_id (many ids) = map (λ (id : String). (worker_id, id)) ids
ref_pairs worker_id (one id) = if is_empty id then [] else (worker_id, id) ∷ []

-- iter_run_rerun_batch_ids
unfoldable pub iter_run_rerun_batch_ids : List (String × BatchRef) → List (String × String)
iter_run_rerun_batch_ids [] = []
iter_run_rerun_batch_ids ((worker_id, ref) ∷ refs) =
    ref_pairs worker_id ref ++ iter_run_rerun_batch_ids refs

abbrev status_of : Option Batch → String
status_of none = "missing"
status_of (some b) = b.status

-- The list `statuses` of finish_rerun_batch_if_complete.
unfoldable pub rerun_statuses : Store → RunRerunJob → List String
unfolding get_batch iter_run_rerun_batch_ids
rerun_statuses s job =
    map (λ (pair : String × String). status_of (get_batch s pair.1))
      (iter_run_rerun_batch_ids job.rerun_batches)

-- `status in {"failed", "sync_failed", "stopped"}`
abbrev pub is_failure : String → Bool
is_failure status = status == "failed" || status == "sync_failed" || status == "stopped"

unfoldable pub final_status : List String → String
final_status statuses = if any is_failure statuses then "failed" else "succeeded"

-- The writes at the end, where every rerun batch is terminal.
unfoldable pub finish_job : Store → ℕ → String → RunRerunJob → List String → Store
finish_job s now run_id job statuses =
    if not (all is_terminal statuses)
    then s
    else let final = final_status statuses in
      (update_run_rerun_job (update_run_rerun_fields s run_id now (some final) none).0 job.job_id
        now (some final) none none none true).0

-- finish_rerun_batch_if_complete
unfoldable pub finish_rerun_batch_if_complete : Store → ℕ → String → Store
finish_rerun_batch_if_complete s now rerun_batch_id = elim (get_batch s rerun_batch_id) [
  | none ↦ s
  | some batch ↦
      if not (batch.batch_kind == "exception_rerun") then s else elim (get_run s batch.run_id) [
        | none ↦ s
        | some run ↦
            let job_id = or_empty run.rerun_job_id in
            if is_empty job_id then s else elim (get_run_rerun_job s job_id) [
              | none ↦ s
              | some job ↦ finish_job s now batch.run_id job (rerun_statuses s job)
            ]
      ]
]
