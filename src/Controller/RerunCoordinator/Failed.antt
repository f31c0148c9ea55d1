-- ===== src/Controller/RerunCoordinator/Failed.antt =====
-- A start of a rerun that fails after the lock (controller/run_rerun_coordinator.py).
use agent_eval_orchestrator.Prelude.{String, ◌≡◌, refl, ◌∙◌, true, some}
use agent_eval_orchestrator.Storage.Schema.{Run, RunRerunJob, Store}
use agent_eval_orchestrator.Storage.Runs.{get_run, update_run_rerun_fields}
use agent_eval_orchestrator.Storage.Rerun.{get_run_rerun_job}
use agent_eval_orchestrator.Controller.AssetSyncer.RerunEnd.{job_row, run-job}
use agent_eval_orchestrator.Controller.RerunCoordinator.{
  Failure, RerunScope, Fresh, stopped, reserved,
}
use agent_eval_orchestrator.Controller.RerunCoordinator.Start.{
  World, complete, mark_derived_rerun_failed, text_of_failure, failed_start, after_lock,
}
use agent_eval_orchestrator.Controller.RerunCoordinator.Reserve.{rerun_fields-both, jobs-fields}

-- The derived run and its job after the except clause.
pub record IsFailed (fresh : Fresh) (s : Store) : Type 0 where
  pub run : Run
  pub run_at : get_run s fresh.run_id ≡ some run
  pub run_is : run.rerun_status ≡ "failed"
  pub job : RunRerunJob
  pub job_at : get_run_rerun_job s fresh.job_id ≡ some job
  pub job_is : job.status ≡ "failed"
  pub finished : job.finished_at ≡ some fresh.now

mark-IsFailed :
    (s : Store) (fresh : Fresh) (text : String) (r : Run) (j : RunRerunJob)
    → get_run s fresh.run_id ≡ some r
    → get_run_rerun_job s fresh.job_id ≡ some j
    → IsFailed fresh (mark_derived_rerun_failed s fresh.now fresh.run_id fresh.job_id text)
unfolding mark_derived_rerun_failed
mark-IsFailed s fresh text r j hr hj =
    let s1 =
      (update_run_rerun_fields s fresh.run_id fresh.now (some "failed") (some fresh.job_id)).0 in
    let row = job_row s1 fresh.now fresh.job_id "failed" (some text) true j (
      jobs-fields s fresh.run_id fresh.job_id fresh.now (some "failed") (some fresh.job_id) ∙ hj) in
    rw (hj, mark_derived_rerun_failed)
      (record {
        run = record r {
          rerun_status = "failed";
          rerun_job_id = some fresh.job_id;
          updated_at = fresh.now;
        };
        run_at =
            run-job s1 fresh.now fresh.job_id fresh.run_id "failed" (some text) true
            ∙ rerun_fields-both s fresh.run_id fresh.now "failed" fresh.job_id r hr;
        run_is = refl;
        job = row.0;
        job_at = row.1;
        job_is = row.2;
        finished = row.3;
      })

-- A start whose part after the lock raises, whatever it has written until then but the rows of the
-- derived run and of its job, raises the same, and leaves both failed, the job with its finish time.
pub after_lock-IsFailed :
    (root : String) (world : World) (fresh : Fresh) (source : String) (scope : RerunScope)
    (s s1 : Store) (derived : String) (f : Failure) (r : Run) (j : RunRerunJob)
    → complete root world s fresh source scope ≡ stopped s1 f
    → get_run s1 fresh.run_id ≡ some r
    → get_run_rerun_job s1 fresh.job_id ≡ some j
    → (s' : Store) × (after_lock root world fresh source scope (reserved s derived) ≡ stopped s' f)
      × IsFailed fresh s'
unfolding after_lock failed_start
after_lock-IsFailed root world fresh source scope s s1 derived f r j stop hr hj = (
  mark_derived_rerun_failed s1 fresh.now fresh.run_id fresh.job_id (text_of_failure f),
  rw (stop, after_lock) refl,
  mark-IsFailed s1 fresh (text_of_failure f) r j hr hj,
)
