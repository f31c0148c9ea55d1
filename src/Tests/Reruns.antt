-- ===== src/Tests/Reruns.antt =====
-- The end of an exception rerun, on a small state.
use agent_eval_orchestrator.Prelude.{String, ◌≡◌, ◌↔◌, refl, true, none, [], ◌∷◌, all, ◌==◌}
use agent_eval_orchestrator.Storage.Schema.{many, RunRerunJob, Store}
use agent_eval_orchestrator.Storage.Batches.{get_batch, is_terminal}
use agent_eval_orchestrator.Storage.Runs.{get_run}
use agent_eval_orchestrator.Storage.Rerun.{
  get_run_rerun_job, rerun_statuses, final_status, finish_rerun_batch_if_complete,
}
use agent_eval_orchestrator.Storage.Rerun.Completion.{
  IsRerun, Completed, finish_rerun_batch-Completed, final_status-succeeded,
}
use agent_eval_orchestrator.Tests.Data.{run_a, new_batch, two_queued}

abbrev job_a : RunRerunJob
job_a = record {
  job_id = "j1";
  run_id = "r1";
  status = "running";
  sync_job_id = none;
  case_ids = "y" ∷ [];
  worker_shards = ("w1", "y" ∷ []) ∷ [];
  rerun_batches = ("w1", many ("b3" ∷ "b4" ∷ [])) ∷ [];
  selected_error_types = [];
  error_text = none;
  created_at = 20;
  finished_at = none;
}

-- The batch "b3" of the rerun succeeded; the other has this status.
abbrev rerun_store : String → Store
rerun_store status = record two_queued {
  batches =
      new_batch "b3" "succeeded" "exception_rerun" none 21
      ∷ new_batch "b4" status "exception_rerun" none 21
      ∷ [];
  run_rerun_jobs = job_a ∷ [];
}

is_rerun :
    (status : String)
    → IsRerun
        (rerun_store status)
        "b3"
        (new_batch "b3" "succeeded" "exception_rerun" none 21)
        run_a
        "j1"
        job_a
unfolding get_batch get_run get_run_rerun_job
is_rerun status = record {
  batch_at = refl;
  kind = refl;
  run_at = refl;
  names = refl;
  proper = refl;
  job_at = refl;
}

stopped_is_terminal : all is_terminal (rerun_statuses (rerun_store "stopped") job_a) ≡ true
unfolding is_terminal rerun_statuses
stopped_is_terminal = refl

finish_rerun_batch-Completed_example :
    Completed
      (rerun_store "stopped")
      (finish_rerun_batch_if_complete (rerun_store "stopped") 70 "b3")
      70
      "r1"
      run_a
      job_a
      (final_status (rerun_statuses (rerun_store "stopped") job_a))
finish_rerun_batch-Completed_example =
    finish_rerun_batch-Completed (rerun_store "stopped") 70 "b3"
      (new_batch "b3" "succeeded" "exception_rerun" none 21) run_a "j1" job_a (is_rerun "stopped")
      stopped_is_terminal

two_are_terminal : all is_terminal ("succeeded" ∷ "failed" ∷ []) ≡ true
unfolding is_terminal
two_are_terminal = refl

final_status-succeeded_example :
    (final_status ("succeeded" ∷ "failed" ∷ []) ≡ "succeeded")
    ↔ (all (λ x. x == "succeeded") ("succeeded" ∷ "failed" ∷ []) ≡ true)
final_status-succeeded_example =
    final_status-succeeded ("succeeded" ∷ "failed" ∷ []) two_are_terminal
