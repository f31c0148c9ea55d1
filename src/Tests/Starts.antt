-- ===== src/Tests/Starts.antt =====
-- Starts of a rerun, on a small state.
use agent_eval_orchestrator.Prelude.{◌≡◌, refl, none, some, [], ◌∷◌}
use agent_eval_orchestrator.Storage.Schema.{Run, Template, RunRerunJob, Store}
use agent_eval_orchestrator.Storage.Runs.{get_run}
use agent_eval_orchestrator.Storage.Rerun.{get_run_rerun_job}
use agent_eval_orchestrator.Controller.RerunCoordinator.{
  Failure, failed, RerunScope, Fresh, Outcome, done, stopped, Reserved, refused, reserved, reserve,
}
use agent_eval_orchestrator.Controller.RerunCoordinator.Start.{
  World, complete, after_lock, start_rerun,
}
use agent_eval_orchestrator.Controller.RerunCoordinator.Reserve.{IsReserved}
use agent_eval_orchestrator.Controller.RerunCoordinator.Once.{reserve-once}
use agent_eval_orchestrator.Controller.RerunCoordinator.Failed.{IsFailed, after_lock-IsFailed}
use agent_eval_orchestrator.Tests.Data.{template_a, run_a, two_queued, fresh_ids, later_ids}

abbrev idle_run : Run
idle_run = record run_a { rerun_status = "idle"; rerun_job_id = none }

abbrev idle : Store
idle = record two_queued { runs = idle_run ∷ [] }

abbrev fresh : Fresh
fresh = record {
  now = 60;
  stamp = "20260101";
  template_id = "t2";
  run_id = "r2";
  job_id = "j2";
  clone_ids = fresh_ids;
  case_ids = λ i. fresh_ids;
  batch_ids = later_ids;
}

abbrev other_fresh : Fresh
other_fresh = record fresh { now = 61; template_id = "t3"; run_id = "r3"; job_id = "j3" }

abbrev scope : RerunScope
scope = record {
  selected_error_types = "TimeoutError" ∷ [];
  grouped = ("w1", ("b0", "y") ∷ []) ∷ [];
}

abbrev store_of : Reserved → Store
store_of (refused s derived f) = s
store_of (reserved s derived) = s

abbrev started : Store
started = store_of (reserve idle fresh none idle_run template_a scope)

start_test : reserve idle fresh none idle_run template_a scope ≡ reserved started "r2"
unfolding reserve
start_test = refl

-- Nothing is configured; the copy of the jobs raises.
abbrev full_disk : World
full_disk = record {
  prepare = λ s. stopped s (failed "no space left");
  configure = λ s. done s none;
}

abbrev resolve_scope : Store → Run → Template → Outcome RerunScope
resolve_scope s run template = done s scope

reserve-once_example :
    IsReserved fresh "r1" scope started
    × ((f : Failure) × (start_rerun "/runtime" full_disk started other_fresh none resolve_scope "r1"
          ≡ stopped started f))
reserve-once_example =
    reserve-once "/runtime" full_disk idle fresh none idle_run template_a scope started "r2" started
      other_fresh none resolve_scope start_test refl

run_test : (r : Run) × (get_run started "r2" ≡ some r)
unfolding reserve get_run
run_test = (_, refl)

job_test : (j : RunRerunJob) × (get_run_rerun_job started "j2" ≡ some j)
unfolding reserve get_run_rerun_job
job_test = (_, refl)

complete_test :
    complete "/runtime" full_disk started fresh "r1" scope
    ≡ stopped started (failed "no space left")
unfolding complete
complete_test = refl

after_lock-IsFailed_example :
    (s' : Store) × (after_lock "/runtime" full_disk fresh "r1" scope (reserved started "r2")
      ≡ stopped s' (failed "no space left"))
    × IsFailed fresh s'
after_lock-IsFailed_example =
    after_lock-IsFailed "/runtime" full_disk fresh "r1" scope started started "r2"
      (failed "no space left") run_test.0 job_test.0 complete_test run_test.1 job_test.1
