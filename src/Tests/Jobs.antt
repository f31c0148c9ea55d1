-- ===== src/Tests/Jobs.antt =====
-- Provisioning jobs, on a small state.
use agent_eval_orchestrator.Prelude.{◌≡◌, refl, inr, none, some, [], ◌∷◌, All, ◌==◌, if◌then◌else◌}
use agent_eval_orchestrator.Table
use agent_eval_orchestrator.Storage.Schema.{ProvisionJob}
use agent_eval_orchestrator.Storage.Jobs.{get_provision_job}
use agent_eval_orchestrator.Controller.StepRunner.{State, Act, run_items, run_step}
use agent_eval_orchestrator.Controller.StepRunner.Progress.{IsSettled, IsSucceeded}
use agent_eval_orchestrator.Controller.Provisioner.{
  host, run_provision_job, initial_steps_for_mode, provision_items,
}
use agent_eval_orchestrator.Controller.Provisioner.Outcome.{
  HasJob, KeepsJob, IsOver, failure_status, end_error, provision_run, run_provision_job-IsOver,
}
use agent_eval_orchestrator.Controller.Provisioner.Success.{provision_run-IsSucceeded}
use agent_eval_orchestrator.Tests.Data.{two_queued}

abbrev provision_job : ProvisionJob
provision_job = record {
  job_id = "p1";
  worker_id = "w1";
  mode = "join";
  state = record {
    status = "pending";
    current_step = none;
    steps = [];
    log_text = "";
    error_text = none;
    created_at = 80;
    finished_at = none;
  };
}

abbrev begun : State
begun = record { store = record two_queued { provision_jobs = provision_job ∷ [] }; cancelled = [] }

-- Every action succeeds but the bootstrap.
abbrev no_bootstrap : Act
no_bootstrap id st = (st, if id == "bootstrap" then some "exit code 1" else none)

begun-HasJob : HasJob "p1" begun
unfolding get_provision_job Table.find
begun-HasJob = (provision_job, refl)

no_bootstrap-KeepsJob : KeepsJob "p1" no_bootstrap
no_bootstrap-KeepsJob id st h = h

run_provision_job-IsOver_example :
    IsOver
      (run_provision_job no_bootstrap "p1" "w1" "fresh" "direct" 85 (host "h1") begun)
      "p1"
      "w1"
      85
      (provision_run no_bootstrap "p1" "fresh" "direct" 85 begun).steps
      (end_error "direct" (host "h1") (provision_run no_bootstrap "p1" "fresh" "direct" 85 begun))
      (failure_status (provision_run no_bootstrap "p1" "fresh" "direct" 85 begun).state "p1")
    × All IsSettled (provision_run no_bootstrap "p1" "fresh" "direct" 85 begun).steps
run_provision_job-IsOver_example =
    run_provision_job-IsOver no_bootstrap "p1" "w1" "fresh" "direct" 85 (host "h1") begun
      no_bootstrap-KeepsJob begun-HasJob

joined : (provision_run no_bootstrap "p1" "join" "tunnel" 85 begun).raised ≡ none
unfolding initial_steps_for_mode provision_items run_items run_step
joined = refl

provision_run-IsSucceeded_example :
    All IsSucceeded (provision_run no_bootstrap "p1" "join" "tunnel" 85 begun).steps
provision_run-IsSucceeded_example =
    provision_run-IsSucceeded no_bootstrap "p1" "join" "tunnel" 85 begun (inr refl) joined
