-- ===== src/Tests/Updates.antt =====
-- Worker update jobs, on a small state.
use agent_eval_orchestrator.Prelude.{◌≡◌, refl, none, some, [], ◌∷◌, All, ◌==◌, if◌then◌else◌}
use agent_eval_orchestrator.Table
use agent_eval_orchestrator.Json.{text, end, field}
use agent_eval_orchestrator.Storage.Schema.{WorkerUpdateJob, Error, runtime_error, ok, err}
use agent_eval_orchestrator.Storage.Jobs.{get_worker_update_job}
use agent_eval_orchestrator.Core.WorkerPaths.{
  to_path, path_text, name_of, parent_of, repo_root_from_shared_root,
  workspace_root_from_shared_root, user_home_from_shared_root, default_harbor_repo_from_shared_root,
  default_uv_binary_from_shared_root,
}
use agent_eval_orchestrator.Text.{strip, split}
use agent_eval_orchestrator.Controller.StepRunner.{State, Act, run_step, run_items}
use agent_eval_orchestrator.Controller.StepRunner.Progress.{IsSettled, IsSucceeded}
use agent_eval_orchestrator.Controller.WorkerUpdater.{
  initial_update_step_ids, UpdatePaths, resolve_paths, update_items, update_started, run_update_job,
}
use agent_eval_orchestrator.Controller.WorkerUpdater.Outcome.{
  KeepsUpdateJob, UpdateEndsAs, end_status, update_job_run, run_update_job-UpdateEndsAs,
  update_job_run-IsSucceeded,
}
use agent_eval_orchestrator.Tests.Data.{two_queued}

abbrev update_job : WorkerUpdateJob
update_job = record {
  job_id = "u1";
  worker_id = "w1";
  targets = "aeo" ∷ [];
  state = record {
    status = "pending";
    current_step = none;
    steps = [];
    log_text = "";
    error_text = none;
    created_at = 80;
    finished_at = none;
  };
}

abbrev ready : State
ready = record {
  store = record two_queued { worker_update_jobs = update_job ∷ [] };
  cancelled = [];
}

abbrev paths : UpdatePaths
paths = record {
  aeo_dir = "/home/wt/worker/aeo";
  harbor_dir = "/home/wt/worker/harbor";
  uv_bin = "/home/wt/.local/bin/uv";
  shared_root = "/home/wt/worker/aeo/runtime";
  log_dir = "/home/wt/worker/logs";
}

-- The paths of a worker with this shared root, where `~` is not used.
resolve_paths_test :
    resolve_paths (λ path. path) (field "sharedRoot" (text " /home/wt/worker/aeo/runtime") end)
    ≡ ok paths
unfolding resolve_paths repo_root_from_shared_root workspace_root_from_shared_root
    user_home_from_shared_root default_harbor_repo_from_shared_root
    default_uv_binary_from_shared_root to_path path_text name_of parent_of strip split
resolve_paths_test = refl

abbrev missing_root : Error
missing_root = runtime_error "worker capabilities.sharedRoot is missing"

resolve_paths_missing_test : resolve_paths (λ path. path) end ≡ err missing_root
unfolding resolve_paths
resolve_paths_missing_test = refl

-- Every action succeeds but the pull of the repository.
abbrev no_pull : Act
no_pull id st = (st, if id == "pull_aeo" then some "git pull failed" else none)

ready_found : get_worker_update_job ready.store "u1" ≡ some update_job
unfolding get_worker_update_job Table.find
ready_found = refl

no_pull-KeepsUpdateJob : KeepsUpdateJob "u1" no_pull
no_pull-KeepsUpdateJob id st h = h

run_update_job-UpdateEndsAs_example :
    ((run_update_job no_pull "u1" ("aeo" ∷ []) 85 (ok paths) ready).1 ≡ none)
    × UpdateEndsAs
        (run_update_job no_pull "u1" ("aeo" ∷ []) 85 (ok paths) ready).0
        "u1"
        85
        (end_status "u1" (update_job_run no_pull "u1" ("aeo" ∷ []) 85 paths ready))
        (update_job_run no_pull "u1" ("aeo" ∷ []) 85 paths ready).steps
    × All IsSettled (update_job_run no_pull "u1" ("aeo" ∷ []) 85 paths ready).steps
run_update_job-UpdateEndsAs_example =
    run_update_job-UpdateEndsAs no_pull "u1" ("aeo" ∷ []) 85 paths ready no_pull-KeepsUpdateJob
      (update_job, ready_found)

harbor_run : (update_job_run no_pull "u1" ("harbor" ∷ []) 85 paths ready).raised ≡ none
unfolding initial_update_step_ids update_items update_started run_items run_step
harbor_run = refl

update_job_run-IsSucceeded_example :
    All IsSucceeded (update_job_run no_pull "u1" ("harbor" ∷ []) 85 paths ready).steps
update_job_run-IsSucceeded_example =
    update_job_run-IsSucceeded no_pull "u1" ("harbor" ∷ []) 85 paths ready harbor_run
