-- ===== src/Controller/WorkerUpdater.antt =====
-- controller/worker_updater.py: updating the code of a worker. What the steps do over ssh is the
-- `Act` of StepRunner.
pub mod Outcome
use agent_eval_orchestrator.Prelude.{
  ℕ, String, ◌<>◌, Bool, true, false, not, Option, none, some, List, [], ◌∷◌, ◌++◌, any, ◌==◌,
  if◌then◌else◌,
}
use agent_eval_orchestrator.Text.{strip, is_empty}
use agent_eval_orchestrator.Json.{Fields, get, text_of}
use agent_eval_orchestrator.Core.WorkerPaths.{
  PurePath, to_path, path_text, child, repo_root_from_shared_root, workspace_root_from_shared_root,
  default_harbor_repo_from_shared_root, default_uv_binary_from_shared_root,
}
use agent_eval_orchestrator.Storage.Schema.{
  Step, Store, Error, runtime_error, Result, ok, err, ◌>>=◌, or_raise,
}
use agent_eval_orchestrator.Storage.Jobs.{JobPatch, no_patch, update_worker_update_job}
use agent_eval_orchestrator.Controller.StepRunner.{
  pending_steps, State, is_cancelled, Act, Item, run, require, Ended, run_items,
}

-- UPDATE_STEP_LABELS
abbrev pub update_step_label : String → String
update_step_label id =
    if id == "validate_ssh"
    then "校验 SSH 连接"
    else if id == "stop_daemon"
    then "停止 Worker Daemon"
    else if id == "pull_aeo"
    then "更新 AEO 代码"
    else if id == "sync_aeo"
    then "同步 AEO 依赖 (uv sync)"
    else if id == "pull_harbor"
    then "更新 Harbor 代码"
    else if id == "restart_daemon"
    then "重启 Worker Daemon"
    else "等待 Worker 注册"

-- `name in targets`
abbrev pub is_target : String → List String → Bool
is_target name targets = any (λ t. t == name) targets

-- initial_update_step_ids
unfoldable pub initial_update_step_ids : List String → List String
initial_update_step_ids targets =
    "validate_ssh"
    ∷ "stop_daemon"
    ∷ ((if is_target "aeo" targets then "pull_aeo" ∷ "sync_aeo" ∷ [] else [])
        ++ (if is_target "harbor" targets then "pull_harbor" ∷ [] else [])
        ++ "restart_daemon" ∷ "wait_register" ∷ [])

pub record UpdatePaths : Type 0 where
  pub aeo_dir : String
  pub harbor_dir : String
  pub uv_bin : String
  pub shared_root : String
  pub log_dir : String

abbrev text_or : String → Option PurePath → String
text_or default none = default
text_or default (some p) = path_text p

-- resolve_paths, of the worker's capabilities.
unfoldable pub resolve_paths : (PurePath → PurePath) → Fields → Result UpdatePaths
unfolding strip get path_text
resolve_paths expanduser capabilities = do
  let shared_root = strip (text_of (get "sharedRoot" capabilities))
  present ←
      if is_empty shared_root
      then err (runtime_error "worker capabilities.sharedRoot is missing")
      else ok shared_root
  aeo_repo ←
      or_raise (repo_root_from_shared_root expanduser present)
        (runtime_error ("cannot derive aeo repo from sharedRoot: " <> present))
  let workspace = workspace_root_from_shared_root expanduser present
  ok (record {
    aeo_dir = path_text aeo_repo;
    harbor_dir = text_or "" (default_harbor_repo_from_shared_root expanduser present);
    uv_bin =
        text_or "/home/djn/.local/bin/uv" (default_uv_binary_from_shared_root expanduser present);
    shared_root = path_text (expanduser (to_path present));
    log_dir = elim workspace [
      | none ↦ "/home/djn/worker/logs"
      | some w ↦ path_text (child w ("logs" ∷ []))
    ];
  })

-- The statements in the `try` of run_job up to its last one.
unfoldable pub update_items : List String → (harbor_dir : String) → List Item
update_items targets harbor_dir =
    run "validate_ssh"
    ∷ run "stop_daemon"
    ∷ ((if is_target "aeo" targets then run "pull_aeo" ∷ run "sync_aeo" ∷ [] else [])
        ++ (if is_target "harbor" targets
            then require (not (is_empty harbor_dir)) "cannot derive harbor repo from sharedRoot"
              ∷ run "pull_harbor"
              ∷ []
            else [])
        ++ run "restart_daemon" ∷ run "wait_register" ∷ [])

-- update_worker_update_job(job_id, current_step=..., steps=...) of _run_step.
unfoldable pub save_update_step : String → ℕ → Store → String → List Step → Store
save_update_step job_id now s step_id steps =
    (update_worker_update_job s job_id now
      (record no_patch { current_step = some step_id; steps = some steps })).0

-- What follows the steps, and the except clause.
unfoldable pub update_end : (job_id : String) (now : ℕ) → Ended → State
update_end job_id now e = record e.state {
  store =
      (update_worker_update_job e.state.store job_id now (elim e.raised [
        | none ↦ record no_patch {
          status = some "succeeded";
          steps = some e.steps;
          finished = true;
        }
        | some text ↦ record {
          status = some (if is_cancelled e.state job_id then "cancelled" else "failed");
          current_step = none;
          steps = some e.steps;
          error_text = some text;
          finished = true;
        }
      ])).0;
}

-- The first two statements of run_job: the row is written before the paths are looked up.
unfoldable pub update_started : (job_id : String) (now : ℕ) → List String → State → State
update_started job_id now targets st = record st {
  store =
      (update_worker_update_job st.store job_id now (record no_patch {
        status = some "running";
        steps = some (pending_steps update_step_label (initial_update_step_ids targets));
      })).0;
}

-- run_job: the state, and the exception that leaves it. `paths` is what resolve_paths gives; it is
-- called before the `try`.
unfoldable pub run_update_job :
    (act : Act) (job_id : String) (targets : List String) (now : ℕ)
    → Result UpdatePaths
    → State
    → State × Option Error
run_update_job act job_id targets now paths st =
    let started = update_started job_id now targets st in
    elim paths [
      | err e ↦ (started, some e)
      | ok p ↦
          let final = update_end job_id now (
            run_items (save_update_step job_id now) act job_id "update job cancelled"
              (update_items targets p.harbor_dir)
              (pending_steps update_step_label (initial_update_step_ids targets)) started) in
          (final, none)
    ]

-- cancel_job, after the remote processes are stopped.
unfoldable pub cancel_update_job : (job_id : String) (now : ℕ) → State → State
cancel_update_job job_id now st = record {
  store =
      (update_worker_update_job st.store job_id now
        (record no_patch { status = some "cancelled"; finished = true })).0;
  cancelled = job_id ∷ st.cancelled;
}
