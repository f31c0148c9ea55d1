-- ===== src/Controller/Provisioner.antt =====
-- controller/provisioner.py: bringing up a worker. The remote commands and the tunnel process are
-- not modelled; what they do is the `Act` of StepRunner.
pub mod Outcome
pub mod Success
use agent_eval_orchestrator.Prelude.{
  ℕ, String, ◌<>◌, Bool, true, false, not, ◌&&◌, Option, none, some, List, [], ◌∷◌, ◌++◌, filter,
  ◌==◌, if◌then◌else◌,
}
use agent_eval_orchestrator.Text.{strip, or_empty, is_empty}
use agent_eval_orchestrator.Storage.Schema.{Step, Store}
use agent_eval_orchestrator.Storage.Jobs.{JobPatch, no_patch, update_provision_job}
use agent_eval_orchestrator.Storage.Workers.{update_worker_host, set_worker_provision_status}
use agent_eval_orchestrator.Controller.StepRunner.{
  pending_steps, State, is_cancelled, Act, Item, run, require, Ended, run_items,
}

-- STEP_LABELS
abbrev pub step_label : String → String
step_label id =
    if id == "validate_ssh"
    then "校验 SSH 连接"
    else if id == "bootstrap"
    then "Bootstrap 系统环境"
    else if id == "verify_layout"
    then "校验 Worker 目录结构"
    else if id == "establish_tunnel"
    then "建立反向隧道"
    else if id == "start_daemon"
    then "启动 Worker Daemon"
    else "等待 Worker 注册"

abbrev pub fresh_step_ids : List String
fresh_step_ids =
    "validate_ssh" ∷ "bootstrap" ∷ "verify_layout" ∷ "establish_tunnel" ∷ "start_daemon"
    ∷ "wait_register" ∷ []

abbrev pub join_step_ids : List String
join_step_ids =
    "validate_ssh" ∷ "verify_layout" ∷ "establish_tunnel" ∷ "start_daemon" ∷ "wait_register" ∷ []

-- initial_steps_for_mode
unfoldable pub initial_steps_for_mode : String → String → List Step
unfolding pending_steps
initial_steps_for_mode mode connection_mode =
    let ids = if mode == "fresh" then fresh_step_ids else join_step_ids in
    pending_steps step_label (
      if connection_mode == "direct"
      then filter (λ id. not (id == "establish_tunnel")) ids
      else ids)

-- The steps that run_job runs, in order, with its two conditions.
unfoldable pub provision_items : String → String → List Item
provision_items mode connection_mode =
    run "validate_ssh"
    ∷ ((if mode == "fresh" then run "bootstrap" ∷ [] else [])
        ++ run "verify_layout"
          ∷ ((if connection_mode == "tunnel" then run "establish_tunnel" ∷ [] else [])
              ++ run "start_daemon" ∷ run "wait_register" ∷ []))

-- update_provision_job(job_id, current_step=..., steps=...) of _run_step.
unfoldable pub save_provision_step : String → ℕ → Store → String → List Step → Store
save_provision_step job_id now s step_id steps =
    (update_provision_job s job_id now
      (record no_patch { current_step = some step_id; steps = some steps })).0

-- What resolve_ssh_alias gives from the ssh configuration file: a host name, or an exception.
pub data Resolved : Type 0 where
  host : String → Resolved
  unresolved : String → Resolved

-- The except clause, for an exception with this text.
unfoldable pub provision_failed :
    (job_id worker_id : String) (now : ℕ) → List Step → String → State → State
provision_failed job_id worker_id now steps text st = record st {
  store =
      (update_provision_job
        (set_worker_provision_status st.store worker_id "failed" (some text) now) job_id now
        (record {
          status = some (if is_cancelled st job_id then "cancelled" else "failed");
          current_step = none;
          steps = some steps;
          error_text = some text;
          finished = true;
        })).0;
}

unfoldable pub provision_succeeded :
    (job_id worker_id : String) (now : ℕ) → List Step → State → State
provision_succeeded job_id worker_id now steps st = record st {
  store =
      (update_provision_job (set_worker_provision_status st.store worker_id "ready" none now) job_id
        now (record no_patch { status = some "succeeded"; steps = some steps; finished = true })).0;
}

-- What follows the steps: in direct mode the host name is looked up, which may raise.
unfoldable pub provision_end :
    (job_id worker_id connection_mode : String) (now : ℕ) → Resolved → Ended → State
provision_end job_id worker_id connection_mode now resolved e = elim e.raised [
  | some text ↦ provision_failed job_id worker_id now e.steps text e.state
  | none ↦
      if connection_mode == "direct"
      then elim resolved [
        | unresolved text ↦ provision_failed job_id worker_id now e.steps text e.state
        | host name ↦
            provision_succeeded job_id worker_id now e.steps
              (record e.state { store = update_worker_host e.state.store worker_id name now })
      ]
      else provision_succeeded job_id worker_id now e.steps e.state
]

-- Provisioner.run_job
unfoldable pub run_provision_job :
    (act : Act)
    → (job_id worker_id mode connection_mode : String) (now : ℕ) → Resolved
    → State
    → State
run_provision_job act job_id worker_id mode connection_mode now resolved st =
    let steps = initial_steps_for_mode mode connection_mode in
    let started : State = record st {
      store =
          (update_provision_job st.store job_id now
            (record no_patch { status = some "running"; steps = some steps })).0;
    } in
    provision_end job_id worker_id connection_mode now resolved (
      run_items (save_provision_step job_id now) act job_id "provision job cancelled"
        (provision_items mode connection_mode) steps started)

-- Provisioner.cancel_job; decommission_worker stops remote processes and writes no row.
unfoldable pub cancel_provision_job : (job_id : String) (now : ℕ) → State → State
cancel_provision_job job_id now st = record {
  store =
      (update_provision_job st.store job_id now
        (record no_patch { status = some "cancelled"; finished = true })).0;
  cancelled = job_id ∷ st.cancelled;
}

-- What the two remote commands of decommission_worker come to: the exception of kill_tunnel, and
-- of ssh_run the exception, or its exit code being zero and its stderr.
pub data SshPkill : Type 0 where
  raised : String → SshPkill
  exited : Bool → String → SshPkill

pub record Decommission : Type 0 where
  pub remote_cleanup : String
  pub warnings : List String

abbrev tunnel_warnings : String → Option String → List String
tunnel_warnings mode none = []
tunnel_warnings mode (some text) =
    if mode == "tunnel" then ("failed to kill tunnel: " <> text) ∷ [] else []

abbrev pkill_warnings : SshPkill → List String
pkill_warnings (raised text) = ("ssh pkill failed: " <> text) ∷ []
pkill_warnings (exited true stderr) = []
pkill_warnings (exited false stderr) =
    if is_empty (strip stderr) then [] else ("ssh pkill failed: " <> strip stderr) ∷ []

abbrev no_warnings : List String → Bool
no_warnings [] = true
no_warnings (w ∷ ws) = false

-- decommission_worker
unfoldable pub decommission_worker :
    (ssh_host_alias : Option String) (connection_mode : String)
    → Option String
    → SshPkill
    → Decommission
decommission_worker alias connection_mode kill pkill =
    if is_empty (or_empty alias)
    then record { remote_cleanup = "skipped"; warnings = [] }
    else let warnings = tunnel_warnings connection_mode kill ++ pkill_warnings pkill in
      record {
        remote_cleanup = if no_warnings warnings then "done" else "partial";
        warnings = warnings;
      }
