-- ===== src/Controller/AssetSyncer.antt =====
-- controller/asset_syncer.py: what the sync jobs do to the database. The copies that _sync_cases,
-- _sync_bitfun and _sync_bind_assets make are not modelled; each returns or raises. The threads of
-- the workers are in Threads, their laws in the modules after it.
pub mod Threads
pub mod Steps
pub mod Shown
pub mod Blame
pub mod Soundness
pub mod Job
pub mod RerunJob
pub mod Entries
pub mod Patches
pub mod JobEnd
pub mod Ends
pub mod RerunEnd
pub mod RerunAlone
use agent_eval_orchestrator.Prelude.{
  String, ◌<>◌, Bool, not, true, false, List, [], ◌∷◌, if◌then◌else◌, ◌==◌,
}
use agent_eval_orchestrator.Json
use agent_eval_orchestrator.Text.{strip, is_empty}
use agent_eval_orchestrator.Json.{Value, text, obj, Fields, end, field, get, text_of, dict_of}
use agent_eval_orchestrator.Storage.Schema.{Step, WorkerSteps}
use agent_eval_orchestrator.Controller.StepRunner.{set_step_status}
use agent_eval_orchestrator.Core.WorkerPaths.{PurePath, to_path, path_text, child}
use agent_eval_orchestrator.Core.BindMounts.{build_sync_bind_mounts}

-- The entries of one worker, with a status for each.
unfoldable pub worker_steps : Bool → (cases assets : String) → List Step
worker_steps include_assets cases assets =
    record { id = "sync_cases"; label = "同步 dataset case"; status = cases }
    ∷ (if include_assets
        then record { id = "sync_assets"; label = "同步 bind assets"; status = assets } ∷ []
        else [])

unfoldable pub initial_worker_steps : List String → Bool → List WorkerSteps
unfolding worker_steps
initial_worker_steps [] include_assets = []
initial_worker_steps (w ∷ ws) include_assets =
    record { worker_id = w; steps = worker_steps include_assets "pending" "pending" }
    ∷ initial_worker_steps ws include_assets

unfoldable pub set_worker_step_status :
    List WorkerSteps → (worker_id step_id status : String) → List WorkerSteps
unfolding set_step_status
set_worker_step_status [] worker_id step_id status = []
set_worker_step_status (entry ∷ steps) worker_id step_id status =
    (if entry.worker_id == worker_id
      then record entry { steps = set_step_status entry.steps step_id status }
      else entry)
    ∷ set_worker_step_status steps worker_id step_id status

-- An entry of the manifest's bindAssets, as far as it is read here.
pub record BindTarget : Type 0 where
  pub source : String
  pub target_name : String

-- worker_asset_paths, where the target names are relative; in the dictionary a source that stands twice keeps its last path.
unfoldable pub worker_asset_paths : (target_root : String) → List BindTarget → Fields → Fields
unfolding Json.put to_path path_text
worker_asset_paths target_root [] paths = paths
worker_asset_paths target_root (a ∷ assets) paths = worker_asset_paths target_root assets (
    Json.put a.source
      (text (
        path_text
          (child (child (to_path target_root) ("assets" ∷ [])) (to_path a.target_name).components)))
      paths)

abbrev pub one_field : String → Value → Fields
one_field key value = field key value end

-- The patch of run_job's worker_thread.
unfoldable pub executor_patch :
    (PurePath → PurePath) → (worker_id target_root uv_binary : String) → List BindTarget → Fields
unfolding to_path path_text build_sync_bind_mounts worker_asset_paths
executor_patch expanduser worker_id target_root uv_binary assets =
    let root = path_text (to_path target_root) in
    field "datasetPathByWorker" (obj (one_field worker_id (text (root <> "/dataset")))) (
      field "assetPathsByWorker"
        (obj (one_field worker_id (obj (worker_asset_paths target_root assets end))))
        (field "mountsByWorker"
          (obj (one_field worker_id (build_sync_bind_mounts expanduser uv_binary root))) end))

-- The patch of sync_rerun_job's worker_thread.
unfoldable pub rerun_patch :
    (PurePath → PurePath) → (worker_id target_root uv_binary : String) → List BindTarget → Fields
unfolding to_path path_text build_sync_bind_mounts worker_asset_paths
rerun_patch expanduser worker_id target_root uv_binary assets =
    let root = path_text (to_path target_root) in
    let asset_paths = worker_asset_paths target_root assets end in
    field "datasetPathByWorker" (obj (one_field worker_id (text (root <> "/dataset")))) (
      field "mountsByWorker"
        (obj (one_field worker_id (build_sync_bind_mounts expanduser uv_binary root)))
        (elim asset_paths [
          | end ↦ end
          | field k v rest ↦
              one_field "assetPathsByWorker" (obj (one_field worker_id (obj (field k v rest))))
        ]))

-- rerun_needs_asset_sync
unfoldable pub rerun_needs_asset_sync : Fields → Bool
unfolding strip get
rerun_needs_asset_sync manifest = not (is_empty (strip (text_of (get "datasetPath" manifest))))
