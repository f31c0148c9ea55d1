-- ===== src/Controller/AssetSyncer/RerunJob.antt =====
-- sync_rerun_job of controller/asset_syncer.py before and after its threads. The id that new_id
-- gives the sync job is an argument.
use agent_eval_orchestrator.Prelude.{
  ℕ, String, ◌<>◌, Bool, true, false, not, ◌&&◌, ◌||◌, none, some, List, [], ◌∷◌, map, filter,
  if◌then◌else◌,
}
use agent_eval_orchestrator.Json.{Fields, get, text_of, dict_of}
use agent_eval_orchestrator.Text.{is_empty, strip, joined}
use agent_eval_orchestrator.Storage.Schema.{
  Run, RunRerunJob, WorkerSteps, Store, Error, runtime_error, ok, err,
}
use agent_eval_orchestrator.Storage.Runs.{get_run, update_run_rerun_fields}
use agent_eval_orchestrator.Storage.Templates.{get_task_template}
use agent_eval_orchestrator.Storage.Rerun.{get_run_rerun_job, update_run_rerun_job}
use agent_eval_orchestrator.Storage.Batches.{promote_worker_batches_to_queued}
use agent_eval_orchestrator.Storage.Jobs.{no_patch, create_asset_sync_job, update_asset_sync_job}
use agent_eval_orchestrator.Core.WorkerPaths.{PurePath}
use agent_eval_orchestrator.Controller.AssetSyncer.{
  initial_worker_steps, set_worker_step_status, rerun_patch, rerun_needs_asset_sync,
}
use agent_eval_orchestrator.Controller.AssetSyncer.Threads.{Plan, Sync, spawn}
use agent_eval_orchestrator.Controller.AssetSyncer.Job.{
  bind_targets, bind_assets_of, entry_of, config_of, uv_binary_of,
}

-- What a rerun's sync is about: the run, its rerun job and its sync job.
pub record RerunIds : Type 0 where
  pub run_id : String
  pub job_id : String
  pub sync_job_id : String

-- _finish_rerun_sync_success
unfoldable pub finish_rerun_sync_success : Store → ℕ → RerunIds → List WorkerSteps → Store
unfolding update_run_rerun_fields update_run_rerun_job update_asset_sync_job
finish_rerun_sync_success s now ids steps =
    let s1 = (update_run_rerun_fields s ids.run_id now (some "running") none).0 in
    let s2 = (update_run_rerun_job s1 ids.job_id now (some "running") none none none false).0 in
    (update_asset_sync_job s2 ids.sync_job_id now
      (record no_patch { status = some "succeeded"; steps = some steps; finished = true })).0

-- _finish_rerun_sync_failure
unfoldable pub finish_rerun_sync_failure :
    Store → ℕ → RerunIds → List WorkerSteps → (errors : List String) → Store
unfolding update_run_rerun_fields update_run_rerun_job update_asset_sync_job joined
finish_rerun_sync_failure s now ids steps errors =
    let error_text = joined "; " errors in
    let s1 = (update_run_rerun_fields s ids.run_id now (some "failed") none).0 in
    let s2 =
      (update_run_rerun_job s1 ids.job_id now (some "failed") none none (some error_text) true).0 in
    (update_asset_sync_job s2 ids.sync_job_id now (record no_patch {
      status = some "failed";
      steps = some steps;
      error_text = some error_text;
      finished = true;
    })).0

unfoldable pub rerun_end : RerunIds → ℕ → Sync → List String → Store
unfolding finish_rerun_sync_success finish_rerun_sync_failure
rerun_end ids now st [] = finish_rerun_sync_success st.store now ids st.steps
rerun_end ids now st (e ∷ errors) = finish_rerun_sync_failure st.store now ids st.steps (e ∷ errors)

-- sync_rerun_job after its threads were joined.
unfoldable pub end_rerun : RerunIds → ℕ → Sync → Store
unfolding rerun_end
end_rerun ids now st = rerun_end ids now st st.errors

-- The loops over the workers where nothing is to be copied.
unfoldable pub set_all_steps : Bool → String → List String → List WorkerSteps → List WorkerSteps
unfolding set_worker_step_status
set_all_steps include_assets status [] steps = steps
set_all_steps include_assets status (w ∷ ws) steps =
    let cases = set_worker_step_status steps w "sync_cases" status in
    set_all_steps include_assets status ws
      (if include_assets then set_worker_step_status cases w "sync_assets" status else cases)

unfoldable pub promote_all : String → List String → Store → Store
unfolding promote_worker_batches_to_queued
promote_all run_id [] s = s
promote_all run_id (w ∷ ws) s =
    promote_all run_id ws (promote_worker_batches_to_queued s run_id w).0

-- `not str(dataset_by_worker.get(worker_id) or "").strip()`
unfoldable pub lacks_dataset : Fields → String → Bool
unfolding get strip
lacks_dataset config w =
    is_empty (strip (text_of (get w (dict_of (get "datasetPathByWorker" config)))))

-- The two ends of that branch, by missing_workers.
unfoldable pub without_dataset :
    Store
    → ℕ
    → RerunIds
    → List String
    → (include_assets : Bool) → List WorkerSteps
    → List String
    → Store
unfolding set_all_steps promote_all finish_rerun_sync_failure finish_rerun_sync_success joined
without_dataset s now ids worker_ids include_assets steps [] =
    finish_rerun_sync_success (promote_all ids.run_id worker_ids s) now ids
      (set_all_steps include_assets "succeeded" worker_ids steps)
without_dataset s now ids worker_ids include_assets steps (w ∷ ws) =
    finish_rerun_sync_failure s now ids (set_all_steps include_assets "failed" worker_ids steps) (
      ("missing datasetPathByWorker for workers without sync_manifest: " <> joined ", " (w ∷ ws))
      ∷ [])

-- The branch of sync_rerun_job without a dataset to copy.
unfoldable pub sync_without_dataset :
    Store → ℕ → RerunIds → List String → (include_assets : Bool) → List WorkerSteps → Fields → Store
unfolding lacks_dataset without_dataset
sync_without_dataset s now ids worker_ids include_assets steps config =
    without_dataset s now ids worker_ids include_assets steps
      (filter (lacks_dataset config) worker_ids)

-- What sync_rerun_job has come to before its threads: an exception, its end, or the threads.
pub data RerunSync : Type 0 where
  raised : Store → Error → RerunSync
  over : Store → RerunSync
  in_threads : Plan → Sync → RerunSync

abbrev pub has_text : Fields → String → Bool
has_text manifest key = not (is_empty (strip (text_of (get key manifest))))

abbrev pub includes_bitfun : Fields → Bool
includes_bitfun manifest = has_text manifest "bitfunCliPath" && has_text manifest "bitfunConfigDir"

module _ (expanduser : PurePath → PurePath) where
  -- The variables of sync_rerun_job that its threads read.
  unfoldable pub rerun_plan :
      (run_id sync_job_id : String) → Run → RunRerunJob → (config : Fields) → Plan
  unfolding get strip bind_targets rerun_patch
  rerun_plan run_id sync_job_id run job config =
      let manifest = run.sync_manifest in
      let assets = bind_assets_of manifest in
      record {
        job_id = sync_job_id;
        run_id = run_id;
        template_id = run.template_id;
        worker_ids = map (λ (shard : String × List String). shard.0) job.worker_shards;
        include_assets = elim assets [ [] ↦ false | _ ∷ _ ↦ true ] || includes_bitfun manifest;
        names_step = false;
        patch = λ w.
            rerun_patch expanduser w (text_of (get "targetRoot" (entry_of manifest w)))
              (uv_binary_of config w) assets;
      }

  -- sync_rerun_job from its sync job on, where both rows are there.
  unfoldable pub start_rerun_sync :
      Store → ℕ → RerunIds → Run → Plan → (config : Fields) → RerunSync
  unfolding rerun_needs_asset_sync update_run_rerun_job create_asset_sync_job update_asset_sync_job
      sync_without_dataset spawn
  start_rerun_sync s now ids run plan config =
      let steps = initial_worker_steps plan.worker_ids plan.include_assets in
      let linked =
        (update_run_rerun_job s ids.job_id now (some "running") (some ids.sync_job_id) none none
          false).0 in
      elim (create_asset_sync_job linked ids.sync_job_id ids.run_id steps now) [
        | err e ↦ raised linked e
        | ok created ↦
            let running =
              (update_asset_sync_job created.0 ids.sync_job_id now
                (record no_patch { status = some "running"; steps = some steps })).0 in
            if rerun_needs_asset_sync run.sync_manifest
            then in_threads plan (spawn plan running)
            else over (
                sync_without_dataset running now ids plan.worker_ids plan.include_assets steps
                  config)
      ]

  -- sync_rerun_job up to its threads.
  unfoldable pub begin_rerun : Store → ℕ → RerunIds → RerunSync
  unfolding get_run_rerun_job get_run get_task_template rerun_plan start_rerun_sync
  begin_rerun s now ids = elim (get_run_rerun_job s ids.job_id) [
    | none ↦ raised s (runtime_error "rerun job not found")
    | some job ↦ elim (get_run s ids.run_id) [
      | none ↦ raised s (runtime_error "run not found")
      | some run ↦
          let config = config_of s run.template_id in
          start_rerun_sync s now ids run (rerun_plan ids.run_id ids.sync_job_id run job config)
            config
    ]
  ]
