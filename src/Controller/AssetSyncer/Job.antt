-- ===== src/Controller/AssetSyncer/Job.antt =====
-- run_job of controller/asset_syncer.py before and after its threads, and cleanup_run_sync_assets.
use agent_eval_orchestrator.Prelude.{ℕ, String, true, false, none, some, List, [], ◌∷◌}
use agent_eval_orchestrator.Json.{
  Fields, Elements, obj, arr, element, no_more, field, end, get, keys, text_of, dict_of,
}
use agent_eval_orchestrator.Text.{joined}
use agent_eval_orchestrator.Storage.Schema.{Store, runtime_error, Result, ok, ◌>>=◌, or_raise}
use agent_eval_orchestrator.Storage.Runs.{get_run, update_run_sync_fields}
use agent_eval_orchestrator.Storage.Templates.{get_task_template}
use agent_eval_orchestrator.Storage.Jobs.{no_patch, update_asset_sync_job}
use agent_eval_orchestrator.Core.WorkerPaths.{PurePath}
use agent_eval_orchestrator.Controller.AssetSyncer.{
  initial_worker_steps, BindTarget, executor_patch,
}
use agent_eval_orchestrator.Controller.AssetSyncer.Threads.{Plan, Sync, spawn}

-- manifest.get("bindAssets") or [].
unfoldable pub bind_targets : Elements → List BindTarget
bind_targets no_more = []
bind_targets (element (obj asset) rest) =
    record { source = text_of (get "source" asset); target_name = text_of (get "targetName" asset) }
    ∷ bind_targets rest
bind_targets (element _ rest) = bind_targets rest

abbrev pub bind_assets_of : Fields → List BindTarget
bind_assets_of manifest = elim (get "bindAssets" manifest) [
  | some (arr assets) ↦ bind_targets assets
  | _ ↦ []
]

-- The entry of a worker in the manifest; one that has none fails in _sync_cases.
abbrev pub entry_of : Fields → String → Fields
entry_of manifest w = dict_of (get w (dict_of (get "workers" manifest)))

abbrev pub config_of : Store → String → Fields
config_of s template_id = elim (get_task_template s template_id) [
  | none ↦ end
  | some template ↦ template.executor_config
]

abbrev pub uv_binary_of : Fields → String → String
uv_binary_of config w = text_of (get w (dict_of (get "uvBinaryByWorker" config)))

module _ (expanduser : PurePath → PurePath) where
  -- The variables of run_job that its threads read.
  unfoldable pub job_plan : (job_id run_id template_id : String) → (manifest config : Fields) → Plan
  unfolding keys bind_targets executor_patch
  job_plan job_id run_id template_id manifest config =
      let assets = bind_assets_of manifest in
      record {
        job_id = job_id;
        run_id = run_id;
        template_id = template_id;
        worker_ids = keys (dict_of (get "workers" manifest));
        include_assets = elim assets [ [] ↦ false | _ ∷ _ ↦ true ];
        names_step = true;
        patch = λ w.
            executor_patch expanduser w (text_of (get "targetRoot" (entry_of manifest w)))
              (uv_binary_of config w) assets;
      }

  -- run_job up to the start of its threads.
  unfoldable pub begin_job :
      Store → (now : ℕ) → (job_id run_id template_id : String) → Result (Plan × Sync)
  unfolding get_run job_plan update_asset_sync_job update_run_sync_fields get_task_template spawn
  begin_job s now job_id run_id template_id = do
    run ← or_raise (get_run s run_id) (runtime_error "run not found")
    let plan = job_plan job_id run_id template_id run.sync_manifest (config_of s template_id)
    let steps = initial_worker_steps plan.worker_ids plan.include_assets
    let running =
        (update_asset_sync_job s job_id now
          (record no_patch { status = some "running"; steps = some steps })).0
    ok (plan, spawn plan (update_run_sync_fields running run_id now (some "running") none none).0)

-- The two ends of run_job, by the list of errors.
unfoldable pub job_end : Plan → ℕ → Sync → List String → Store
unfolding joined update_asset_sync_job update_run_sync_fields
job_end plan now st [] =
    (update_asset_sync_job
      (update_run_sync_fields st.store plan.run_id now (some "succeeded") none none).0 plan.job_id
      now (record no_patch { status = some "succeeded"; steps = some st.steps; finished = true })).0
job_end plan now st (e ∷ errors) =
    (update_asset_sync_job
      (update_run_sync_fields st.store plan.run_id now (some "failed") none none).0 plan.job_id now
      (record no_patch {
        status = some "failed";
        steps = some st.steps;
        error_text = some (joined "; " (e ∷ errors));
        finished = true;
      })).0

-- run_job after its threads were joined.
unfoldable pub end_job : Plan → ℕ → Sync → Store
unfolding job_end
end_job plan now st = job_end plan now st st.errors

-- cleanup_run_sync_assets: the two writes, around the removal of the directories.
unfoldable pub cleanup_run_sync_assets : Store → ℕ → (run_id : String) → Store
unfolding get_run update_run_sync_fields
cleanup_run_sync_assets s now run_id = elim (get_run s run_id) [
  | none ↦ s
  | some run ↦ elim (dict_of (get "workers" run.sync_manifest)) [
    | end ↦ s
    | field _ _ _ ↦
        let cleaning = (update_run_sync_fields s run_id now (some "cleaning") none none).0 in
        (update_run_sync_fields cleaning run_id now (some "cleaned") none none).0
  ]
]
