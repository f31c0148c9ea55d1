-- ===== src/Storage/Jobs.antt =====
-- storage/store.py: the jobs with steps (provisioning a worker, updating a worker, syncing a run's
-- assets). The three tables have the same operations on the columns of JobState.
pub mod Finish
use agent_eval_orchestrator.Prelude.{
  ℕ, String, ◌<>◌, Bool, true, false, not, ◌&&◌, ◌||◌, Option, none, some, List, filter, coalesce,
  latest_by, ◌==◌, if◌then◌else◌,
}
use agent_eval_orchestrator.Table
use agent_eval_orchestrator.Text.{truthy, or_empty, or_else, is_empty}
use agent_eval_orchestrator.Storage.Schema.{
  Step, WorkerSteps, JobState, ProvisionJob, WorkerUpdateJob, AssetSyncJob, Store, integrity_error,
  Result, ok, err,
}

abbrev pub provision_key : ProvisionJob → String
provision_key j = j.job_id

abbrev pub update_key : WorkerUpdateJob → String
update_key j = j.job_id

abbrev pub sync_key : AssetSyncJob → String
sync_key j = j.job_id

-- The arguments of the three update methods; `none` is None.
pub record JobPatch (S : Type 0) : Type 0 where
  pub status : Option String
  pub current_step : Option String
  pub steps : Option (List S)
  pub error_text : Option String
  pub finished : Bool

abbrev pub no_patch : {S : Type 0} → JobPatch S
no_patch = record {
  status = none;
  current_step = none;
  steps = none;
  error_text = none;
  finished = false;
}

module _ {S : Type 0} where
  -- The columns that an INSERT gives a new job.
  unfoldable pub new_state : List S → ℕ → JobState S
  new_state steps now = record {
    status = "pending";
    current_step = none;
    steps = steps;
    log_text = "";
    error_text = none;
    created_at = now;
    finished_at = none;
  }

  -- The UPDATE of the three update methods: `status or row.status`, and each other column where its
  -- argument is not None.
  unfoldable pub patch_state : ℕ → JobPatch S → JobState S → JobState S
  patch_state now p j = record j {
    status = or_else (or_empty p.status) j.status;
    current_step = coalesce p.current_step j.current_step;
    steps = elim p.steps [ none ↦ j.steps | some steps ↦ steps ];
    error_text = coalesce p.error_text j.error_text;
    finished_at = if p.finished then some now else j.finished_at;
  }

  -- `log_text = log_text || chunk`
  unfoldable pub append_state : String → JobState S → JobState S
  append_state chunk j = record j { log_text = j.log_text <> chunk }

unfoldable pub create_provision_job :
    Store
    → (job_id worker_id mode : String) (steps : List Step) (now : ℕ) → Result (Store × ProvisionJob)
create_provision_job s job_id worker_id mode steps now =
    let row : ProvisionJob = record {
      job_id = job_id;
      worker_id = worker_id;
      mode = mode;
      state = new_state steps now;
    } in
    elim (Table.insert provision_key row s.provision_jobs) [
      | none ↦ err (integrity_error "provision_jobs.job_id")
      | some rows ↦ ok (record s { provision_jobs = rows }, row)
    ]

unfoldable pub get_provision_job : Store → String → Option ProvisionJob
get_provision_job s job_id = Table.find provision_key job_id s.provision_jobs

unfoldable pub get_latest_provision_job_for_worker : Store → String → Option ProvisionJob
get_latest_provision_job_for_worker s worker_id =
    latest_by (λ j. j.state.created_at) (filter (λ j. j.worker_id == worker_id) s.provision_jobs)

unfoldable pub append_provision_log : Store → (job_id chunk : String) → Store
append_provision_log s job_id chunk = if is_empty chunk then s else record s {
  provision_jobs =
      Table.update provision_key job_id (λ j. record j { state = append_state chunk j.state })
        s.provision_jobs;
}

-- update_provision_job: the state, and the row as it is then.
unfoldable pub update_provision_job :
    Store → (job_id : String) (now : ℕ) → JobPatch Step → Store × Option ProvisionJob
update_provision_job s job_id now p = elim (get_provision_job s job_id) [
  | none ↦ (s, none)
  | some row ↦
      let s' : Store = record s {
        provision_jobs =
            Table.update provision_key job_id (λ j. record j { state = patch_state now p j.state })
              s.provision_jobs;
      } in
      (s', get_provision_job s' job_id)
]

unfoldable pub create_worker_update_job :
    Store
    → (job_id worker_id : String) (targets : List String) (steps : List Step) (now : ℕ)
    → Result (Store × WorkerUpdateJob)
create_worker_update_job s job_id worker_id targets steps now =
    let row : WorkerUpdateJob = record {
      job_id = job_id;
      worker_id = worker_id;
      targets = targets;
      state = new_state steps now;
    } in
    elim (Table.insert update_key row s.worker_update_jobs) [
      | none ↦ err (integrity_error "worker_update_jobs.job_id")
      | some rows ↦ ok (record s { worker_update_jobs = rows }, row)
    ]

unfoldable pub get_worker_update_job : Store → String → Option WorkerUpdateJob
get_worker_update_job s job_id = Table.find update_key job_id s.worker_update_jobs

unfoldable pub get_latest_worker_update_job_for_worker : Store → String → Option WorkerUpdateJob
get_latest_worker_update_job_for_worker s worker_id =
    latest_by (λ j. j.state.created_at)
      (filter (λ j. j.worker_id == worker_id) s.worker_update_jobs)

-- The latest job of the worker, if it is pending or running.
unfoldable pub get_active_worker_update_job_for_worker : Store → String → Option WorkerUpdateJob
get_active_worker_update_job_for_worker s worker_id =
    elim (get_latest_worker_update_job_for_worker s worker_id) [
      | none ↦ none
      | some job ↦
          if job.state.status == "pending" || job.state.status == "running" then some job else none
    ]

unfoldable pub append_worker_update_log : Store → (job_id chunk : String) → Store
append_worker_update_log s job_id chunk = if is_empty chunk then s else record s {
  worker_update_jobs =
      Table.update update_key job_id (λ j. record j { state = append_state chunk j.state })
        s.worker_update_jobs;
}

unfoldable pub update_worker_update_job :
    Store → (job_id : String) (now : ℕ) → JobPatch Step → Store × Option WorkerUpdateJob
update_worker_update_job s job_id now p = elim (get_worker_update_job s job_id) [
  | none ↦ (s, none)
  | some row ↦
      let s' : Store = record s {
        worker_update_jobs =
            Table.update update_key job_id (λ j. record j { state = patch_state now p j.state })
              s.worker_update_jobs;
      } in
      (s', get_worker_update_job s' job_id)
]

unfoldable pub create_asset_sync_job :
    Store
    → (job_id run_id : String) (steps : List WorkerSteps) (now : ℕ) → Result (Store × AssetSyncJob)
create_asset_sync_job s job_id run_id steps now =
    let row : AssetSyncJob = record {
      job_id = job_id;
      run_id = run_id;
      state = new_state steps now;
    } in
    elim (Table.insert sync_key row s.asset_sync_jobs) [
      | none ↦ err (integrity_error "asset_sync_jobs.job_id")
      | some rows ↦ ok (record s { asset_sync_jobs = rows }, row)
    ]

unfoldable pub get_asset_sync_job : Store → String → Option AssetSyncJob
get_asset_sync_job s job_id = Table.find sync_key job_id s.asset_sync_jobs

unfoldable pub get_asset_sync_job_for_run : Store → String → Option AssetSyncJob
get_asset_sync_job_for_run s run_id =
    latest_by (λ j. j.state.created_at) (filter (λ j. j.run_id == run_id) s.asset_sync_jobs)

unfoldable pub append_asset_sync_log : Store → (job_id chunk : String) → Store
append_asset_sync_log s job_id chunk = if is_empty chunk then s else record s {
  asset_sync_jobs =
      Table.update sync_key job_id (λ j. record j { state = append_state chunk j.state })
        s.asset_sync_jobs;
}

unfoldable pub update_asset_sync_job :
    Store → (job_id : String) (now : ℕ) → JobPatch WorkerSteps → Store × Option AssetSyncJob
update_asset_sync_job s job_id now p = elim (get_asset_sync_job s job_id) [
  | none ↦ (s, none)
  | some row ↦
      let s' : Store = record s {
        asset_sync_jobs =
            Table.update sync_key job_id (λ j. record j { state = patch_state now p j.state })
              s.asset_sync_jobs;
      } in
      (s', get_asset_sync_job s' job_id)
]
