-- ===== src/Storage/Jobs/Finish.antt =====
-- The row of a job after an update (storage/store.py).
use agent_eval_orchestrator.Prelude.{ℕ, String, ◌≡◌, refl, some, arith, eq_refl}
use agent_eval_orchestrator.Table
use agent_eval_orchestrator.Storage.Schema.{
  Step, WorkerSteps, ProvisionJob, WorkerUpdateJob, AssetSyncJob, Store,
}
use agent_eval_orchestrator.Storage.Jobs.{
  provision_key, update_key, sync_key, JobPatch, patch_state, get_provision_job,
  update_provision_job, get_worker_update_job, update_worker_update_job, get_asset_sync_job,
  update_asset_sync_job,
}

pub get_provision_job-update :
    (s : Store) (job_id : String) (now : ℕ) (p : JobPatch Step) (j : ProvisionJob)
    → get_provision_job s job_id ≡ some j
    → get_provision_job (update_provision_job s job_id now p).0 job_id
      ≡ some (record j { state = patch_state now p j.state })
unfolding update_provision_job get_provision_job
get_provision_job-update s job_id now p j h = ground (
  arith,
  Table.find-update provision_key job_id job_id
      (λ j. record j { state = patch_state now p j.state }) s.provision_jobs (λ j. refl),
  eq_refl job_id,
)

pub get_worker_update_job-update :
    (s : Store) (job_id : String) (now : ℕ) (p : JobPatch Step) (j : WorkerUpdateJob)
    → get_worker_update_job s job_id ≡ some j
    → get_worker_update_job (update_worker_update_job s job_id now p).0 job_id
      ≡ some (record j { state = patch_state now p j.state })
unfolding update_worker_update_job get_worker_update_job
get_worker_update_job-update s job_id now p j h = ground (
  arith,
  Table.find-update update_key job_id job_id (λ j. record j { state = patch_state now p j.state })
      s.worker_update_jobs (λ j. refl),
  eq_refl job_id,
)

pub get_asset_sync_job-update :
    (s : Store) (job_id : String) (now : ℕ) (p : JobPatch WorkerSteps) (j : AssetSyncJob)
    → get_asset_sync_job s job_id ≡ some j
    → get_asset_sync_job (update_asset_sync_job s job_id now p).0 job_id
      ≡ some (record j { state = patch_state now p j.state })
unfolding update_asset_sync_job get_asset_sync_job
get_asset_sync_job-update s job_id now p j h = ground (
  arith,
  Table.find-update sync_key job_id job_id (λ j. record j { state = patch_state now p j.state })
      s.asset_sync_jobs (λ j. refl),
  eq_refl job_id,
)
