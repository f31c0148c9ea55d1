-- ===== src/Controller/AssetSyncer/RerunAlone.antt =====
-- How sync_rerun_job ends where there is no dataset to copy (controller/asset_syncer.py).
use agent_eval_orchestrator.Prelude.{
  ℕ, String, ◌<>◌, ◌≡◌, ◌≤◌, refl, ap, subst, ◌∙◌, Bool, true, false, some, List, [], ◌∷◌, arith,
  count, any, filter, ◌==◌, eq_iff, Bool-cases, inl, inr,
}
use agent_eval_orchestrator.Text.{joined}
use agent_eval_orchestrator.Json.{Fields}
use agent_eval_orchestrator.Storage.Schema.{Batch, Run, RunRerunJob, WorkerSteps, Store}
use agent_eval_orchestrator.Storage.Batches.{awaits_sync, promote_worker_batches_to_queued}
use agent_eval_orchestrator.Storage.Batches.Sync.{promote-none, promote-le}
use agent_eval_orchestrator.Storage.Runs.{get_run}
use agent_eval_orchestrator.Storage.Rerun.{get_run_rerun_job}
use agent_eval_orchestrator.Storage.Jobs.{get_asset_sync_job}
use agent_eval_orchestrator.Controller.AssetSyncer.RerunJob.{
  RerunIds, set_all_steps, promote_all, lacks_dataset, sync_without_dataset, without_dataset,
}
use agent_eval_orchestrator.Controller.AssetSyncer.RerunEnd.{
  HasRows, RerunOver, success-RerunOver, failure-RerunOver,
}

promote_all-le :
    (run_id : String) (ws : List String) (s : Store) (v : String)
    → count (awaits_sync run_id v) (promote_all run_id ws s).batches
      ≤ count (awaits_sync run_id v) s.batches
unfolding promote_all
promote_all-le run_id [] s v = omega arith
promote_all-le run_id (w ∷ ws) s v =
    let first = promote-le s run_id w v in
    let rest = promote_all-le run_id ws (promote_worker_batches_to_queued s run_id w).0 v in
    omega (arith, first, rest)

promote_all-none :
    (run_id : String) (ws : List String) (s : Store) (v : String)
    → any (λ w. w == v) ws ≡ true
    → count (awaits_sync run_id v) (promote_all run_id ws s).batches ≡ 0
unfolding promote_all
promote_all-none run_id [] s v h = absurd (cc h)
promote_all-none run_id (w ∷ ws) s v h = elim (Bool-cases (w == v)) [
  | inl e ↦
      let none_now : count (awaits_sync run_id v)
            (promote_worker_batches_to_queued s run_id w).0.batches
          ≡ 0 =
        subst
          (λ x.
            count (awaits_sync run_id x) (promote_worker_batches_to_queued s run_id w).0.batches
            ≡ 0)
          ((eq_iff w v).0 e) (promote-none s run_id w) in
      let rest = promote_all-le run_id ws (promote_worker_batches_to_queued s run_id w).0 v in
      omega (arith, none_now, rest)
  | inr e ↦
      promote_all-none run_id ws (promote_worker_batches_to_queued s run_id w).0 v
        (ground (arith, e))
]

promote_all-HasRows :
    (ids : RerunIds) (run : Run) (job : RunRerunJob) (ws : List String) (s : Store)
    → HasRows s ids run job
    → HasRows (promote_all ids.run_id ws s) ids run job
unfolding promote_all
promote_all-HasRows ids run job [] s rows = rows
promote_all-HasRows ids run job (w ∷ ws) s rows =
    promote_all-HasRows ids run job ws (promote_worker_batches_to_queued s ids.run_id w).0
      (promote-HasRows s rows)
  where
    promote-HasRows :
        (s : Store)
        → HasRows s ids run job
        → HasRows (promote_worker_batches_to_queued s ids.run_id w).0 ids run job
    promote-HasRows s rows = record {
      run_at = unfold promote_worker_batches_to_queued get_run in rows.run_at;
      job_at = unfold promote_worker_batches_to_queued get_run_rerun_job in rows.job_at;
      sync = rows.sync;
      sync_at = unfold promote_worker_batches_to_queued get_asset_sync_job in rows.sync_at;
    }

none_filtered : (p : String → Bool) (ws : List String) → any p ws ≡ false → filter p ws ≡ []
none_filtered p [] h = refl
none_filtered p (w ∷ ws) h = ground (arith, none_filtered p ws)

some_filtered :
    (p : String → Bool) (ws : List String)
    → any p ws ≡ true
    → (v : String) × (vs : List String) × (filter p ws ≡ v ∷ vs)
some_filtered p [] h = absurd (cc h)
some_filtered p (w ∷ ws) h = elim (Bool-cases (p w)) [
  | inl e ↦ (w, filter p ws, rw e refl)
  | inr e ↦ let (v, vs, q) = some_filtered p ws (ground (arith, e)) in (v, vs, rw e q)
]

-- Where a rerun has no dataset to copy and the template knows each worker's: the run and the rerun
-- job become "running", the sync job "succeeded" with its finish time, and no batch of these
-- workers waits for its sync.
pub sync_without_dataset-known :
    (s : Store) (now : ℕ) (ids : RerunIds) (ws : List String) (include : Bool)
    (steps : List WorkerSteps) (config : Fields) (run : Run) (job : RunRerunJob)
    → HasRows s ids run job
    → any (lacks_dataset config) ws ≡ false
    → RerunOver
        (promote_all ids.run_id ws s)
        ids
        now
        (sync_without_dataset s now ids ws include steps config)
        "running"
        "succeeded"
        job.finished_at
        (set_all_steps include "succeeded" ws steps)
      × ((v : String)
          → any (λ w. w == v) ws ≡ true
          → count
              (awaits_sync ids.run_id v)
              (sync_without_dataset s now ids ws include steps config).batches
            ≡ 0)
unfolding sync_without_dataset without_dataset
sync_without_dataset-known s now ids ws include steps config run job rows h =
    let promoted = promote_all ids.run_id ws s in
    let ends =
      success-RerunOver promoted ids now run job (set_all_steps include "succeeded" ws steps)
        (promote_all-HasRows ids run job ws s rows) in
    rw (none_filtered (lacks_dataset config) ws h) (
      ends,
      λ v q.
          ap (λ (bs : List Batch). count (awaits_sync ids.run_id v) bs) ends.batches_stay
          ∙ promote_all-none ids.run_id ws s v q,
    )

-- Where it does not know one worker's, the run and both jobs become "failed" with their finish
-- times, and every batch stays as it is: those that wait for the sync go on waiting.
pub sync_without_dataset-missing :
    (s : Store) (now : ℕ) (ids : RerunIds) (ws : List String) (include : Bool)
    (steps : List WorkerSteps) (config : Fields) (run : Run) (job : RunRerunJob)
    → HasRows s ids run job
    → any (lacks_dataset config) ws ≡ true
    → RerunOver s ids now
        (sync_without_dataset s now ids ws include steps config)
        "failed"
        "failed"
        (some now)
        (set_all_steps include "failed" ws steps)
unfolding sync_without_dataset without_dataset
sync_without_dataset-missing s now ids ws include steps config run job rows h =
    let (v, vs, e) = some_filtered (lacks_dataset config) ws h in
    rw e (
      failure-RerunOver s ids now run job (set_all_steps include "failed" ws steps)
        (("missing datasetPathByWorker for workers without sync_manifest: " <> joined ", " (v ∷ vs))
          ∷ [])
        rows)
