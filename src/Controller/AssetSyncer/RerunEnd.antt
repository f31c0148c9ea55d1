-- ===== src/Controller/AssetSyncer/RerunEnd.antt =====
-- How sync_rerun_job ends, with threads and without (controller/asset_syncer.py).
use agent_eval_orchestrator.Prelude.{
  ℕ, String, ◌≡◌, refl, ◌∙◌, Bool, true, false, Option, none, some, List, [], ◌∷◌, arith, coalesce,
  eq_refl, if◌then◌else◌,
}
use agent_eval_orchestrator.Table
use agent_eval_orchestrator.Text.{joined}
use agent_eval_orchestrator.Storage.Schema.{Run, RunRerunJob, AssetSyncJob, WorkerSteps, Store}
use agent_eval_orchestrator.Storage.Runs.{get_run, update_run_rerun_fields}
use agent_eval_orchestrator.Storage.Rerun.{rerun_job_key, get_run_rerun_job, update_run_rerun_job}
use agent_eval_orchestrator.Storage.Rerun.Completion.{rerun_fields-lem}
use agent_eval_orchestrator.Storage.Jobs.{
  JobPatch, no_patch, patch_state, get_asset_sync_job, update_asset_sync_job,
}
use agent_eval_orchestrator.Storage.Jobs.Finish.{get_asset_sync_job-update}
use agent_eval_orchestrator.Controller.AssetSyncer.Threads.{Plan, Sync, Reach}
use agent_eval_orchestrator.Controller.AssetSyncer.Blame.{has_none}
use agent_eval_orchestrator.Controller.AssetSyncer.JobEnd.{
  AllEnded, IsJoined, Reach-IsJoined, get_run-job, batches-job,
}
use agent_eval_orchestrator.Controller.AssetSyncer.RerunJob.{
  RerunIds, finish_rerun_sync_success, finish_rerun_sync_failure, rerun_end, end_rerun,
}

-- The three rows are there.
pub record HasRows (s : Store) (ids : RerunIds) (run : Run) (job : RunRerunJob) : Type 0 where
  pub run_at : get_run s ids.run_id ≡ some run
  pub job_at : get_run_rerun_job s ids.job_id ≡ some job
  pub sync : AssetSyncJob
  pub sync_at : get_asset_sync_job s ids.sync_job_id ≡ some sync

-- The rows of a rerun's sync after its end: the run and the rerun job have one status, the sync job
-- another and its finish time.
pub record RerunOver (s : Store) (ids : RerunIds) (now : ℕ) (final : Store)
    (status sync_status : String) (job_finished : Option ℕ) (steps : List WorkerSteps)
    : Type 0 where
  pub run : Run
  pub found_run : get_run final ids.run_id ≡ some run
  pub run_is : run.rerun_status ≡ status
  pub job : RunRerunJob
  pub found_job : get_run_rerun_job final ids.job_id ≡ some job
  pub job_is : job.status ≡ status
  pub finished : job.finished_at ≡ job_finished
  pub sync : AssetSyncJob
  pub found_sync : get_asset_sync_job final ids.sync_job_id ≡ some sync
  pub sync_is : sync.state.status ≡ sync_status
  pub sync_finished : sync.state.finished_at ≡ some now
  pub sync_steps : sync.state.steps ≡ steps
  pub batches_stay : final.batches ≡ s.batches

module _ (s : Store) (now : ℕ) where
  pub job_row :
      (job_id status : String) (text : Option String) (finished : Bool) (job : RunRerunJob)
      → get_run_rerun_job s job_id ≡ some job
      → (j : RunRerunJob) × (get_run_rerun_job
            (update_run_rerun_job s job_id now (some status) none none text finished).0
            job_id
          ≡ some j)
        × (j.status ≡ status)
        × (j.finished_at ≡ (if finished then some now else job.finished_at))
  unfolding update_run_rerun_job get_run_rerun_job
  job_row job_id status text finished job h =
      let changed : RunRerunJob → RunRerunJob = λ j. record j {
        status = status;
        sync_job_id = job.sync_job_id;
        rerun_batches = job.rerun_batches;
        error_text = coalesce text job.error_text;
        finished_at = if finished then some now else job.finished_at;
      } in
      (
        changed job,
        ground (
          arith,
          Table.find-update rerun_job_key job_id job_id changed s.run_rerun_jobs (λ j. refl),
          eq_refl job_id,
        ),
        refl,
        refl,
      )

  pub run-job :
      (job_id run_id status : String) (text : Option String) (finished : Bool)
      → get_run (update_run_rerun_job s job_id now (some status) none none text finished).0 run_id
        ≡ get_run s run_id
  unfolding update_run_rerun_job get_run
  run-job job_id run_id status text finished = ground arith

  sync-job :
      (job_id sync_id status : String) (text : Option String) (finished : Bool)
      → get_asset_sync_job
          (update_run_rerun_job s job_id now (some status) none none text finished).0
          sync_id
        ≡ get_asset_sync_job s sync_id
  unfolding update_run_rerun_job get_asset_sync_job
  sync-job job_id sync_id status text finished = ground arith

  batches-rerun_job :
      (job_id status : String) (text : Option String) (finished : Bool)
      → (update_run_rerun_job s job_id now (some status) none none text finished).0.batches
        ≡ s.batches
  unfolding update_run_rerun_job
  batches-rerun_job job_id status text finished = ground arith

  sync-run :
      (run_id sync_id status : String)
      → get_asset_sync_job (update_run_rerun_fields s run_id now (some status) none).0 sync_id
        ≡ get_asset_sync_job s sync_id
  unfolding update_run_rerun_fields get_asset_sync_job
  sync-run run_id sync_id status = ground arith

  pub job-run :
      (run_id job_id status : String)
      → get_run_rerun_job (update_run_rerun_fields s run_id now (some status) none).0 job_id
        ≡ get_run_rerun_job s job_id
  unfolding update_run_rerun_fields get_run_rerun_job
  job-run run_id job_id status = ground arith

  batches-run :
      (run_id status : String)
      → (update_run_rerun_fields s run_id now (some status) none).0.batches ≡ s.batches
  unfolding update_run_rerun_fields
  batches-run run_id status = ground arith

  job-sync :
      (sync_id job_id : String) (p : JobPatch WorkerSteps)
      → get_run_rerun_job (update_asset_sync_job s sync_id now p).0 job_id
        ≡ get_run_rerun_job s job_id
  unfolding update_asset_sync_job get_run_rerun_job
  job-sync sync_id job_id p = ground arith

write_over :
    (s : Store) (ids : RerunIds) (now : ℕ) (run : Run) (job : RunRerunJob) (status : String)
    (text : Option String) (finished : Bool) (p : JobPatch WorkerSteps) (sync_status : String)
    (steps : List WorkerSteps)
    → ((j : AssetSyncJob) → (patch_state now p j.state).status ≡ sync_status)
    → ((j : AssetSyncJob) → (patch_state now p j.state).finished_at ≡ some now)
    → ((j : AssetSyncJob) → (patch_state now p j.state).steps ≡ steps)
    → HasRows s ids run job
    → RerunOver s ids now
        (update_asset_sync_job
          (update_run_rerun_job
            (update_run_rerun_fields s ids.run_id now (some status) none).0
            ids.job_id
            now
            (some status)
            none
            none
            text
            finished).0
          ids.sync_job_id
          now
          p).0
        status
        sync_status
        (if finished then some now else job.finished_at)
        steps
write_over s ids now run job status text finished p sync_status steps is_status is_finished is_steps
      rows =
    let s1 = (update_run_rerun_fields s ids.run_id now (some status) none).0 in
    let s2 = (update_run_rerun_job s1 ids.job_id now (some status) none none text finished).0 in
    let row =
      job_row s1 now ids.job_id status text finished job
        (job-run s now ids.run_id ids.job_id status ∙ rows.job_at) in
    record {
      run = record run { rerun_status = status; updated_at = now };
      found_run =
          get_run-job s2 ids.sync_job_id ids.run_id now p
          ∙ run-job s1 now ids.job_id ids.run_id status text finished
          ∙ (rerun_fields-lem s ids.run_id now status run rows.run_at).0;
      run_is = refl;
      job = row.0;
      found_job = job-sync s2 now ids.sync_job_id ids.job_id p ∙ row.1;
      job_is = row.2;
      finished = row.3;
      sync = record rows.sync { state = patch_state now p rows.sync.state };
      found_sync = get_asset_sync_job-update s2 ids.sync_job_id now p rows.sync (
          sync-job s1 now ids.job_id ids.sync_job_id status text finished
          ∙ sync-run s now ids.run_id ids.sync_job_id status
          ∙ rows.sync_at);
      sync_is = is_status rows.sync;
      sync_finished = is_finished rows.sync;
      sync_steps = is_steps rows.sync;
      batches_stay =
          batches-job s2 ids.sync_job_id now p
          ∙ batches-rerun_job s1 now ids.job_id status text finished
          ∙ batches-run s now ids.run_id status;
    }

pub success-RerunOver :
    (s : Store) (ids : RerunIds) (now : ℕ) (run : Run) (job : RunRerunJob)
    (steps : List WorkerSteps)
    → HasRows s ids run job
    → RerunOver s ids now
        (finish_rerun_sync_success s now ids steps)
        "running"
        "succeeded"
        job.finished_at
        steps
unfolding finish_rerun_sync_success patch_state
success-RerunOver s ids now run job steps =
    write_over s ids now run job "running" none false
      (record no_patch { status = some "succeeded"; steps = some steps; finished = true })
      "succeeded" steps (λ j. refl) (λ j. refl) (λ j. refl)

pub failure-RerunOver :
    (s : Store) (ids : RerunIds) (now : ℕ) (run : Run) (job : RunRerunJob)
    (steps : List WorkerSteps) (errors : List String)
    → HasRows s ids run job
    → RerunOver s ids now
        (finish_rerun_sync_failure s now ids steps errors)
        "failed"
        "failed"
        (some now)
        steps
unfolding finish_rerun_sync_failure patch_state
failure-RerunOver s ids now run job steps errors =
    write_over s ids now run job "failed" (some (joined "; " errors)) true
      (record no_patch {
        status = some "failed";
        steps = some steps;
        error_text = some (joined "; " errors);
        finished = true;
      })
      "failed" steps (λ j. refl) (λ j. refl) (λ j. refl)

-- The rows after the threads, by whether there were errors.
abbrev pub EndsBy : Bool → Store → RerunIds → ℕ → Store → Option ℕ → List WorkerSteps → Type 0
EndsBy well s ids now final old steps =
    RerunOver s ids now final (if well then "running" else "failed")
      (if well then "succeeded" else "failed") (if well then old else some now) steps

rerun_end-EndsBy :
    (st : Sync) (ids : RerunIds) (now : ℕ) (run : Run) (job : RunRerunJob) (errors : List String)
    → HasRows st.store ids run job
    → EndsBy
        (has_none errors)
        st.store
        ids
        now
        (rerun_end ids now st errors)
        job.finished_at
        st.steps
unfolding rerun_end
rerun_end-EndsBy st ids now run job [] = success-RerunOver st.store ids now run job st.steps
rerun_end-EndsBy st ids now run job (e ∷ errors) =
    failure-RerunOver st.store ids now run job st.steps (e ∷ errors)

-- The sync of a rerun ends truly, however its threads were interleaved. Once the threads of the
-- listed workers have ended and the run, the rerun job and the sync job are still there: where no
-- thread reported an error, which is where each ended well, the run and the rerun job become
-- "running", whatever they were, with the job's finish time as it was, and the sync job
-- "succeeded"; otherwise one thread ended in its except clause, run and jobs become "failed", and
-- the rerun job has its finish time. The sync job has its finish time in both cases, its steps show
-- what became of each thread, and no batch of a listed worker waits for its sync.
pub end_rerun-IsJoined :
    (plan : Plan) (s : Store) (st : Sync) (ids : RerunIds) (now : ℕ) (run : Run) (job : RunRerunJob)
    → Reach plan s st
    → AllEnded plan st
    → HasRows st.store ids run job
    → IsJoined plan st
      × EndsBy (has_none st.errors) st.store ids now (end_rerun ids now st) job.finished_at st.steps
unfolding end_rerun
end_rerun-IsJoined plan s st ids now run job reach ended rows =
    (Reach-IsJoined plan s st reach ended, rerun_end-EndsBy st ids now run job st.errors rows)
