-- ===== src/Controller/AssetSyncer/JobEnd.antt =====
-- How run_job ends once its threads have (controller/asset_syncer.py).
use agent_eval_orchestrator.Prelude.{
  ℕ, String, ◌≡◌, refl, sym, subst, ap, ◌∙◌, Bool, true, false, not, inl, inr, none, some, List, [],
  ◌∷◌, arith, All, count, ◌⊎◌, any, ◌==◌, eq_refl, if◌then◌else◌,
}
use agent_eval_orchestrator.Table
use agent_eval_orchestrator.Storage.Schema.{Run, AssetSyncJob, WorkerSteps, Step, Store}
use agent_eval_orchestrator.Storage.Batches.{awaits_sync}
use agent_eval_orchestrator.Storage.Runs.{run_key, get_run, update_run_sync_fields}
use agent_eval_orchestrator.Storage.Jobs.{
  JobPatch, no_patch, patch_state, get_asset_sync_job, update_asset_sync_job,
}
use agent_eval_orchestrator.Storage.Jobs.Finish.{get_asset_sync_job-update}
use agent_eval_orchestrator.Controller.AssetSyncer.{worker_steps}
use agent_eval_orchestrator.Controller.AssetSyncer.Threads.{
  Plan, Pc, entry, syncing_cases, cases_synced, syncing_assets, assets_synced, configuring,
  promoting, failing, marking, reporting, ended_well, ended_badly, Sync, is_listed, Reach,
}
use agent_eval_orchestrator.Controller.AssetSyncer.Steps.{Shows}
use agent_eval_orchestrator.Controller.AssetSyncer.Blame.{is_bad, has_none}
use agent_eval_orchestrator.Controller.AssetSyncer.Entries.{entry_workers, entries-All, All-both}
use agent_eval_orchestrator.Controller.AssetSyncer.Soundness.{is_settled, IsSound, Reach-IsSound}
use agent_eval_orchestrator.Controller.AssetSyncer.Job.{job_end, end_job}
use agent_eval_orchestrator.Text.{joined}

abbrev pub has_ended : Pc → Bool
has_ended ended_well = true
has_ended ended_badly = true
has_ended _ = false

-- The threads that run_job joins.
abbrev pub AllEnded : Plan → Sync → Type 0
AllEnded plan st = (w : String) → is_listed plan w ≡ true → has_ended (st.pc w) ≡ true

-- What a thread came to, and a job.
abbrev pub verdict : Bool → String
verdict bad = if bad then "failed" else "succeeded"

abbrev pub ShowsEnd : Plan → Sync → List WorkerSteps → Type 0
ShowsEnd plan st steps =
    All
      (λ e.
        e.steps
        ≡ worker_steps plan.include_assets (verdict (is_bad (st.pc e.worker_id)))
            (verdict (is_bad (st.pc e.worker_id))))
      steps

-- What holds of the threads, the batches and the errors once the threads have ended.
pub record IsJoined (plan : Plan) (st : Sync) : Type 0 where
  pub workers : entry_workers st.steps ≡ plan.worker_ids
  pub steps_end : ShowsEnd plan st st.steps
  pub none_waits :
      (w : String)
      → is_listed plan w ≡ true
      → count (awaits_sync plan.run_id w) st.store.batches ≡ 0
  pub well :
      has_none st.errors ≡ true → (w : String) → is_listed plan w ≡ true → st.pc w ≡ ended_well
  pub badly :
      has_none st.errors ≡ false
      → (w : String) × (is_listed plan w ≡ true) × (st.pc w ≡ ended_badly)

ended_cases : (p : Pc) → has_ended p ≡ true → (p ≡ ended_well) ⊎ (p ≡ ended_badly)
ended_cases ended_well h = inl refl
ended_cases ended_badly h = inr refl
ended_cases entry h = absurd (cc h)
ended_cases syncing_cases h = absurd (cc h)
ended_cases cases_synced h = absurd (cc h)
ended_cases syncing_assets h = absurd (cc h)
ended_cases assets_synced h = absurd (cc h)
ended_cases configuring h = absurd (cc h)
ended_cases promoting h = absurd (cc h)
ended_cases (failing text) h = absurd (cc h)
ended_cases (marking text) h = absurd (cc h)
ended_cases (reporting text) h = absurd (cc h)

ended-settled : (p : Pc) → has_ended p ≡ true → is_settled p ≡ true
ended-settled p h = elim (ended_cases p h) [ inl e ↦ ap is_settled e | inr e ↦ ap is_settled e ]

ended-Shows :
    (include : Bool) (p : Pc) (l : List Step)
    → has_ended p ≡ true
    → Shows include p l
    → l ≡ worker_steps include (verdict (is_bad p)) (verdict (is_bad p))
ended-Shows include p l h shows = elim (ended_cases p h) [
  | inl e ↦
      subst
        (λ x.
          Shows include x l → l ≡ worker_steps include (verdict (is_bad x)) (verdict (is_bad x)))
        (sym e) (λ s. s) shows
  | inr e ↦
      subst
        (λ x.
          Shows include x l → l ≡ worker_steps include (verdict (is_bad x)) (verdict (is_bad x)))
        (sym e) (λ s. s) shows
]

IsSound-IsJoined : (plan : Plan) (st : Sync) → AllEnded plan st → IsSound plan st → IsJoined plan st
IsSound-IsJoined plan st ended sound = record {
  workers = sound.workers;
  steps_end =
      All-both (λ e. Shows plan.include_assets (st.pc e.worker_id) e.steps)
        (λ e. has_ended (st.pc e.worker_id) ≡ true) _ st.steps
        (λ e s h. ended-Shows plan.include_assets (st.pc e.worker_id) e.steps h s) sound.shown
        (entries-All (λ w. has_ended (st.pc w)) st.steps
          (λ w q. ended w (ap (λ (l : List String). any (λ v. v == w) l) (sym sound.workers) ∙ q)));
  none_waits = λ w q. sound.settled w (ended-settled (st.pc w) (ended w q));
  well = λ none_said w q. elim (ended_cases (st.pc w) (ended w q)) [
    | inl e ↦ e
    | inr e ↦ absurd (ground (arith, none_said, sound.errors.reported w (ap is_bad e)))
  ];
  badly = λ said.
      let (w, listed, bad) = sound.errors.blamed said in
      (
        w,
        listed,
        elim (ended_cases (st.pc w) (ended w listed)) [
          | inl e ↦ absurd (ground (arith, e, bad))
          | inr e ↦ e
        ],
      );
}

pub Reach-IsJoined :
    (plan : Plan) (s : Store) (st : Sync) → Reach plan s st → AllEnded plan st → IsJoined plan st
Reach-IsJoined plan s st reach ended =
    IsSound-IsJoined plan st ended (Reach-IsSound plan s st reach)

-- The job's row and the run's after the end.
pub record JobOver (plan : Plan) (st : Sync) (now : ℕ) (final : Store) : Type 0 where
  pub job : AssetSyncJob
  pub found : get_asset_sync_job final plan.job_id ≡ some job
  pub status_is : job.state.status ≡ verdict (not (has_none st.errors))
  pub finished : job.state.finished_at ≡ some now
  pub steps_are : job.state.steps ≡ st.steps
  pub run : Run
  pub found_run : get_run final plan.run_id ≡ some run
  pub run_status_is : run.sync_status ≡ verdict (not (has_none st.errors))
  pub batches_stay : final.batches ≡ st.store.batches

get_run-sync :
    (s : Store) (run_id : String) (now : ℕ) (status : String) (r : Run)
    → get_run s run_id ≡ some r
    → get_run (update_run_sync_fields s run_id now (some status) none none).0 run_id
      ≡ some (record r { sync_status = status; updated_at = now })
unfolding update_run_sync_fields get_run
get_run-sync s run_id now status r h = ground (
  arith,
  Table.find-update run_key run_id run_id
      (λ x. record x {
        sync_status = status;
        sync_job_id = r.sync_job_id;
        sync_manifest = r.sync_manifest;
        updated_at = now;
      })
      s.runs (λ x. refl),
  eq_refl run_id,
)

-- The sync fields of a run and the sync jobs are apart.
module _ (s : Store) where
  get_job-sync :
      (run_id job_id : String) (now : ℕ) (status : String)
      → get_asset_sync_job (update_run_sync_fields s run_id now (some status) none none).0 job_id
        ≡ get_asset_sync_job s job_id
  unfolding update_run_sync_fields get_asset_sync_job
  get_job-sync run_id job_id now status = ground arith

  batches-sync :
      (run_id : String) (now : ℕ) (status : String)
      → (update_run_sync_fields s run_id now (some status) none none).0.batches ≡ s.batches
  unfolding update_run_sync_fields
  batches-sync run_id now status = ground arith

  pub get_run-job :
      (job_id run_id : String) (now : ℕ) (p : JobPatch WorkerSteps)
      → get_run (update_asset_sync_job s job_id now p).0 run_id ≡ get_run s run_id
  unfolding update_asset_sync_job get_run
  get_run-job job_id run_id now p = ground arith

  pub batches-job :
      (job_id : String) (now : ℕ) (p : JobPatch WorkerSteps)
      → (update_asset_sync_job s job_id now p).0.batches ≡ s.batches
  unfolding update_asset_sync_job
  batches-job job_id now p = ground arith

end_with :
    (plan : Plan) (st : Sync) (now : ℕ) (status : String) (p : JobPatch WorkerSteps)
    (j : AssetSyncJob) (r : Run)
    → status ≡ verdict (not (has_none st.errors))
    → (patch_state now p j.state).status ≡ status
    → (patch_state now p j.state).finished_at ≡ some now
    → (patch_state now p j.state).steps ≡ st.steps
    → get_asset_sync_job st.store plan.job_id ≡ some j
    → get_run st.store plan.run_id ≡ some r
    → JobOver plan st now
        (update_asset_sync_job
          (update_run_sync_fields st.store plan.run_id now (some status) none none).0
          plan.job_id
          now
          p).0
end_with plan st now status p j r e is_status is_finished is_steps h hr =
    let s1 = (update_run_sync_fields st.store plan.run_id now (some status) none none).0 in
    record {
      job = record j { state = patch_state now p j.state };
      found =
          get_asset_sync_job-update s1 plan.job_id now p j
            (get_job-sync st.store plan.run_id plan.job_id now status ∙ h);
      status_is = is_status ∙ e;
      finished = is_finished;
      steps_are = is_steps;
      run = record r { sync_status = status; updated_at = now };
      found_run =
          get_run-job s1 plan.job_id plan.run_id now p
          ∙ get_run-sync st.store plan.run_id now status r hr;
      run_status_is = e;
      batches_stay =
          batches-job s1 plan.job_id now p ∙ batches-sync st.store plan.run_id now status;
    }

job_end-JobOver :
    (plan : Plan) (st : Sync) (now : ℕ) (j : AssetSyncJob) (r : Run) (es : List String)
    → st.errors ≡ es
    → get_asset_sync_job st.store plan.job_id ≡ some j
    → get_run st.store plan.run_id ≡ some r
    → JobOver plan st now (job_end plan now st es)
unfolding patch_state job_end
job_end-JobOver plan st now j r [] e h hr =
    end_with plan st now "succeeded"
      (record no_patch { status = some "succeeded"; steps = some st.steps; finished = true }) j r
      (ap (λ (l : List String). verdict (not (has_none l))) (sym e)) refl refl refl h hr
job_end-JobOver plan st now j r (x ∷ xs) e h hr =
    end_with plan st now "failed"
      (record no_patch {
        status = some "failed";
        steps = some st.steps;
        error_text = some (joined "; " (x ∷ xs));
        finished = true;
      })
      j r (ap (λ (l : List String). verdict (not (has_none l))) (sym e)) refl refl refl h hr

-- A sync job ends truly, whatever the order in which its threads ran and whatever the rest of the
-- program did meanwhile but to give the workers batches of the run to wait for. Once the threads of
-- the listed workers have ended and the job's row and the run are still there: the row gets a
-- finish time and the run and the row the status "succeeded" where no thread reported an error,
-- "failed" otherwise; in the first case every listed thread ended well, in the second one ended in
-- its except clause; the row's steps are those of the listed workers in their order, each shown as
-- failed where its thread ended so and as succeeded where not; and no batch of a listed worker
-- waits for its sync.
pub end_job-IsJoined :
    (plan : Plan) (s : Store) (st : Sync) (now : ℕ) (j : AssetSyncJob) (r : Run)
    → Reach plan s st
    → AllEnded plan st
    → get_asset_sync_job st.store plan.job_id ≡ some j
    → get_run st.store plan.run_id ≡ some r
    → IsJoined plan st × JobOver plan st now (end_job plan now st)
unfolding end_job
end_job-IsJoined plan s st now j r reach ended h hr =
    (Reach-IsJoined plan s st reach ended, job_end-JobOver plan st now j r st.errors refl h hr)
