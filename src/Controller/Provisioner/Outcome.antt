-- ===== src/Controller/Provisioner/Outcome.antt =====
-- How a provisioning job ends (controller/provisioner.py).
use agent_eval_orchestrator.Prelude.{
  ℕ, String, ◌≡◌, refl, sym, ◌∙◌, inl, inr, Bool, true, false, Option, none, some, List, [], ◌∷◌,
  arith, All, Bool-cases, Option-cases, ◌==◌, eq_refl, if◌then◌else◌,
}
use mathlib.Core.Option
use agent_eval_orchestrator.Table
use agent_eval_orchestrator.Text.{or_else}
use agent_eval_orchestrator.Storage.Schema.{Step, ProvisionJob, Worker, Store}
use agent_eval_orchestrator.Storage.Claim.{worker_key, find_worker}
use agent_eval_orchestrator.Storage.Jobs.{
  JobPatch, no_patch, patch_state, get_provision_job, update_provision_job,
}
use agent_eval_orchestrator.Storage.Jobs.Finish.{get_provision_job-update}
use agent_eval_orchestrator.Storage.Workers.{update_worker_host, set_worker_provision_status}
use agent_eval_orchestrator.Controller.StepRunner.{
  State, is_cancelled, Act, Item, run, require, Ended, run_step, run_items,
}
use agent_eval_orchestrator.Controller.StepRunner.Progress.{
  IsSettled, pending-IsSettled, run_items-IsSettled,
}
use agent_eval_orchestrator.Controller.Provisioner.{
  step_label, initial_steps_for_mode, provision_items, save_provision_step, Resolved, host,
  unresolved, provision_failed, provision_succeeded, provision_end, run_provision_job,
}

-- The job's row is in the database.
abbrev pub HasJob : String → State → Type 0
HasJob job_id st = (j : ProvisionJob) × (get_provision_job st.store job_id ≡ some j)

update-HasJob :
    (st : State) (job_id : String) (now : ℕ) (p : JobPatch Step)
    → HasJob job_id st
    → HasJob job_id (record st { store = (update_provision_job st.store job_id now p).0 })
update-HasJob st job_id now p (j, h) = (_, get_provision_job-update st.store job_id now p j h)

-- No action deletes the job's row: nothing but deleting the worker does.
abbrev pub KeepsJob : String → Act → Type 0
KeepsJob job_id act = (id : String) (st : State) → HasJob job_id st → HasJob job_id (act id st).0

run_step-HasJob :
    (act : Act) (job_id text : String) (now : ℕ) (steps : List Step) (id : String) (st : State)
    → KeepsJob job_id act
    → HasJob job_id st
    → HasJob job_id (run_step (save_provision_step job_id now) act job_id text steps id st).0
unfolding run_step save_provision_step
run_step-HasJob act job_id text now steps id st keeps h =
    elim (Bool-cases (is_cancelled st job_id)) [
      | inl e ↦ rw e h
      | inr e ↦ rw e (keeps id _ (update-HasJob st job_id now _ h))
    ]

run_items-HasJob :
    (act : Act) (job_id text : String) (now : ℕ) (items : List Item) (steps : List Step)
    (st : State)
    → KeepsJob job_id act
    → HasJob job_id st
    → HasJob job_id
        (run_items (save_provision_step job_id now) act job_id text items steps st).state
unfolding run_items
run_items-HasJob act job_id text now [] steps st keeps h = h
run_items-HasJob act job_id text now (require ok t ∷ items) steps st keeps h =
    elim (Bool-cases ok) [
      | inl e ↦ rw e (run_items-HasJob act job_id text now items steps st keeps h)
      | inr e ↦ rw e h
    ]
run_items-HasJob act job_id text now (run id ∷ items) steps st keeps h =
    let next = run_step (save_provision_step job_id now) act job_id text steps id st in
    let kept = run_step-HasJob act job_id text now steps id st keeps h in
    elim (Option-cases next.1) [
      | inr (t, e) ↦ rw (e, run_items) kept
      | inl e ↦ rw (e, run_items) (run_items-HasJob act job_id text now items _ next.0 keeps kept)
    ]

-- The job's row and the worker's status after the end.
pub record EndsAs (final : State) (job_id worker_id : String) (now : ℕ) (status provision : String)
    (steps : List Step) : Type 0 where
  pub job : ProvisionJob
  pub found : get_provision_job final.store job_id ≡ some job
  pub ended_as : job.state.status ≡ status
  pub finished : job.state.finished_at ≡ some now
  pub kept_steps : job.state.steps ≡ steps
  pub worker_is :
      (w : Worker) → find_worker final.store worker_id ≡ some w → w.provision_status ≡ provision

worker_status-set :
    (s : Store) (worker_id status : String) (text : Option String) (now : ℕ) (w : Worker)
    → find_worker (set_worker_provision_status s worker_id status text now) worker_id ≡ some w
    → w.provision_status ≡ status
unfolding set_worker_provision_status find_worker
worker_status-set s worker_id status text now w h =
    elim (Option-cases (Table.find worker_key worker_id s.workers)) [
      | inl e ↦ ground (arith, after, eq_refl worker_id)
      | inr (x, e) ↦ ground (arith, after, eq_refl worker_id)
    ]
  where
    set : Worker → Worker
    set w = record w { provision_status = status; last_provision_error = text; updated_at = now }

    after : Table.find worker_key worker_id (Table.update worker_key worker_id set s.workers) ≡ (
        if worker_id == worker_id
        then Option.map set (Table.find worker_key worker_id s.workers)
        else Table.find worker_key worker_id s.workers)
    after = Table.find-update worker_key worker_id worker_id set s.workers (λ x. refl)

find_worker-job :
    (s : Store) (job_id worker_id : String) (now : ℕ) (p : JobPatch Step)
    → find_worker (update_provision_job s job_id now p).0 worker_id ≡ find_worker s worker_id
unfolding update_provision_job find_worker
find_worker-job s job_id worker_id now p = ground arith

get_job-worker :
    (s : Store) (job_id worker_id status : String) (text : Option String) (now : ℕ)
    → get_provision_job (set_worker_provision_status s worker_id status text now) job_id
      ≡ get_provision_job s job_id
unfolding get_provision_job set_worker_provision_status
get_job-worker s job_id worker_id status text now = refl

get_job-host :
    (s : Store) (job_id worker_id name : String) (now : ℕ)
    → get_provision_job (update_worker_host s worker_id name now) job_id
      ≡ get_provision_job s job_id
unfolding get_provision_job update_worker_host
get_job-host s job_id worker_id name now = refl

-- Both ends write the worker's status and then the job's row.
write_end :
    (s : Store) (cancelled : List String) (job_id worker_id provision status : String)
    → (text : Option String) (now : ℕ) (steps : List Step) (p : JobPatch Step) (j : ProvisionJob)
    → get_provision_job s job_id ≡ some j
    → (patch_state now p j.state).status ≡ status
    → (patch_state now p j.state).finished_at ≡ some now
    → (patch_state now p j.state).steps ≡ steps
    → EndsAs
        (record {
          store =
              (update_provision_job
                (set_worker_provision_status s worker_id provision text now)
                job_id
                now
                p).0;
          cancelled = cancelled;
        })
        job_id
        worker_id
        now
        status
        provision
        steps
write_end s cancelled job_id worker_id provision status text now steps p j h is_status is_finished
      is_steps =
    record {
      job = record j { state = patch_state now p j.state };
      found =
          get_provision_job-update (set_worker_provision_status s worker_id provision text now)
            job_id now p j (get_job-worker s job_id worker_id provision text now ∙ h);
      ended_as = is_status;
      finished = is_finished;
      kept_steps = is_steps;
      worker_is = λ w f. worker_status-set s worker_id provision text now w (
          sym (
            find_worker-job (set_worker_provision_status s worker_id provision text now) job_id
              worker_id now p)
          ∙ f);
    }

-- The status that the except clause writes.
abbrev pub failure_status : State → String → String
failure_status st job_id = if is_cancelled st job_id then "cancelled" else "failed"

either_end :
    (b : Bool) (old : String)
    → or_else (if b then "cancelled" else "failed") old ≡ (if b then "cancelled" else "failed")
either_end true old = refl
either_end false old = refl

failed_end :
    (st : State) (job_id worker_id text : String) (now : ℕ) (steps : List Step)
    → HasJob job_id st
    → EndsAs
        (provision_failed job_id worker_id now steps text st)
        job_id
        worker_id
        now
        (failure_status st job_id)
        "failed"
        steps
unfolding provision_failed patch_state
failed_end st job_id worker_id text now steps (j, h) =
    write_end st.store st.cancelled job_id worker_id "failed" (failure_status st job_id) (some text)
      now steps
      (record {
        status = some (if is_cancelled st job_id then "cancelled" else "failed");
        current_step = none;
        steps = some steps;
        error_text = some text;
        finished = true;
      })
      j h (either_end (is_cancelled st job_id) j.state.status) refl refl

succeeded_end :
    (st : State) (job_id worker_id : String) (now : ℕ) (steps : List Step)
    → HasJob job_id st
    → EndsAs
        (provision_succeeded job_id worker_id now steps st)
        job_id
        worker_id
        now
        "succeeded"
        "ready"
        steps
unfolding provision_succeeded patch_state
succeeded_end st job_id worker_id now steps (j, h) =
    write_end st.store st.cancelled job_id worker_id "ready" "succeeded" none now steps
      (record no_patch { status = some "succeeded"; steps = some steps; finished = true }) j h refl
      refl refl

-- What was raised in the end, the lookup of the host name included.
abbrev pub end_error : String → Resolved → Ended → Option String
end_error connection_mode resolved e = elim e.raised [
  | some text ↦ some text
  | none ↦
      if connection_mode == "direct"
      then elim resolved [ unresolved text ↦ some text | host name ↦ none ]
      else none
]

-- The two ways in which a job ends.
pub data IsOver (final : State) (job_id worker_id : String) (now : ℕ) (steps : List Step)
    (raised : Option String) (failure : String) : Type 0 where
  went_well :
      raised ≡ none
      → EndsAs final job_id worker_id now "succeeded" "ready" steps
      → IsOver final job_id worker_id now steps raised failure
  went_wrong :
      (text : String)
      → raised ≡ some text
      → EndsAs final job_id worker_id now failure "failed" steps
      → IsOver final job_id worker_id now steps raised failure

host-HasJob :
    (st : State) (job_id worker_id name : String) (now : ℕ)
    → HasJob job_id st
    → HasJob job_id (record st { store = update_worker_host st.store worker_id name now })
host-HasJob st job_id worker_id name now (j, h) =
    (j, get_job-host st.store job_id worker_id name now ∙ h)

provision_end-IsOver :
    (job_id worker_id connection_mode : String) (now : ℕ) (resolved : Resolved) (e : Ended)
    → HasJob job_id e.state
    → IsOver
        (provision_end job_id worker_id connection_mode now resolved e)
        job_id
        worker_id
        now
        e.steps
        (end_error connection_mode resolved e)
        (failure_status e.state job_id)
unfolding provision_end
provision_end-IsOver job_id worker_id mode now resolved e h = elim (Option-cases e.raised) [
  | inr (text, r) ↦
      rw (r, provision_end)
        (went_wrong text refl (failed_end e.state job_id worker_id text now e.steps h))
  | inl r ↦ rw (r, provision_end) (by_mode resolved)
]
  where
    by_mode :
        (x : Resolved)
        → IsOver
            (if mode == "direct"
              then elim x [
                | unresolved text ↦ provision_failed job_id worker_id now e.steps text e.state
                | host name ↦
                    provision_succeeded job_id worker_id now e.steps (record e.state {
                      store = update_worker_host e.state.store worker_id name now;
                    })
              ]
              else provision_succeeded job_id worker_id now e.steps e.state)
            job_id
            worker_id
            now
            e.steps
            (if mode == "direct"
              then elim x [ unresolved text ↦ some text | host name ↦ none ]
              else none)
            (failure_status e.state job_id)
    by_mode (unresolved text) = elim (Bool-cases (mode == "direct")) [
      | inl d ↦ rw d (went_wrong text refl (failed_end e.state job_id worker_id text now e.steps h))
      | inr d ↦ rw d (went_well refl (succeeded_end e.state job_id worker_id now e.steps h))
    ]
    by_mode (host name) = elim (Bool-cases (mode == "direct")) [
      | inl d ↦ rw d (
          went_well refl (
            succeeded_end
              (record e.state { store = update_worker_host e.state.store worker_id name now })
              job_id worker_id now e.steps (host-HasJob e.state job_id worker_id name now h)))
      | inr d ↦ rw d (went_well refl (succeeded_end e.state job_id worker_id now e.steps h))
    ]

-- The end of the statements in the `try` of run_job.
abbrev pub provision_run : Act → (job_id mode connection_mode : String) → ℕ → State → Ended
provision_run act job_id mode connection_mode now st =
    let steps = initial_steps_for_mode mode connection_mode in
    run_items (save_provision_step job_id now) act job_id "provision job cancelled"
      (provision_items mode connection_mode) steps
      (record st {
        store =
            (update_provision_job st.store job_id now
              (record no_patch { status = some "running"; steps = some steps })).0;
      })

initial-IsSettled :
    (mode connection_mode : String) → All IsSettled (initial_steps_for_mode mode connection_mode)
unfolding initial_steps_for_mode
initial-IsSettled mode connection_mode = pending-IsSettled step_label _

-- Whatever the remote actions do and whether the job is cancelled, it ends: its row gets a finish
-- time, the steps as they stand then, and the status "succeeded" if nothing was raised, otherwise
-- "cancelled" if the job is in the cancelled set then and "failed" if not; the worker becomes
-- ready or failed accordingly. No step is shown as running or failed.
pub run_provision_job-IsOver :
    (act : Act) (job_id worker_id mode connection_mode : String) (now : ℕ) (resolved : Resolved)
    → (st : State) → KeepsJob job_id act
    → HasJob job_id st
    → IsOver
        (run_provision_job act job_id worker_id mode connection_mode now resolved st)
        job_id
        worker_id
        now
        (provision_run act job_id mode connection_mode now st).steps
        (end_error connection_mode resolved (provision_run act job_id mode connection_mode now st))
        (failure_status (provision_run act job_id mode connection_mode now st).state job_id)
      × All IsSettled (provision_run act job_id mode connection_mode now st).steps
unfolding run_provision_job
run_provision_job-IsOver act job_id worker_id mode connection_mode now resolved st keeps h = (
  provision_end-IsOver job_id worker_id connection_mode now resolved
      (provision_run act job_id mode connection_mode now st)
      (run_items-HasJob act job_id "provision job cancelled" now
        (provision_items mode connection_mode) _ _ keeps (update-HasJob st job_id now _ h)),
  run_items-IsSettled (save_provision_step job_id now) act job_id "provision job cancelled"
      (provision_items mode connection_mode) _ _ (initial-IsSettled mode connection_mode),
)
