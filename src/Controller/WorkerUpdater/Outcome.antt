-- ===== src/Controller/WorkerUpdater/Outcome.antt =====
-- How a worker update job ends (controller/worker_updater.py).
use agent_eval_orchestrator.Prelude.{
  ℕ, String, ◌≡◌, refl, inl, inr, Bool, true, false, not, none, some, List, [], ◌∷◌, ◌++◌, All,
  Bool-cases, Option-cases, if◌then◌else◌,
}
use agent_eval_orchestrator.Text.{or_else, is_empty}
use agent_eval_orchestrator.Storage.Schema.{Step, WorkerUpdateJob, ok}
use agent_eval_orchestrator.Storage.Jobs.{
  JobPatch, no_patch, patch_state, get_worker_update_job, update_worker_update_job,
}
use agent_eval_orchestrator.Storage.Jobs.Finish.{get_worker_update_job-update}
use agent_eval_orchestrator.Controller.StepRunner.{
  pending_steps, State, is_cancelled, Act, Item, run, require, Ended, run_step, run_items,
}
use agent_eval_orchestrator.Controller.StepRunner.Progress.{
  IsSettled, IsSucceeded, runs, pending-IsSettled, run_items-IsSettled, run_items-IsSucceeded,
}
use agent_eval_orchestrator.Controller.WorkerUpdater.{
  update_step_label, is_target, initial_update_step_ids, UpdatePaths, update_items,
  save_update_step, update_end, update_started, run_update_job,
}

abbrev pub HasUpdateJob : String → State → Type 0
HasUpdateJob job_id st = (j : WorkerUpdateJob) × (get_worker_update_job st.store job_id ≡ some j)

-- No action deletes the job's row.
abbrev pub KeepsUpdateJob : String → Act → Type 0
KeepsUpdateJob job_id act =
    (id : String) (st : State) → HasUpdateJob job_id st → HasUpdateJob job_id (act id st).0

update-HasUpdateJob :
    (st : State) (job_id : String) (now : ℕ) (p : JobPatch Step)
    → HasUpdateJob job_id st
    → HasUpdateJob job_id (record st { store = (update_worker_update_job st.store job_id now p).0 })
update-HasUpdateJob st job_id now p (j, h) =
    (_, get_worker_update_job-update st.store job_id now p j h)

run_step-HasUpdateJob :
    (act : Act) (job_id text : String) (now : ℕ) (steps : List Step) (id : String) (st : State)
    → KeepsUpdateJob job_id act
    → HasUpdateJob job_id st
    → HasUpdateJob job_id (run_step (save_update_step job_id now) act job_id text steps id st).0
unfolding run_step save_update_step
run_step-HasUpdateJob act job_id text now steps id st keeps h =
    elim (Bool-cases (is_cancelled st job_id)) [
      | inl e ↦ rw e h
      | inr e ↦ rw e (keeps id _ (update-HasUpdateJob st job_id now _ h))
    ]

run_items-HasUpdateJob :
    (act : Act) (job_id text : String) (now : ℕ) (items : List Item) (steps : List Step)
    (st : State)
    → KeepsUpdateJob job_id act
    → HasUpdateJob job_id st
    → HasUpdateJob job_id
        (run_items (save_update_step job_id now) act job_id text items steps st).state
unfolding run_items
run_items-HasUpdateJob act job_id text now [] steps st keeps h = h
run_items-HasUpdateJob act job_id text now (require b t ∷ items) steps st keeps h =
    elim (Bool-cases b) [
      | inl e ↦ rw e (run_items-HasUpdateJob act job_id text now items steps st keeps h)
      | inr e ↦ rw e h
    ]
run_items-HasUpdateJob act job_id text now (run id ∷ items) steps st keeps h =
    let next = run_step (save_update_step job_id now) act job_id text steps id st in
    let kept = run_step-HasUpdateJob act job_id text now steps id st keeps h in
    elim (Option-cases next.1) [
      | inr (t, e) ↦ rw (e, run_items) kept
      | inl e ↦
          rw (e, run_items) (run_items-HasUpdateJob act job_id text now items _ next.0 keeps kept)
    ]

-- The job's row after the end.
pub record UpdateEndsAs (final : State) (job_id : String) (now : ℕ) (status : String)
    (steps : List Step) : Type 0 where
  pub job : WorkerUpdateJob
  pub found : get_worker_update_job final.store job_id ≡ some job
  pub ended_as : job.state.status ≡ status
  pub finished : job.state.finished_at ≡ some now
  pub kept_steps : job.state.steps ≡ steps

-- The status that a job ends with.
abbrev pub end_status : String → Ended → String
end_status job_id e = elim e.raised [
  | none ↦ "succeeded"
  | some text ↦ if is_cancelled e.state job_id then "cancelled" else "failed"
]

either_status :
    (b : Bool) (old : String)
    → or_else (if b then "cancelled" else "failed") old ≡ (if b then "cancelled" else "failed")
either_status true old = refl
either_status false old = refl

write_update :
    (st : State) (job_id status : String) (now : ℕ) (steps : List Step) (p : JobPatch Step)
    → (j : WorkerUpdateJob) → get_worker_update_job st.store job_id ≡ some j
    → (patch_state now p j.state).status ≡ status
    → (patch_state now p j.state).finished_at ≡ some now
    → (patch_state now p j.state).steps ≡ steps
    → UpdateEndsAs
        (record st { store = (update_worker_update_job st.store job_id now p).0 })
        job_id
        now
        status
        steps
write_update st job_id status now steps p j h is_status is_finished is_steps = record {
  job = record j { state = patch_state now p j.state };
  found = get_worker_update_job-update st.store job_id now p j h;
  ended_as = is_status;
  finished = is_finished;
  kept_steps = is_steps;
}

update_end-UpdateEndsAs :
    (job_id : String) (now : ℕ) (e : Ended)
    → HasUpdateJob job_id e.state
    → UpdateEndsAs (update_end job_id now e) job_id now (end_status job_id e) e.steps
unfolding update_end patch_state
update_end-UpdateEndsAs job_id now e (j, h) = elim (Option-cases e.raised) [
  | inl r ↦
      rw (r, update_end)
        (write_update e.state job_id "succeeded" now e.steps
          (record no_patch { status = some "succeeded"; steps = some e.steps; finished = true }) j h
          refl refl refl)
  | inr (text, r) ↦
      rw (r, update_end)
        (write_update e.state job_id (if is_cancelled e.state job_id then "cancelled" else "failed")
          now e.steps
          (record {
            status = some (if is_cancelled e.state job_id then "cancelled" else "failed");
            current_step = none;
            steps = some e.steps;
            error_text = some text;
            finished = true;
          })
          j h (either_status (is_cancelled e.state job_id) j.state.status) refl refl)
]

-- The end of the statements in the `try` of run_job, up to the last one.
abbrev pub update_job_run : Act → String → List String → ℕ → UpdatePaths → State → Ended
update_job_run act job_id targets now p st =
    run_items (save_update_step job_id now) act job_id "update job cancelled"
      (update_items targets p.harbor_dir)
      (pending_steps update_step_label (initial_update_step_ids targets))
      (update_started job_id now targets st)

started-HasUpdateJob :
    (job_id : String) (now : ℕ) (targets : List String) (st : State)
    → HasUpdateJob job_id st
    → HasUpdateJob job_id (update_started job_id now targets st)
unfolding update_started
started-HasUpdateJob job_id now targets st h = update-HasUpdateJob st job_id now _ h

-- Where the worker's paths are known: whatever the remote actions do, as long as none deletes the
-- job's row, the job ends. No exception leaves run_job, the row gets a finish time, the steps as
-- they stand and the status "succeeded", "cancelled" or "failed", and no step is shown as running
-- or failed.
pub run_update_job-UpdateEndsAs :
    (act : Act) (job_id : String) (targets : List String) (now : ℕ) (p : UpdatePaths) (st : State)
    → KeepsUpdateJob job_id act
    → HasUpdateJob job_id st
    → ((run_update_job act job_id targets now (ok p) st).1 ≡ none)
      × UpdateEndsAs
          (run_update_job act job_id targets now (ok p) st).0
          job_id
          now
          (end_status job_id (update_job_run act job_id targets now p st))
          (update_job_run act job_id targets now p st).steps
      × All IsSettled (update_job_run act job_id targets now p st).steps
unfolding run_update_job
run_update_job-UpdateEndsAs act job_id targets now p st keeps h = (
  refl,
  update_end-UpdateEndsAs job_id now (update_job_run act job_id targets now p st) (
      run_items-HasUpdateJob act job_id "update job cancelled" now
        (update_items targets p.harbor_dir) _ _ keeps
        (started-HasUpdateJob job_id now targets st h)),
  run_items-IsSettled (save_update_step job_id now) act job_id "update job cancelled"
      (update_items targets p.harbor_dir) _ _
      (pending-IsSettled update_step_label (initial_update_step_ids targets)),
)

AmongItems : (aeo harbor known : Bool) → Type 0
AmongItems aeo harbor known =
    All
      (λ id.
        runs id (
          run "validate_ssh"
          ∷ run "stop_daemon"
          ∷ ((if aeo then run "pull_aeo" ∷ run "sync_aeo" ∷ [] else [])
              ++ (if harbor
                  then require known "cannot derive harbor repo from sharedRoot"
                    ∷ run "pull_harbor"
                    ∷ []
                  else [])
              ++ run "restart_daemon" ∷ run "wait_register" ∷ []))
        ≡ true)
      ("validate_ssh"
        ∷ "stop_daemon"
        ∷ ((if aeo then "pull_aeo" ∷ "sync_aeo" ∷ [] else [])
            ++ (if harbor then "pull_harbor" ∷ [] else [])
            ++ "restart_daemon" ∷ "wait_register" ∷ []))

all-AmongItems : (aeo harbor known : Bool) → AmongItems aeo harbor known
unfolding AmongItems
all-AmongItems true true known = (refl, (refl, (refl, (refl, (refl, (refl, (refl, tt)))))))
all-AmongItems true false known = (refl, (refl, (refl, (refl, (refl, (refl, tt))))))
all-AmongItems false true known = (refl, (refl, (refl, (refl, (refl, tt)))))
all-AmongItems false false known = (refl, (refl, (refl, (refl, tt))))

-- A job whose statements raised nothing has run every step that it listed for its targets: all of
-- them are shown as succeeded.
pub update_job_run-IsSucceeded :
    (act : Act) (job_id : String) (targets : List String) (now : ℕ) (p : UpdatePaths) (st : State)
    → (update_job_run act job_id targets now p st).raised ≡ none
    → All IsSucceeded (update_job_run act job_id targets now p st).steps
unfolding initial_update_step_ids update_items AmongItems
update_job_run-IsSucceeded act job_id targets now p st well =
    run_items-IsSucceeded (save_update_step job_id now) act job_id "update job cancelled"
      update_step_label (initial_update_step_ids targets) (update_items targets p.harbor_dir) _
      (all-AmongItems (is_target "aeo" targets) (is_target "harbor" targets)
        (not (is_empty p.harbor_dir)))
      well
