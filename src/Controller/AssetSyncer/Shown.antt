-- ===== src/Controller/AssetSyncer/Shown.antt =====
-- A step of a thread keeps the shown steps true (controller/asset_syncer.py).
use agent_eval_orchestrator.Prelude.{
  ℕ, String, ◌≡◌, refl, sym, subst, ap, ◌∙◌, Bool, true, false, Option, none, some, List, [], All,
  if◌then◌else◌,
}
use agent_eval_orchestrator.Storage.Schema.{Step, WorkerSteps, Store, Result, ok, err}
use agent_eval_orchestrator.Storage.Templates.{update_task_template_executor_config}
use agent_eval_orchestrator.Controller.StepRunner.{set_step_status}
use agent_eval_orchestrator.Controller.AssetSyncer.{worker_steps, set_worker_step_status}
use agent_eval_orchestrator.Controller.AssetSyncer.Threads.{
  Plan, Pc, entry, syncing_cases, cases_synced, syncing_assets, assets_synced, configuring,
  promoting, failing, marking, reporting, ended_well, ended_badly, Sync, set_pc, mark_failed,
  configured, copied, advance, raised_text,
}
use agent_eval_orchestrator.Controller.AssetSyncer.Steps.{
  Shows, set_cases-worker_steps, set_assets-worker_steps, worker_steps_alone, Agrees-start,
  Agrees-imp, Agrees-set, Agrees-end,
}

-- Every worker's entry shows where its thread stands.
abbrev pub IsShown : Bool → Sync → Type 0
IsShown include st = All (λ e. Shows include (st.pc e.worker_id) e.steps) st.steps

module _ (include : Bool) (pc : String → Pc) (w : String) (p p' : Pc) where
  -- The thread moves on, the entries stay.
  moved :
      (steps : List WorkerSteps)
      → pc w ≡ p
      → ((l : List Step) → Shows include p l → Shows include p' l)
      → All (λ e. Shows include (pc e.worker_id) e.steps) steps
      → All (λ e. Shows include (set_pc pc w p' e.worker_id) e.steps) steps
  moved steps at f h = Agrees-end include pc w p' steps (
      Agrees-imp include pc w (Shows include p) (Shows include p') steps f
        (Agrees-start include pc w p steps at h))

  moved_with :
      (steps : List WorkerSteps) (id status : String)
      → pc w ≡ p
      → ((l : List Step) → Shows include p l → Shows include p' (set_step_status l id status))
      → All (λ e. Shows include (pc e.worker_id) e.steps) steps
      → All
          (λ e. Shows include (set_pc pc w p' e.worker_id) e.steps)
          (set_worker_step_status steps w id status)
  moved_with steps id status at f h =
      Agrees-end include pc w p' (set_worker_step_status steps w id status) (
        Agrees-set include pc w (Shows include p) (Shows include p') steps id status f
          (Agrees-start include pc w p steps at h))

  moved_twice :
      (R : List Step → Type 0) (steps : List WorkerSteps) (id status id' status' : String)
      → pc w ≡ p
      → ((l : List Step) → Shows include p l → R (set_step_status l id status))
      → ((l : List Step) → R l → Shows include p' (set_step_status l id' status'))
      → All (λ e. Shows include (pc e.worker_id) e.steps) steps
      → All
          (λ e. Shows include (set_pc pc w p' e.worker_id) e.steps)
          (set_worker_step_status (set_worker_step_status steps w id status) w id' status')
  moved_twice R steps id status id' status' at f g h =
      Agrees-end include pc w p'
        (set_worker_step_status (set_worker_step_status steps w id status) w id' status')
        (Agrees-set include pc w R (Shows include p') (set_worker_step_status steps w id status) id'
          status' g
          (Agrees-set include pc w (Shows include p) R steps id status f
            (Agrees-start include pc w p steps at h)))

set_cases :
    (include : Bool) (cases assets status : String) (l : List Step)
    → l ≡ worker_steps include cases assets
    → set_step_status l "sync_cases" status ≡ worker_steps include status assets
set_cases include cases assets status l h =
    ap (λ (x : List Step). set_step_status x "sync_cases" status) h
    ∙ set_cases-worker_steps include cases assets status

set_assets :
    (include : Bool) (cases assets status : String) (l : List Step)
    → l ≡ worker_steps include cases assets
    → set_step_status l "sync_assets" status ≡ worker_steps include cases status
set_assets include cases assets status l h =
    ap (λ (x : List Step). set_step_status x "sync_assets" status) h
    ∙ set_assets-worker_steps include cases assets status

-- Without assets the second status is not shown.
without_assets :
    (include : Bool) (cases assets other : String)
    → include ≡ false
    → worker_steps include cases assets ≡ worker_steps include cases other
without_assets include cases assets other e =
    subst (λ b. worker_steps b cases assets ≡ worker_steps b cases other) (sym e)
      (worker_steps_alone cases assets other)

failed-Shows :
    (plan : Plan) (pc : String → Pc) (w text : String) (steps : List WorkerSteps)
    → pc w ≡ failing text
    → All (λ e. Shows plan.include_assets (pc e.worker_id) e.steps) steps
    → (include : Bool) → plan.include_assets ≡ include
    → All
        (λ e. Shows plan.include_assets (set_pc pc w (marking text) e.worker_id) e.steps)
        (if include
          then set_worker_step_status
              (set_worker_step_status steps w "sync_cases" "failed")
              w
              "sync_assets"
              "failed"
          else set_worker_step_status steps w "sync_cases" "failed")
failed-Shows plan pc w text steps at h true e =
    moved_twice plan.include_assets pc w (failing text) (marking text)
      (λ l. (assets : String) × (l ≡ worker_steps plan.include_assets "failed" assets)) steps
      "sync_cases" "failed" "sync_assets" "failed" at
      (λ l x. (x.1, set_cases plan.include_assets x.0 x.1 "failed" l x.2))
      (λ l x. set_assets plan.include_assets "failed" x.0 "failed" l x.1) h
failed-Shows plan pc w text steps at h false e =
    moved_with plan.include_assets pc w (failing text) (marking text) steps "sync_cases" "failed" at
      (λ l x.
        set_cases plan.include_assets x.0 x.1 "failed" l x.2
        ∙ without_assets plan.include_assets "failed" x.1 "failed" e)
      h

synced-Shows :
    (plan : Plan) (now : ℕ) (w : String) (st : Sync)
    → st.pc w ≡ cases_synced
    → IsShown plan.include_assets st
    → (include : Bool) → plan.include_assets ≡ include
    → (s : Store)
    → IsShown plan.include_assets (
        if include
        then record st {
          store = s;
          steps =
              set_worker_step_status
                (set_worker_step_status st.steps w "sync_cases" "succeeded")
                w
                "sync_assets"
                "running";
          pc = set_pc st.pc w syncing_assets;
        }
        else record st {
          steps = set_worker_step_status st.steps w "sync_cases" "succeeded";
          pc = set_pc st.pc w configuring;
        })
synced-Shows plan now w st at h true e s =
    moved_twice plan.include_assets st.pc w cases_synced syncing_assets
      (λ l. l ≡ worker_steps plan.include_assets "succeeded" "pending") st.steps "sync_cases"
      "succeeded" "sync_assets" "running" at
      (λ l x. set_cases plan.include_assets "running" "pending" "succeeded" l x)
      (λ l x. set_assets plan.include_assets "succeeded" "pending" "running" l x) h
synced-Shows plan now w st at h false e s =
    moved_with plan.include_assets st.pc w cases_synced configuring st.steps "sync_cases"
      "succeeded" at
      (λ l x.
        set_cases plan.include_assets "running" "pending" "succeeded" l x
        ∙ without_assets plan.include_assets "succeeded" "pending" "succeeded" e)
      h

copied-IsShown :
    (plan : Plan) (now : ℕ) (st : Sync) (w : String) (p next : Pc) (raised : Option String)
    → st.pc w ≡ p
    → ((l : List Step) → Shows plan.include_assets p l → Shows plan.include_assets next l)
    → ((l : List Step)
        → Shows plan.include_assets p l
        → (cases : String) × (assets : String) × (l
            ≡ worker_steps plan.include_assets cases assets))
    → IsShown plan.include_assets st
    → IsShown plan.include_assets (copied plan now st w next raised)
copied-IsShown plan now st w p next none at f g h =
    moved plan.include_assets st.pc w p next st.steps at f h
copied-IsShown plan now st w p next (some text) at f g h =
    moved plan.include_assets st.pc w p (failing text) st.steps at g h

configured-IsShown :
    (plan : Plan) (now : ℕ) (st : Sync) (w : String) (r : Result Store)
    → st.pc w ≡ configuring
    → IsShown plan.include_assets st
    → IsShown plan.include_assets (configured plan now st w r)
configured-IsShown plan now st w (ok s) at h =
    moved plan.include_assets st.pc w configuring promoting st.steps at (λ l x. x) h
configured-IsShown plan now st w (err e) at h =
    moved plan.include_assets st.pc w configuring (failing (raised_text e)) st.steps at
      (λ l x. ("succeeded", "succeeded", x)) h

pub advance-IsShown :
    (plan : Plan) (now : ℕ) (w : String) (raised : Option String) (st : Sync) (p : Pc)
    → st.pc w ≡ p
    → IsShown plan.include_assets st
    → IsShown plan.include_assets (advance plan now w raised st p)
unfolding advance
advance-IsShown plan now w raised st entry at h =
    moved_with plan.include_assets st.pc w entry syncing_cases st.steps "sync_cases" "running" at
      (λ l x. set_cases plan.include_assets "pending" "pending" "running" l x) h
advance-IsShown plan now w raised st syncing_cases at h =
    copied-IsShown plan now st w syncing_cases cases_synced raised at (λ l x. x)
      (λ l x. ("running", "pending", x)) h
advance-IsShown plan now w raised st cases_synced at h =
    synced-Shows plan now w st at h plan.include_assets refl _
advance-IsShown plan now w raised st syncing_assets at h =
    copied-IsShown plan now st w syncing_assets assets_synced raised at (λ l x. x)
      (λ l x. ("succeeded", "running", x)) h
advance-IsShown plan now w raised st assets_synced at h =
    moved_with plan.include_assets st.pc w assets_synced configuring st.steps "sync_assets"
      "succeeded" at (λ l x. set_assets plan.include_assets "succeeded" "running" "succeeded" l x) h
advance-IsShown plan now w raised st configuring at h =
    configured-IsShown plan now st w
      (update_task_template_executor_config st.store plan.template_id (plan.patch w) [] now) at h
advance-IsShown plan now w raised st promoting at h =
    moved plan.include_assets st.pc w promoting ended_well st.steps at (λ l x. x) h
advance-IsShown plan now w raised st (failing text) at h =
    unfold mark_failed in failed-Shows plan st.pc w text st.steps at h plan.include_assets refl
advance-IsShown plan now w raised st (marking text) at h =
    moved plan.include_assets st.pc w (marking text) (reporting text) st.steps at (λ l x. x) h
advance-IsShown plan now w raised st (reporting text) at h =
    moved plan.include_assets st.pc w (reporting text) ended_badly st.steps at (λ l x. x) h
advance-IsShown plan now w raised st ended_well at h = h
advance-IsShown plan now w raised st ended_badly at h = h
