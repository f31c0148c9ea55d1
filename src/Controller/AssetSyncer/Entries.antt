-- ===== src/Controller/AssetSyncer/Entries.antt =====
-- Each worker of a sync job has its entry, however the threads run (controller/asset_syncer.py).
use agent_eval_orchestrator.Prelude.{
  ℕ, String, ◌≡◌, refl, ap, ◌∙◌, Bool, true, inl, inr, Bool-cases, Option, none, some, List, [],
  ◌∷◌, arith, All, map, any, ◌==◌, eq_refl,
}
use agent_eval_orchestrator.Storage.Schema.{WorkerSteps, Store, Result, ok, err}
use agent_eval_orchestrator.Storage.Templates.{update_task_template_executor_config}
use agent_eval_orchestrator.Controller.AssetSyncer.{initial_worker_steps, set_worker_step_status}
use agent_eval_orchestrator.Controller.AssetSyncer.Threads.{
  Plan, Pc, entry, syncing_cases, cases_synced, syncing_assets, assets_synced, configuring,
  promoting, failing, marking, reporting, ended_well, ended_badly, Sync, mark_failed, configured,
  copied, advance,
}
use agent_eval_orchestrator.Controller.AssetSyncer.Blame.{if_lem}

abbrev pub entry_workers : List WorkerSteps → List String
entry_workers steps = map (λ e. e.worker_id) steps

entry_workers-set :
    (steps : List WorkerSteps) (w id status : String)
    → entry_workers (set_worker_step_status steps w id status) ≡ entry_workers steps
unfolding set_worker_step_status
entry_workers-set [] w id status = refl
entry_workers-set (e ∷ steps) w id status = ground (arith, entry_workers-set steps w id status)

pub entry_workers-initial :
    (ws : List String) (include : Bool) → entry_workers (initial_worker_steps ws include) ≡ ws
unfolding initial_worker_steps
entry_workers-initial [] include = refl
entry_workers-initial (w ∷ ws) include =
    ap (λ (l : List String). w ∷ l) (entry_workers-initial ws include)

module _ (plan : Plan) (now : ℕ) (w : String) (raised : Option String) (st : Sync) where
  twice :
      (id status id' status' : String)
      → entry_workers
          (set_worker_step_status (set_worker_step_status st.steps w id status) w id' status')
        ≡ entry_workers st.steps
  twice id status id' status' =
      entry_workers-set (set_worker_step_status st.steps w id status) w id' status'
      ∙ entry_workers-set st.steps w id status

  failed-workers : entry_workers (mark_failed plan now w st.steps) ≡ entry_workers st.steps
  unfolding mark_failed
  failed-workers = elim (Bool-cases plan.include_assets) [
    | inl e ↦ rw e (twice "sync_cases" "failed" "sync_assets" "failed")
    | inr e ↦ rw e (entry_workers-set st.steps w "sync_cases" "failed")
  ]

  copied-steps : (next : Pc) (o : Option String) → (copied plan now st w next o).steps ≡ st.steps
  copied-steps next none = refl
  copied-steps next (some text) = refl

  configured-steps : (r : Result Store) → (configured plan now st w r).steps ≡ st.steps
  configured-steps (ok s) = refl
  configured-steps (err e) = refl

  pub advance-workers :
      (p : Pc) → entry_workers (advance plan now w raised st p).steps ≡ entry_workers st.steps
  unfolding advance
  advance-workers entry = entry_workers-set st.steps w "sync_cases" "running"
  advance-workers syncing_cases = ap entry_workers (copied-steps cases_synced raised)
  advance-workers cases_synced =
      if_lem (λ st'. entry_workers st'.steps ≡ entry_workers st.steps) plan.include_assets _ _
        (twice "sync_cases" "succeeded" "sync_assets" "running")
        (entry_workers-set st.steps w "sync_cases" "succeeded")
  advance-workers syncing_assets = ap entry_workers (copied-steps assets_synced raised)
  advance-workers assets_synced = entry_workers-set st.steps w "sync_assets" "succeeded"
  advance-workers configuring = ap entry_workers (
      configured-steps
        (update_task_template_executor_config st.store plan.template_id (plan.patch w) [] now))
  advance-workers promoting = refl
  advance-workers (failing text) = failed-workers
  advance-workers (marking text) = refl
  advance-workers (reporting text) = refl
  advance-workers ended_well = refl
  advance-workers ended_badly = refl

-- What holds of each listed worker holds of each entry's.
pub entries-All :
    (f : String → Bool) (steps : List WorkerSteps)
    → ((w : String) → any (λ v. v == w) (entry_workers steps) ≡ true → f w ≡ true)
    → All (λ e. f e.worker_id ≡ true) steps
entries-All f [] h = tt
entries-All f (e ∷ steps) h = (
  h e.worker_id (ground (arith, eq_refl e.worker_id)),
  entries-All f steps (λ w q. h w (ground (arith, q))),
)

pub All-both :
    (P Q R : WorkerSteps → Type 0) (steps : List WorkerSteps)
    → ((e : WorkerSteps) → P e → Q e → R e)
    → All P steps
    → All Q steps
    → All R steps
All-both P Q R [] f p q = tt
All-both P Q R (e ∷ steps) f p q = (f e p.0 q.0, All-both P Q R steps f p.1 q.1)
