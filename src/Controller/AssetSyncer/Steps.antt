-- ===== src/Controller/AssetSyncer/Steps.antt =====
-- The steps that a sync job shows for each worker (controller/asset_syncer.py).
use agent_eval_orchestrator.Prelude.{
  String, ◌≡◌, refl, sym, subst, arith, All-imp, eq_refl, eq_iff, ap, ◌∙◌, inl, inr, Bool, true,
  false, List, [], ◌∷◌, All, Bool-cases, ◌==◌, if◌then◌else◌,
}
use agent_eval_orchestrator.Storage.Schema.{Step, WorkerSteps}
use agent_eval_orchestrator.Controller.StepRunner.{set_step_status}
use agent_eval_orchestrator.Controller.AssetSyncer.{
  worker_steps, initial_worker_steps, set_worker_step_status,
}
use agent_eval_orchestrator.Controller.AssetSyncer.Threads.{
  Pc, set_pc, entry, syncing_cases, cases_synced, syncing_assets, assets_synced, failing, marking,
  reporting, ended_badly,
}

-- What the entries of a worker say while its thread stands there.
abbrev pub cases_status : Pc → String
cases_status entry = "pending"
cases_status syncing_cases = "running"
cases_status cases_synced = "running"
cases_status (marking text) = "failed"
cases_status (reporting text) = "failed"
cases_status ended_badly = "failed"
cases_status _ = "succeeded"

abbrev pub assets_status : Pc → String
assets_status entry = "pending"
assets_status syncing_cases = "pending"
assets_status cases_synced = "pending"
assets_status syncing_assets = "running"
assets_status assets_synced = "running"
assets_status (marking text) = "failed"
assets_status (reporting text) = "failed"
assets_status ended_badly = "failed"
assets_status _ = "succeeded"

-- At the start of the except clause they say how far the thread came.
abbrev pub Shows : Bool → Pc → List Step → Type 0
Shows include (failing text) steps =
    (cases : String) × (assets : String) × (steps ≡ worker_steps include cases assets)
Shows include pc steps = steps ≡ worker_steps include (cases_status pc) (assets_status pc)

pub set_cases-worker_steps :
    (include : Bool) (cases assets status : String)
    → set_step_status (worker_steps include cases assets) "sync_cases" status
      ≡ worker_steps include status assets
unfolding worker_steps set_step_status
set_cases-worker_steps true cases assets status = refl
set_cases-worker_steps false cases assets status = refl

pub set_assets-worker_steps :
    (include : Bool) (cases assets status : String)
    → set_step_status (worker_steps include cases assets) "sync_assets" status
      ≡ worker_steps include cases status
unfolding worker_steps set_step_status
set_assets-worker_steps true cases assets status = refl
set_assets-worker_steps false cases assets status = refl

pub worker_steps_alone :
    (cases assets other : String) → worker_steps false cases assets ≡ worker_steps false cases other
unfolding worker_steps
worker_steps_alone cases assets other = refl

-- A predicate on the entries, by worker: setting a status moves one worker's from P to Q.
module _ (P Q : String → List Step → Type 0) (w id status : String) where
  set-All_step :
      (e : WorkerSteps)
      → P e.worker_id e.steps
      → ((l : List Step) → P w l → Q w (set_step_status l id status))
      → ((v : String) (l : List Step) → (v == w) ≡ false → P v l → Q v l)
      → ((e.worker_id == w) ≡ true → e.worker_id ≡ w)
      → Q
          (if e.worker_id == w
            then record e { steps = set_step_status e.steps id status }
            else e).worker_id
          (if e.worker_id == w
            then record e { steps = set_step_status e.steps id status }
            else e).steps
  set-All_step e p own other same = elim (Bool-cases (e.worker_id == w)) [
    | inl q ↦ rw q (
        subst (λ v. Q v (set_step_status e.steps id status)) (sym (same q))
          (own e.steps (subst (λ v. P v e.steps) (same q) p)))
    | inr q ↦ rw q (other e.worker_id e.steps q p)
  ]

  pub set-All :
      (steps : List WorkerSteps)
      → All (λ e. P e.worker_id e.steps) steps
      → ((l : List Step) → P w l → Q w (set_step_status l id status))
      → ((v : String) (l : List Step) → (v == w) ≡ false → P v l → Q v l)
      → All (λ e. Q e.worker_id e.steps) (set_worker_step_status steps w id status)
  unfolding set_worker_step_status
  set-All [] h own other = tt
  set-All (e ∷ steps) h own other =
      (set-All_step e h.0 own other (eq_iff e.worker_id w).0, set-All steps h.1 own other)

pub initial-Shows :
    (ws : List String) (include : Bool)
    → All (λ e. Shows include entry e.steps) (initial_worker_steps ws include)
unfolding initial_worker_steps
initial-Shows [] include = tt
initial-Shows (w ∷ ws) include = (refl, initial-Shows ws include)

-- Every entry agrees with its thread, but that of `w` with R.
module _ (include : Bool) (pc : String → Pc) (w : String) where
  abbrev pub Agrees : (List Step → Type 0) → String → List Step → Type 0
  Agrees R v l = ((v == w) ≡ true → R l) × ((v == w) ≡ false → Shows include (pc v) l)

  pub Agrees-start :
      (p : Pc) (steps : List WorkerSteps)
      → pc w ≡ p
      → All (λ e. Shows include (pc e.worker_id) e.steps) steps
      → All (λ e. Agrees (Shows include p) e.worker_id e.steps) steps
  Agrees-start p steps at =
      All-imp
        (λ e h. (
          λ q. subst (λ x. Shows include x e.steps) (ap pc ((eq_iff e.worker_id w).0 q) ∙ at) h,
          λ q. h,
        ))
        steps

  pub Agrees-imp :
      (R Q : List Step → Type 0) (steps : List WorkerSteps)
      → ((l : List Step) → R l → Q l)
      → All (λ e. Agrees R e.worker_id e.steps) steps
      → All (λ e. Agrees Q e.worker_id e.steps) steps
  Agrees-imp R Q steps f = All-imp (λ e h. (λ q. f e.steps (h.0 q), h.1)) steps

  pub Agrees-set :
      (R Q : List Step → Type 0) (steps : List WorkerSteps) (id status : String)
      → ((l : List Step) → R l → Q (set_step_status l id status))
      → All (λ e. Agrees R e.worker_id e.steps) steps
      → All (λ e. Agrees Q e.worker_id e.steps) (set_worker_step_status steps w id status)
  Agrees-set R Q steps id status f h =
      set-All (Agrees R) (Agrees Q) w id status steps h
        (λ l a. (λ q. f l (a.0 q), λ q. absurd (ground (arith, q, eq_refl w))))
        (λ v l ne a. (λ q. absurd (ground (arith, q, ne)), a.1))

  pub Agrees-end :
      (p : Pc) (steps : List WorkerSteps)
      → All (λ e. Agrees (Shows include p) e.worker_id e.steps) steps
      → All (λ e. Shows include (set_pc pc w p e.worker_id) e.steps) steps
  Agrees-end p steps =
      All-imp
        (λ e h. elim (Bool-cases (e.worker_id == w)) [
          | inl q ↦ rw q (h.0 q)
          | inr q ↦ rw q (h.1 q)
        ])
        steps
