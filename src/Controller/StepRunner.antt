-- ===== src/Controller/StepRunner.antt =====
-- What the run_job methods of controller/provisioner.py and controller/worker_updater.py have in
-- common: _run_step, set_step_status and the `steps` that the except clause sees.
pub mod Progress
use agent_eval_orchestrator.Prelude.{
  ℕ, String, Bool, true, false, not, Option, none, some, List, [], ◌∷◌, map, any, ◌==◌,
  if◌then◌else◌,
}
use agent_eval_orchestrator.Storage.Schema.{Step, Store}

-- set_step_status
unfoldable pub set_step_status : List Step → String → String → List Step
set_step_status [] step_id status = []
set_step_status (step ∷ steps) step_id status =
    (if step.id == step_id then record step { status = status } else step)
    ∷ set_step_status steps step_id status

-- The steps of a job that has not begun, from their ids.
unfoldable pub pending_steps : (String → String) → List String → List Step
pending_steps label [] = []
pending_steps label (id ∷ ids) =
    record { id = id; label = label id; status = "pending" } ∷ pending_steps label ids

-- The database, and the ids in the set `_cancelled` of the object that runs the job.
pub record State : Type 0 where
  pub store : Store
  pub cancelled : List String

abbrev pub is_cancelled : State → String → Bool
is_cancelled st job_id = any (λ id. id == job_id) st.cancelled

-- What a remote action does, by the id of its step: while it runs other threads may write to the
-- database and may cancel the job; it returns, or raises an exception with a text. The actions run
-- ssh, git and uv, which are not under the repository.
abbrev pub Act : Type 0
Act = String → State → State × Option String

-- One statement of a run_job: a step, or a test before one that raises.
pub data Item : Type 0 where
  run : String → Item
  require : Bool → String → Item

-- The end of the statements in the `try`: the state, `steps` as the variable stands then, and what
-- was raised.
pub record Ended : Type 0 where
  pub state : State
  pub steps : List Step
  pub raised : Option String

-- `save store step steps` is the update method of the job's table, with current_step and steps.
module _ (save : Store → String → List Step → Store) (act : Act)
    (job_id cancelled_text : String) where
  -- _run_step: the state, and what was raised; the new value of `steps` is in run_items.
  unfoldable pub run_step : List Step → String → State → State × Option String
  run_step steps step_id st =
      if is_cancelled st job_id
      then (st, some cancelled_text)
      else act step_id
          (record st { store = save st.store step_id (set_step_status steps step_id "running") })

  -- `steps = self._run_step(...)`, one statement after the other: what raises leaves `steps` as it
  -- was before its statement.
  unfoldable pub run_items : List Item → List Step → State → Ended
  run_items [] steps st = record { state = st; steps = steps; raised = none }
  run_items (require ok text ∷ items) steps st =
      let rest = run_items items steps st in
      if ok then rest else record { state = st; steps = steps; raised = some text }
  run_items (run id ∷ items) steps st =
      let next = run_step steps id st in
      elim next.1 [
        | some text ↦ record { state = next.0; steps = steps; raised = some text }
        | none ↦
            run_items items (set_step_status (set_step_status steps id "running") id "succeeded")
              next.0
      ]
