-- ===== src/Controller/AssetSyncer/Threads.antt =====
-- The worker_thread functions of run_job and sync_rerun_job in controller/asset_syncer.py: one
-- thread for each worker, interleaved in any order with each other and with the rest of the
-- program. A step is one block under the lock, one call of the store or one copy.
use agent_eval_orchestrator.Prelude.{
  ℕ, String, ◌<>◌, ◌≡◌, ◌≤◌, Bool, true, Option, none, some, List, [], ◌∷◌, ◌++◌, count, any, ◌==◌,
  if◌then◌else◌,
}
use agent_eval_orchestrator.Json.{Fields}
use agent_eval_orchestrator.Storage.Schema.{
  WorkerSteps, Store, Error, runtime_error, integrity_error, conversion_error, Result, ok, err,
}
use agent_eval_orchestrator.Storage.Templates.{update_task_template_executor_config}
use agent_eval_orchestrator.Storage.Batches.{
  awaits_sync, promote_worker_batches_to_queued, mark_worker_batches_sync_failed,
}
use agent_eval_orchestrator.Storage.Jobs.{no_patch, update_asset_sync_job}
use agent_eval_orchestrator.Controller.AssetSyncer.{initial_worker_steps, set_worker_step_status}

-- What the threads of one job share and never change. run_job names the step in current_step,
-- sync_rerun_job does not.
pub record Plan : Type 0 where
  pub job_id : String
  pub run_id : String
  pub template_id : String
  pub worker_ids : List String
  pub include_assets : Bool
  pub names_step : Bool
  pub patch : String → Fields

-- Where a thread stands, with the text of the exception that it handles.
pub data Pc : Type 0 where
  entry : Pc
  syncing_cases : Pc  -- in _sync_cases
  cases_synced : Pc  -- before the second block under the lock
  syncing_assets : Pc  -- in _sync_bitfun or _sync_bind_assets
  assets_synced : Pc
  configuring : Pc  -- before update_task_template_executor_config
  promoting : Pc
  failing : String → Pc  -- the start of the except clause
  marking : String → Pc  -- before mark_worker_batches_sync_failed
  reporting : String → Pc  -- before errors.append
  ended_well : Pc
  ended_badly : Pc

-- The database, the variables `steps` and `errors`, and the threads by worker.
pub record Sync : Type 0 where
  pub store : Store
  pub steps : List WorkerSteps
  pub errors : List String
  pub pc : String → Pc

abbrev pub set_pc : (String → Pc) → String → Pc → String → Pc
set_pc pc w p v = if v == w then p else pc v

-- str(exc) of what the store raises: the text of the RuntimeError, or SQLite's message for a key that
-- is there already.
abbrev pub raised_text : Error → String
raised_text (runtime_error text) = text
raised_text (conversion_error text) = text
raised_text (integrity_error key) = "UNIQUE constraint failed: " <> key

module _ (plan : Plan) (now : ℕ) where
  -- update_asset_sync_job(job_id, steps=steps), with or without current_step.
  unfoldable pub write_steps : Option String → List WorkerSteps → Store → Store
  unfolding update_asset_sync_job
  write_steps current steps s =
      (update_asset_sync_job s plan.job_id now
        (record no_patch { current_step = current; steps = some steps })).0

  abbrev pub named : String → Option String
  named label = if plan.names_step then some label else none

  -- The steps of a worker whose thread failed.
  unfoldable pub mark_failed : String → List WorkerSteps → List WorkerSteps
  unfolding set_worker_step_status
  mark_failed w steps =
      let failed = set_worker_step_status steps w "sync_cases" "failed" in
      if plan.include_assets then set_worker_step_status failed w "sync_assets" "failed" else failed

  -- A block under the lock that ends with a write of the steps.
  abbrev pub locked : Sync → String → Option String → List WorkerSteps → Pc → Sync
  locked st w current steps p = record st {
    store = write_steps current steps st.store;
    steps = steps;
    pc = set_pc st.pc w p;
  }

  abbrev pub goto : Sync → String → Pc → Sync
  goto st w p = record st { pc = set_pc st.pc w p }

  abbrev pub configured : Sync → String → Result Store → Sync
  configured st w (ok s) = record st { store = s; pc = set_pc st.pc w promoting }
  configured st w (err e) = goto st w (failing (raised_text e))

  abbrev pub copied : Sync → String → Pc → Option String → Sync
  copied st w next none = goto st w next
  copied st w next (some text) = goto st w (failing text)

  -- The next step of the thread of a worker from where it stands; `raised` is what the copy raises,
  -- where the step is one.
  unfoldable pub advance : String → Option String → Sync → Pc → Sync
  unfolding write_steps mark_failed set_worker_step_status
  advance w raised st entry =
      locked st w (named (w <> ":sync_cases"))
        (set_worker_step_status st.steps w "sync_cases" "running") syncing_cases
  advance w raised st syncing_cases = copied st w cases_synced raised
  advance w raised st cases_synced =
      let synced = set_worker_step_status st.steps w "sync_cases" "succeeded" in
      if plan.include_assets
      then locked st w (named (w <> ":sync_assets"))
          (set_worker_step_status synced w "sync_assets" "running") syncing_assets
      else record st { steps = synced; pc = set_pc st.pc w configuring }
  advance w raised st syncing_assets = copied st w assets_synced raised
  advance w raised st assets_synced =
      locked st w none (set_worker_step_status st.steps w "sync_assets" "succeeded") configuring
  advance w raised st configuring =
      configured st w
        (update_task_template_executor_config st.store plan.template_id (plan.patch w) [] now)
  advance w raised st promoting = record st {
    store = (promote_worker_batches_to_queued st.store plan.run_id w).0;
    pc = set_pc st.pc w ended_well;
  }
  advance w raised st (failing text) = locked st w none (mark_failed w st.steps) (marking text)
  advance w raised st (marking text) = record st {
    store = (mark_worker_batches_sync_failed st.store plan.run_id w).0;
    pc = set_pc st.pc w (reporting text);
  }
  advance w raised st (reporting text) = record st {
    errors = st.errors ++ (w <> ": " <> text) ∷ [];
    pc = set_pc st.pc w ended_badly;
  }
  advance w raised st ended_well = st
  advance w raised st ended_badly = st

  unfoldable pub thread_step : String → Option String → Sync → Sync
  unfolding advance
  thread_step w raised st = advance w raised st (st.pc w)

-- `threads` at their start, after the writes before them.
unfoldable pub spawn : Plan → Store → Sync
unfolding initial_worker_steps
spawn plan s = record {
  store = s;
  steps = initial_worker_steps plan.worker_ids plan.include_assets;
  errors = [];
  pc = λ _. entry;
}

-- What the rest of the program does meanwhile: anything that gives no worker a further batch of the
-- run to wait for.
abbrev pub IsQuiet : String → Store → Store → Type 0
IsQuiet run_id s s' =
    (w : String) → count (awaits_sync run_id w) s'.batches ≤ count (awaits_sync run_id w) s.batches

abbrev pub is_listed : Plan → String → Bool
is_listed plan w = any (λ v. v == w) plan.worker_ids

pub data Turn (plan : Plan) (st : Sync) : Sync → Type 0 where
  thread :
      (w : String) (now : ℕ) (raised : Option String)
      → is_listed plan w ≡ true
      → Turn plan st (thread_step plan now w raised st)
  others : (s : Store) → IsQuiet plan.run_id st.store s → Turn plan st (record st { store = s })

pub data Reach (plan : Plan) (s : Store) : Sync → Type 0 where
  start : Reach plan s (spawn plan s)
  later : {st st' : Sync} → Reach plan s st → Turn plan st st' → Reach plan s st'
