-- ===== src/Controller/RerunCoordinator.antt =====
-- controller/run_rerun_coordinator.py: start_rerun. What it reads of the file system (the scope of
-- the rerun, the checks of the configuration, the name of the new job directory, the copy of the
-- jobs) is an argument; what it does to the database is modelled.
pub mod Start
pub mod Guards
pub mod Reserve
pub mod Once
pub mod Failed
use agent_eval_orchestrator.Prelude.{
  ℕ, suc, String, ◌<>◌, Bool, true, false, ◌||◌, Option, none, some, List, [], ◌∷◌, ◌++◌, map, ◌==◌,
  if◌then◌else◌,
}
use agent_eval_orchestrator.Table
use agent_eval_orchestrator.Json
use agent_eval_orchestrator.Json.{Fields, Value, int, end}
use agent_eval_orchestrator.Storage.Schema.{
  Run, Template, Batch, BatchRef, one, many, Store, Error, Result, ok, err,
}
use agent_eval_orchestrator.Storage.Templates.{get_task_template, clone_task_template}
use agent_eval_orchestrator.Storage.Runs.{
  get_run, create_run, update_run_display_name, list_active_derived_reruns, update_run_rerun_fields,
}
use agent_eval_orchestrator.Storage.Batches.{get_batch, create_batch, is_run_primary_terminal}
use agent_eval_orchestrator.Storage.Clone.{clone_primary_batches_to_run}
use agent_eval_orchestrator.Storage.Rerun.{
  get_run_rerun_job, create_run_rerun_job, update_run_rerun_job,
}

-- A RerunValidationError, or what the store or a copy raised.
pub data Failure : Type 0 where
  invalid : (code : ℕ) → (message : String) → Failure
  raised : Error → Failure
  failed : (text : String) → Failure

-- A RerunScope as far as it is used here: the items of a worker are the batches that the errored
-- cases come from, with the case ids of the data set.
pub record RerunScope : Type 0 where
  pub selected_error_types : List String
  pub grouped : List (String × List (String × String))

abbrev pub scope_shards : RerunScope → List (String × List String)
scope_shards scope =
    map
      (λ (g : String × List (String × String)). (g.0, map (λ (item : String × String). item.1) g.1))
      scope.grouped

abbrev pub joined_cases : List (String × List String) → List String
joined_cases [] = []
joined_cases ((w, case_ids) ∷ shards) = case_ids ++ joined_cases shards

-- What new_id and the clock give to one start.
pub record Fresh : Type 0 where
  pub now : ℕ
  pub stamp : String
  pub template_id : String
  pub run_id : String
  pub job_id : String
  pub clone_ids : ℕ → String
  pub case_ids : ℕ → ℕ → String
  pub batch_ids : ℕ → String

-- A step that may raise leaves the state it has come to.
pub data Outcome (T : Type 0) : Type 0 where
  done : Store → T → Outcome T
  stopped : Store → Failure → Outcome T

-- After create_run: the derived run's name, its job and its rerun fields.
unfoldable pub link_rerun : Store → Fresh → (job_name : Option String) → RerunScope → Outcome String
unfolding update_run_display_name create_run_rerun_job update_run_rerun_fields
link_rerun s fresh job_name scope =
    let named : Store = elim job_name [
      | none ↦ s
      | some name ↦ (update_run_display_name s fresh.run_id name fresh.now).0
    ] in
    let shards = scope_shards scope in
    elim (create_run_rerun_job named fresh.job_id fresh.run_id fresh.now (joined_cases shards)
      shards [] (some scope.selected_error_types)) [
        | err e ↦ stopped named (raised e)
        | ok made ↦
            done
              (update_run_rerun_fields made.0 fresh.run_id fresh.now (some "syncing")
                (some fresh.job_id)).0
              fresh.run_id
      ]

abbrev pub is_active : String → Bool
is_active status = status == "syncing" || status == "running"

-- The part under the lock; `none` in place of the derived run where it is not created yet.
pub data Reserved : Type 0 where
  refused : Store → (derived : Option String) → Failure → Reserved
  reserved : Store → (derived : String) → Reserved

abbrev linked : String → Outcome String → Reserved
linked run_id (done s derived) = reserved s derived
linked run_id (stopped s f) = refused s (some run_id) f

unfoldable pub reserve :
    Store → Fresh → (job_name : Option String) → Run → Template → RerunScope → Reserved
unfolding get_run list_active_derived_reruns clone_task_template create_run link_rerun
reserve s fresh job_name run template scope = elim (get_run s run.run_id) [
  | none ↦ refused s none (invalid 404 "run not found")
  | some current ↦
      if is_active current.rerun_status
      then refused s none (invalid 409 "rerun already in progress")
      else elim (list_active_derived_reruns s run.run_id) [
        | _ ∷ _ ↦ refused s none (invalid 409 "rerun already in progress")
        | [] ↦
            elim (clone_task_template s template.template_id fresh.template_id fresh.now
              (some (template.name <> " rerun")) none none) [
                | err e ↦ refused s none (raised e)
                | ok cloned ↦
                    elim (create_run cloned.0 fresh.run_id fresh.now fresh.stamp
                      cloned.1.template_id (some (run.display_name <> " rerun"))
                      (some run.run_id)) [
                        | err e ↦ refused cloned.0 none (raised e)
                        | ok derived ↦
                            linked fresh.run_id (link_rerun derived.0 fresh job_name scope)
                      ]
              ]
      ]
]
