-- ===== src/Controller/RerunCoordinator/Start.antt =====
-- controller/run_rerun_coordinator.py: start_rerun after the lock, and as a whole.
use agent_eval_orchestrator.Prelude.{
  ℕ, suc, String, ◌+◌, ◌<>◌, true, false, not, Option, none, some, List, [], ◌∷◌, ◌++◌, length,
  ◌==◌, if◌then◌else◌,
}
use agent_eval_orchestrator.Json
use agent_eval_orchestrator.Json.{Fields, int, end}
use agent_eval_orchestrator.Storage.Schema.{
  Run, Template, BatchRef, one, many, Store, runtime_error, integrity_error, conversion_error, ok,
  err,
}
use agent_eval_orchestrator.Storage.Templates.{get_task_template}
use agent_eval_orchestrator.Storage.Runs.{get_run, update_run_rerun_fields}
use agent_eval_orchestrator.Storage.Batches.{get_batch, create_batch, is_run_primary_terminal}
use agent_eval_orchestrator.Storage.Clone.{clone_primary_batches_to_run}
use agent_eval_orchestrator.Storage.Rerun.{get_run_rerun_job, update_run_rerun_job}
use agent_eval_orchestrator.Controller.RerunCoordinator.{
  Failure, invalid, raised, failed, RerunScope, Fresh, Outcome, done, stopped, Reserved, refused,
  reserved, reserve,
}

-- by_parent.setdefault(parent, []).append(case_id), over the items of a worker.
unfoldable pub add_case :
    (parent case_id : String) → List (String × List String) → List (String × List String)
add_case parent case_id [] = (parent, case_id ∷ []) ∷ []
add_case parent case_id ((p, case_ids) ∷ groups) =
    let rest = add_case parent case_id groups in
    if p == parent then (p, case_ids ++ case_id ∷ []) ∷ groups else (p, case_ids) ∷ rest

unfoldable pub by_parent :
    List (String × List String) → List (String × String) → List (String × List String)
unfolding add_case
by_parent groups [] = groups
by_parent groups ((parent, case_id) ∷ items) = by_parent (add_case parent case_id groups) items

abbrev pub lookup : String → List (String × String) → Option String
lookup key [] = none
lookup key ((k, v) ∷ pairs) = if k == key then some v else lookup key pairs

-- The options of the parent, with the rerun's concurrency where it has one.
unfoldable pub rerun_options :
    Store → (parent_batch_id : String) → (concurrency : Option ℕ) → Fields
unfolding get_batch Json.put
rerun_options s parent_batch_id concurrency =
    let options : Fields = elim (get_batch s parent_batch_id) [
      | none ↦ end
      | some b ↦ b.batch_options
    ] in
    elim concurrency [ none ↦ options | some n ↦ Json.put "concurrency" (int n) options ]

module _ (root : String) (fresh : Fresh) (cloned : List (String × String))
    (concurrency : Option ℕ) where
  -- The batches of one worker, from the number of batches so far.
  unfoldable pub create_worker_batches :
      (worker_id : String) → ℕ → List (String × List String) → Store → Outcome (List String)
  unfolding rerun_options create_batch
  create_worker_batches worker_id i [] s = done s []
  create_worker_batches worker_id i ((parent, case_ids) ∷ groups) s = elim (lookup parent cloned) [
    | none ↦ stopped s (failed ("'" <> parent <> "'"))
    | some copy ↦
        elim (create_batch s root (fresh.batch_ids i) fresh.now fresh.run_id case_ids
          (some worker_id) (rerun_options s copy concurrency) "pending_sync" "exception_rerun"
          (some copy)) [
            | err e ↦ stopped s (raised e)
            | ok made ↦ elim (create_worker_batches worker_id (suc i) groups made.0) [
              | stopped s' f ↦ stopped s' f
              | done s' ids ↦ done s' (made.1.batch_id ∷ ids)
            ]
          ]
  ]

  -- `batches[0] if len(batches) == 1 else batches`
  abbrev pub batch_ref : List String → BatchRef
  batch_ref (id ∷ []) = one id
  batch_ref ids = many ids

  unfoldable pub create_rerun_batches :
      ℕ → List (String × List (String × String)) → Store → Outcome (List (String × BatchRef))
  unfolding create_worker_batches by_parent
  create_rerun_batches i [] s = done s []
  create_rerun_batches i ((worker_id, items) ∷ grouped) s =
      elim (create_worker_batches worker_id i (by_parent [] items) s) [
        | stopped s' f ↦ stopped s' f
        | done s' ids ↦ elim (create_rerun_batches (length ids + i) grouped s') [
          | stopped s'' f ↦ stopped s'' f
          | done s'' refs ↦ done s'' ((worker_id, batch_ref ids) ∷ refs)
        ]
      ]

-- _mark_derived_rerun_failed
unfoldable pub mark_derived_rerun_failed : Store → ℕ → (run_id job_id error_text : String) → Store
unfolding get_run_rerun_job update_run_rerun_fields update_run_rerun_job
mark_derived_rerun_failed s now run_id job_id text = elim (get_run_rerun_job s job_id) [
  | none ↦ (update_run_rerun_fields s run_id now (some "failed") none).0
  | some job ↦
      (update_run_rerun_job (update_run_rerun_fields s run_id now (some "failed") (some job_id)).0
        job_id now (some "failed") none none (some text) true).0
]

-- str(exc)
unfoldable pub text_of_failure : Failure → String
text_of_failure (invalid code message) = message
text_of_failure (raised (runtime_error text)) = text
text_of_failure (raised (integrity_error key)) = "UNIQUE constraint failed: " <> key
text_of_failure (raised (conversion_error text)) = text
text_of_failure (failed text) = text

-- What start_rerun reads and does outside the database: the copies and configurations before the
-- batches are cloned, with the concurrency that they ask for, and the configuration after the
-- batches are made. They may write to the database, and may raise.
pub record World : Type 0 where
  pub prepare : Store → Outcome (Option ℕ)
  pub configure : Store → Outcome (Option ℕ)

module _ (root : String) (world : World) where
  unfoldable pub attach_batches :
      Store → Fresh → RerunScope → List (String × String) → Option ℕ → Outcome String
  unfolding create_rerun_batches update_run_rerun_job
  attach_batches s fresh scope cloned concurrency =
      elim (create_rerun_batches root fresh cloned concurrency 0 scope.grouped s) [
        | stopped s' f ↦ stopped s' f
        | done s' refs ↦ elim (world.configure s') [
          | stopped s'' f ↦ stopped s'' f
          | done s'' _ ↦
              done
                (update_run_rerun_job s'' fresh.job_id fresh.now none none (some refs) none false).0
                fresh.run_id
        ]
      ]

  -- The rest of the `try` after the lock.
  unfoldable pub complete : Store → Fresh → (source_run_id : String) → RerunScope → Outcome String
  unfolding clone_primary_batches_to_run attach_batches
  complete s fresh source_run_id scope = elim (world.prepare s) [
    | stopped s' f ↦ stopped s' f
    | done s' concurrency ↦
        elim (clone_primary_batches_to_run s' root fresh.now fresh.clone_ids fresh.case_ids
          source_run_id fresh.run_id) [
            | err e ↦ stopped s' (raised e)
            | ok cloned ↦ attach_batches cloned.0 fresh scope cloned.1 concurrency
          ]
  ]

  -- The except clause.
  unfoldable pub failed_start : Fresh → Store → Failure → Outcome String
  unfolding mark_derived_rerun_failed text_of_failure
  failed_start fresh s f =
      stopped (mark_derived_rerun_failed s fresh.now fresh.run_id fresh.job_id (text_of_failure f))
        f

  unfoldable pub after_lock :
      Fresh → (source_run_id : String) → RerunScope → Reserved → Outcome String
  unfolding complete failed_start
  after_lock fresh source_run_id scope (refused s none f) = stopped s f
  after_lock fresh source_run_id scope (refused s (some derived) f) = failed_start fresh s f
  after_lock fresh source_run_id scope (reserved s derived) =
      elim (complete s fresh source_run_id scope) [
        | done s' run_id ↦ done s' run_id
        | stopped s' f ↦ failed_start fresh s' f
      ]

  -- start_rerun; `resolve` is _resolve_rerun_scope with the checks of the configuration, which write
  -- nothing.
  unfoldable pub start_rerun :
      Store
      → Fresh
      → (job_name : Option String) → (resolve : Store → Run → Template → Outcome RerunScope)
      → (run_id : String) → Outcome String
  unfolding get_run is_run_primary_terminal get_task_template reserve after_lock
  start_rerun s fresh job_name resolve run_id = elim (get_run s run_id) [
    | none ↦ stopped s (invalid 404 "run not found")
    | some run ↦
        if not (is_run_primary_terminal s run_id)
        then stopped s (invalid 409 "run not finished")
        else elim (get_task_template s run.template_id) [
          | none ↦ stopped s (invalid 404 "task template not found")
          | some template ↦ elim (resolve s run template) [
            | stopped _ f ↦ stopped s f
            | done _ scope ↦
                after_lock fresh run_id scope (reserve s fresh job_name run template scope)
          ]
        ]
  ]
