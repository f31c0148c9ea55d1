-- ===== src/Storage/Runs.antt =====
-- storage/store.py: runs, and their sync and rerun fields.
use agent_eval_orchestrator.Prelude.{
  ℕ, String, ◌<>◌, Bool, ◌||◌, ◌&&◌, Option, none, some, List, filter, sort_by, coalesce, ◌==◌,
}
use agent_eval_orchestrator.Table
use agent_eval_orchestrator.Text.{or_empty, or_else}
use agent_eval_orchestrator.Json.{Fields, end}
use agent_eval_orchestrator.Storage.Schema.{
  Run, Store, runtime_error, integrity_error, Result, ok, err, ◌>>=◌, or_raise,
}
use agent_eval_orchestrator.Storage.Templates.{get_task_template}

abbrev pub run_key : Run → String
run_key r = r.run_id

-- get_run
unfoldable pub get_run : Store → String → Option Run
unfolding Table.find
get_run s run_id = Table.find run_key run_id s.runs

-- create_run. `run_id` is what new_id("run") gives, and `stamp` the text of the time that the
-- default name ends with.
unfoldable pub create_run :
    Store
    → (run_id : String) (now : ℕ) (stamp : String)
    → (template_id : String) (display_name parent_run_id : Option String) → Result (Store × Run)
unfolding get_task_template Table.insert
create_run s run_id now stamp template_id display_name parent_run_id = do
  template ← or_raise (get_task_template s template_id) (runtime_error "template not found")
  let row : Run = record {
    run_id = run_id;
    template_id = template_id;
    owner = template.owner;
    display_name = or_else (or_empty display_name) (template.name <> " " <> stamp);
    bound_worker_id = none;
    latest_batch_id = none;
    parent_run_id = parent_run_id;
    sync_status = "";
    sync_job_id = none;
    sync_manifest = end;
    rerun_status = "idle";
    rerun_job_id = none;
    created_at = now;
    updated_at = now;
  }
  elim (Table.insert run_key row s.runs) [
    | none ↦ err (integrity_error "runs.run_id")
    | some rows ↦ ok (record s { runs = rows }, row)
  ]

abbrev pub update_run : Store → String → (Run → Run) → Store
update_run s run_id f = record s { runs = Table.update run_key run_id f s.runs }

-- update_run_display_name: the state, and the row as it is then.
unfoldable pub update_run_display_name :
    Store → (run_id display_name : String) (now : ℕ) → Store × Option Run
unfolding get_run
update_run_display_name s run_id display_name now =
    let s' =
      update_run s run_id (λ r. record r { display_name = display_name; updated_at = now }) in
    (s', get_run s' run_id)

-- list_active_derived_reruns
unfoldable pub list_active_derived_reruns : Store → String → List Run
list_active_derived_reruns s parent_run_id =
    sort_by (λ r. r.created_at)
      (filter
        (λ r.
          elim r.parent_run_id [ none ↦ Bool.false | some p ↦ p == parent_run_id ]
          && (r.rerun_status == "syncing" || r.rerun_status == "running"))
        s.runs)

-- update_run_sync_fields: an argument that is None leaves its column as it is.
unfoldable pub update_run_sync_fields :
    Store
    → (run_id : String) (now : ℕ)
    → (sync_status sync_job_id : Option String) (sync_manifest : Option Fields) → Store × Option Run
update_run_sync_fields s run_id now sync_status sync_job_id sync_manifest =
    elim (get_run s run_id) [
      | none ↦ (s, none)
      | some run ↦
          let s' = update_run s run_id (λ r. record r {
            sync_status = elim sync_status [ some x ↦ x | none ↦ run.sync_status ];
            sync_job_id = coalesce sync_job_id run.sync_job_id;
            sync_manifest = elim sync_manifest [ some x ↦ x | none ↦ run.sync_manifest ];
            updated_at = now;
          }) in
          (s', get_run s' run_id)
    ]

-- `str(run.get("rerun_status") or "idle")`
abbrev pub rerun_status_of : Run → String
rerun_status_of r = or_else r.rerun_status "idle"

-- update_run_rerun_fields
unfoldable pub update_run_rerun_fields :
    Store
    → (run_id : String) (now : ℕ) → (rerun_status rerun_job_id : Option String) → Store × Option Run
update_run_rerun_fields s run_id now rerun_status rerun_job_id = elim (get_run s run_id) [
  | none ↦ (s, none)
  | some run ↦
      let s' = update_run s run_id (λ r. record r {
        rerun_status = elim rerun_status [ some x ↦ x | none ↦ rerun_status_of run ];
        rerun_job_id = coalesce rerun_job_id run.rerun_job_id;
        updated_at = now;
      }) in
      (s', get_run s' run_id)
]
