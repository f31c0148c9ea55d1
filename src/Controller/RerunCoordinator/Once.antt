-- ===== src/Controller/RerunCoordinator/Once.antt =====
-- Two starts of a rerun of one run (controller/run_rerun_coordinator.py).
use agent_eval_orchestrator.Prelude.{
  String, ◌≡◌, refl, sym, subst, ◌∙◌, true, inl, inr, Bool-cases, Option-cases, Option, some,
}
use agent_eval_orchestrator.Table
use agent_eval_orchestrator.Storage.Schema.{Run, Template, Store}
use agent_eval_orchestrator.Storage.Templates.{get_task_template}
use agent_eval_orchestrator.Storage.Runs.{run_key, get_run}
use agent_eval_orchestrator.Controller.RerunCoordinator.{
  Failure, invalid, RerunScope, Fresh, Outcome, done, stopped, reserved, reserve,
}
use agent_eval_orchestrator.Storage.Batches.{is_run_primary_terminal}
use agent_eval_orchestrator.Controller.RerunCoordinator.Start.{World, after_lock, start_rerun}
use agent_eval_orchestrator.Controller.RerunCoordinator.Guards.{IsOnItsWay, refused_while}
use agent_eval_orchestrator.Controller.RerunCoordinator.Reserve.{IsReserved, reserve-IsReserved}

IsReserved-IsOnItsWay :
    (fresh : Fresh) (source : String) (scope : RerunScope) (s' s : Store)
    → IsReserved fresh source scope s'
    → get_run s fresh.run_id ≡ get_run s' fresh.run_id
    → IsOnItsWay s fresh.run_id source
IsReserved-IsOnItsWay fresh source scope s' s h same =
    (h.derived, same ∙ h.run_at, h.parent_is, rw h.status_is refl)

start_rerun-refused :
    (root : String) (world : World) (s : Store) (fresh : Fresh) (job_name : Option String)
    (resolve : Store → Run → Template → Outcome RerunScope) (derived run_id : String)
    → IsOnItsWay s derived run_id
    → (f : Failure) × (start_rerun root world s fresh job_name resolve run_id ≡ stopped s f)
unfolding start_rerun
start_rerun-refused root world s fresh job_name resolve derived run_id h =
    elim (Option-cases (get_run s run_id)) [
      | inl e ↦ (invalid 404 "run not found", rw (e, start_rerun) refl)
      | inr (run, e) ↦ elim (Bool-cases (is_run_primary_terminal s run_id)) [
        | inr t ↦ (invalid 409 "run not finished", rw (e, t, start_rerun) refl)
        | inl t ↦ elim (Option-cases (get_task_template s run.template_id)) [
          | inl q ↦ (invalid 404 "task template not found", rw (e, t, q, start_rerun) refl)
          | inr (template, q) ↦
              let same : run.run_id ≡ run_id =
                unfold get_run in Table.key_of_find run_key run_id s.runs run e in
              let on_way = subst (IsOnItsWay s derived) (sym same) h in
              by_scope run template e t q on_way (resolve s run template) refl
        ]
      ]
    ]
  where
    by_scope :
        (run : Run) (template : Template)
        → get_run s run_id ≡ some run
        → is_run_primary_terminal s run_id ≡ true
        → get_task_template s run.template_id ≡ some template
        → IsOnItsWay s derived run.run_id
        → (o : Outcome RerunScope) → resolve s run template ≡ o
        → (f : Failure) × (start_rerun root world s fresh job_name resolve run_id ≡ stopped s f)
    by_scope run template e t q on_way (stopped s1 f) r = (f, rw (e, t, q, r, start_rerun) refl)
    by_scope run template e t q on_way (done s1 scope) r =
        let (f, refused_now) = refused_while s fresh job_name run template scope derived on_way in
        (f, rw (e, t, q, r, refused_now, start_rerun, after_lock) refl)

-- Once a start of a rerun has left the lock without an exception, the derived run is in the table,
-- with the source run as its parent and with a rerun that is syncing, and so is its job, with the
-- cases of the scope; and in every later state in which the derived run's row is as it was then,
-- any other start for the same source run raises and writes nothing.
pub reserve-once :
    (root : String) (world : World) (s : Store) (fresh : Fresh) (job_name : Option String)
    (run : Run) (template : Template) (scope : RerunScope) (s' : Store) (derived : String)
    (later : Store) (fresh2 : Fresh) (job_name2 : Option String)
    (resolve : Store → Run → Template → Outcome RerunScope)
    → reserve s fresh job_name run template scope ≡ reserved s' derived
    → get_run later fresh.run_id ≡ get_run s' fresh.run_id
    → IsReserved fresh run.run_id scope s'
      × ((f : Failure) × (start_rerun root world later fresh2 job_name2 resolve run.run_id
            ≡ stopped later f))
reserve-once root world s fresh job_name run template scope s' derived later fresh2 job_name2
      resolve h same =
    let written = reserve-IsReserved s fresh job_name run template scope s' derived h in
    (
      written,
      start_rerun-refused root world later fresh2 job_name2 resolve fresh.run_id run.run_id
          (IsReserved-IsOnItsWay fresh run.run_id scope s' later written same),
    )
