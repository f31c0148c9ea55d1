-- ===== src/Controller/RerunCoordinator/Reserve.antt =====
-- What a start of a rerun writes under the lock (controller/run_rerun_coordinator.py).
use agent_eval_orchestrator.Prelude.{
  ℕ, String, ◌<>◌, ◌≡◌, refl, subst, ap, ◌∙◌, ◌⊎◌, inl, inr, Bool-cases, Option-cases, Option, none,
  some, List, [], ◌∷◌, arith, eq_refl,
}
use agent_eval_orchestrator.Table
use agent_eval_orchestrator.Storage.Schema.{
  Run, Template, RunRerunJob, Store, Error, integrity_error, Result, ok, err,
}
use agent_eval_orchestrator.Storage.Templates.{get_task_template, clone_task_template}
use agent_eval_orchestrator.Storage.Runs.{
  run_key, get_run, create_run, update_run_display_name, list_active_derived_reruns,
  update_run_rerun_fields,
}
use agent_eval_orchestrator.Storage.Rerun.{rerun_job_key, get_run_rerun_job, create_run_rerun_job}
use agent_eval_orchestrator.Storage.Rerun.Completion.{get_run-update}
use agent_eval_orchestrator.Controller.RerunCoordinator.{
  raised, RerunScope, scope_shards, joined_cases, Fresh, Outcome, done, stopped, Reserved, refused,
  reserved, is_active, linked, link_rerun, reserve,
}

-- A row that was inserted is found.
inserted :
    {A : Type 0} (key : A → String) (row : A) (xs ys : List A)
    → Table.insert key row xs ≡ some ys
    → Table.find key (key row) ys ≡ some row
inserted key row xs ys h = Table.find-insert key (key row) row xs ys h ∙ rw (eq_refl (key row)) refl

run_inserted :
    (s : Store) (row : Run) (o : Option (List Run)) (made : Store × Run)
    → Table.insert run_key row s.runs ≡ o
    → (elim o as (λ _. Result (Store × Run)) [
      | none ↦ err (integrity_error "runs.run_id")
      | some rows ↦ ok (record s { runs = rows }, row)
    ])
      ≡ ok made
    → (get_run made.0 row.run_id ≡ some made.1) × (made.1 ≡ row)
unfolding get_run
run_inserted s row none made e h = absurd (cc h)
run_inserted s row (some rows) made e h =
    let same : (record s { runs = rows }, row) ≡ made = cc h in
    subst (λ (m : Store × Run). (get_run m.0 row.run_id ≡ some m.1) × (m.1 ≡ row)) same
      (inserted run_key row s.runs rows e, refl)

job_inserted :
    (s : Store) (row : RunRerunJob) (o : Option (List RunRerunJob)) (made : Store × RunRerunJob)
    → Table.insert rerun_job_key row s.run_rerun_jobs ≡ o
    → (elim o as (λ _. Result (Store × RunRerunJob)) [
      | none ↦ err (integrity_error "run_rerun_jobs.job_id")
      | some rows ↦ ok (record s { run_rerun_jobs = rows }, row)
    ])
      ≡ ok made
    → (get_run_rerun_job made.0 row.job_id ≡ some made.1) × (made.1 ≡ row) × (made.0.runs ≡ s.runs)
unfolding get_run_rerun_job
job_inserted s row none made e h = absurd (cc h)
job_inserted s row (some rows) made e h =
    let same : (record s { run_rerun_jobs = rows }, row) ≡ made = cc h in
    subst
      (λ (m : Store × RunRerunJob).
        (get_run_rerun_job m.0 row.job_id ≡ some m.1) × (m.1 ≡ row) × (m.0.runs ≡ s.runs))
      same (inserted rerun_job_key row s.run_rerun_jobs rows e, refl, refl)

create_run_inv :
    (s : Store) (run_id : String) (now : ℕ) (stamp template_id : String)
    (name parent : Option String) (made : Store × Run)
    → create_run s run_id now stamp template_id name parent ≡ ok made
    → (get_run made.0 run_id ≡ some made.1) × (made.1.parent_run_id ≡ parent)
unfolding create_run get_run
create_run_inv s run_id now stamp template_id name parent made h =
    elim (Option-cases (get_task_template s template_id)) [
      | inl e ↦ absurd (ground (arith, e, h))
      | inr (t, e) ↦
          let found = run_inserted s _ _ made refl (rw (e, create_run) at h) in
          (found.0, ap (λ (r : Run). r.parent_run_id) found.1)
    ]

create_job_inv :
    (s : Store) (job_id run_id : String) (now : ℕ) (case_ids : List String)
    (shards : List (String × List String)) (types : Option (List String))
    (made : Store × RunRerunJob)
    → create_run_rerun_job s job_id run_id now case_ids shards [] types ≡ ok made
    → (get_run_rerun_job made.0 job_id ≡ some made.1)
      × (made.1.status ≡ "pending")
      × (made.1.case_ids ≡ case_ids)
      × (made.0.runs ≡ s.runs)
unfolding create_run_rerun_job get_run_rerun_job
create_job_inv s job_id run_id now case_ids shards types made h =
    let found = job_inserted s _ _ made refl h in
    (
      found.0,
      ap (λ (j : RunRerunJob). j.status) found.1,
      ap (λ (j : RunRerunJob). j.case_ids) found.1,
      found.2,
    )

-- The run's rerun fields, where both are written.
pub rerun_fields-both :
    (s : Store) (run_id : String) (now : ℕ) (status job_id : String) (r : Run)
    → get_run s run_id ≡ some r
    → get_run (update_run_rerun_fields s run_id now (some status) (some job_id)).0 run_id
      ≡ some (record r { rerun_status = status; rerun_job_id = some job_id; updated_at = now })
unfolding update_run_rerun_fields
rerun_fields-both s run_id now status job_id r h =
    rw (h, update_run_rerun_fields)
      (get_run-update s run_id
        (λ x. record x { rerun_status = status; rerun_job_id = some job_id; updated_at = now })
        (λ x. refl) r h)

pub jobs-fields :
    (s : Store) (run_id job : String) (now : ℕ) (status job_id : Option String)
    → get_run_rerun_job (update_run_rerun_fields s run_id now status job_id).0 job
      ≡ get_run_rerun_job s job
unfolding update_run_rerun_fields get_run_rerun_job
jobs-fields s run_id job now status job_id = ground arith

-- What a start has written when it leaves the lock.
pub record IsReserved (fresh : Fresh) (source : String) (scope : RerunScope) (s : Store)
    : Type 0 where
  pub derived : Run
  pub run_at : get_run s fresh.run_id ≡ some derived
  pub parent_is : derived.parent_run_id ≡ some source
  pub status_is : derived.rerun_status ≡ "syncing"
  pub names : derived.rerun_job_id ≡ some fresh.job_id
  pub job : RunRerunJob
  pub job_at : get_run_rerun_job s fresh.job_id ≡ some job
  pub pending : job.status ≡ "pending"
  pub cases_are : job.case_ids ≡ joined_cases (scope_shards scope)

-- The run after its display name was set or not.
named_run :
    (s : Store) (fresh : Fresh) (job_name : Option String) (r : Run) (source : String)
    → get_run s fresh.run_id ≡ some r
    → r.parent_run_id ≡ some source
    → (n : Run) × (get_run
          (elim job_name as (λ _. Store) [
            | none ↦ s
            | some name ↦ (update_run_display_name s fresh.run_id name fresh.now).0
          ])
          fresh.run_id
        ≡ some n)
      × (n.parent_run_id ≡ some source)
unfolding update_run_display_name
named_run s fresh none r source h parent = (r, h, parent)
named_run s fresh (some name) r source h parent = (
  record r { display_name = name; updated_at = fresh.now },
  get_run-update s fresh.run_id (λ x. record x { display_name = name; updated_at = fresh.now })
      (λ x. refl) r h,
  parent,
)

linked-IsReserved :
    (named : Store) (fresh : Fresh) (scope : RerunScope) (n : Run) (source d : String) (s' : Store)
    (o : Result (Store × RunRerunJob))
    → get_run named fresh.run_id ≡ some n
    → n.parent_run_id ≡ some source
    → create_run_rerun_job named fresh.job_id fresh.run_id fresh.now
        (joined_cases (scope_shards scope))
        (scope_shards scope)
        []
        (some scope.selected_error_types)
      ≡ o
    → (elim o as (λ _. Outcome String) [
      | err e ↦ stopped named (raised e)
      | ok made ↦
          done
            (update_run_rerun_fields made.0 fresh.run_id fresh.now
              (some "syncing")
              (some fresh.job_id)).0
            fresh.run_id
    ])
      ≡ done s' d
    → IsReserved fresh source scope s'
linked-IsReserved named fresh scope n source d s' (err x) h parent e q = absurd (cc q)
linked-IsReserved named fresh scope n source d s' (ok made) h parent e q =
    let job = create_job_inv named fresh.job_id fresh.run_id fresh.now _ _ _ made e in
    let at : get_run made.0 fresh.run_id ≡ some n = unfold get_run in rw job.3 h in
    let same : (update_run_rerun_fields made.0 fresh.run_id fresh.now (some "syncing")
          (some fresh.job_id)).0
        ≡ s' =
      cc q in
    subst (IsReserved fresh source scope) same (record {
      derived = record n {
        rerun_status = "syncing";
        rerun_job_id = some fresh.job_id;
        updated_at = fresh.now;
      };
      run_at = rerun_fields-both made.0 fresh.run_id fresh.now "syncing" fresh.job_id n at;
      parent_is = parent;
      status_is = refl;
      names = refl;
      job = made.1;
      job_at =
          jobs-fields made.0 fresh.run_id fresh.job_id fresh.now (some "syncing")
            (some fresh.job_id)
          ∙ job.0;
      pending = job.1;
      cases_are = job.2;
    })

link_rerun-IsReserved :
    (s : Store) (fresh : Fresh) (job_name : Option String) (scope : RerunScope) (r : Run)
    (source d : String) (s' : Store)
    → get_run s fresh.run_id ≡ some r
    → r.parent_run_id ≡ some source
    → link_rerun s fresh job_name scope ≡ done s' d
    → IsReserved fresh source scope s'
unfolding link_rerun
link_rerun-IsReserved s fresh job_name scope r source d s' h parent e =
    let (n, at, kept) = named_run s fresh job_name r source h parent in
    linked-IsReserved _ fresh scope n source d s' _ at kept refl e

linked_inv :
    (run_id d : String) (s' : Store) (o : Outcome String)
    → linked run_id o ≡ reserved s' d
    → o ≡ done s' d
linked_inv run_id d s' (done s x) h = cc h
linked_inv run_id d s' (stopped s f) h = absurd (cc h)

Result-cases : {T : Type 0} (r : Result T) → ((e : Error) × (r ≡ err e)) ⊎ ((x : T) × (r ≡ ok x))
Result-cases (err e) = inl (e, refl)
Result-cases (ok x) = inr (x, refl)

List-cases : (rs : List Run) → (rs ≡ []) ⊎ ((x : Run) × (xs : List Run) × (rs ≡ x ∷ xs))
List-cases [] = inl refl
List-cases (x ∷ xs) = inr (x, xs, refl)

-- The last two steps, where nothing refused before.
created_inv :
    (s : Store) (fresh : Fresh) (job_name : Option String) (run : Run) (scope : RerunScope)
    (template_id : String) (s' : Store) (d : String) (o : Result (Store × Run))
    → create_run s fresh.run_id fresh.now fresh.stamp template_id
        (some (run.display_name <> " rerun"))
        (some run.run_id)
      ≡ o
    → (elim o as (λ _. Reserved) [
      | err e ↦ refused s none (raised e)
      | ok derived ↦ linked fresh.run_id (link_rerun derived.0 fresh job_name scope)
    ])
      ≡ reserved s' d
    → IsReserved fresh run.run_id scope s'
created_inv s fresh job_name run scope template_id s' d (err x) e h = absurd (cc h)
created_inv s fresh job_name run scope template_id s' d (ok made) e h =
    let found = create_run_inv s fresh.run_id fresh.now fresh.stamp template_id _ _ made e in
    link_rerun-IsReserved made.0 fresh job_name scope made.1 run.run_id d s' found.0 found.1
      (linked_inv fresh.run_id d s' (link_rerun made.0 fresh job_name scope) h)

-- A start that leaves the lock without an exception has written the derived run, with the source
-- run as its parent and as one whose rerun is syncing, and its rerun job with the cases of the
-- scope.
pub reserve-IsReserved :
    (s : Store) (fresh : Fresh) (job_name : Option String) (run : Run) (template : Template)
    (scope : RerunScope) (s' : Store) (d : String)
    → reserve s fresh job_name run template scope ≡ reserved s' d
    → IsReserved fresh run.run_id scope s'
unfolding reserve
reserve-IsReserved s fresh job_name run template scope s' d h =
    elim (Option-cases (get_run s run.run_id)) [
      | inl e ↦ absurd (cc (rw (e, reserve) at h))
      | inr (current, e) ↦ elim (Bool-cases (is_active current.rerun_status)) [
        | inl a ↦ absurd (cc (rw (e, a, reserve) at h))
        | inr a ↦ elim (List-cases (list_active_derived_reruns s run.run_id)) [
          | inr (x, xs, l) ↦ absurd (cc (rw (e, a, l, reserve) at h))
          | inl l ↦
              elim (Result-cases (
                clone_task_template s template.template_id fresh.template_id fresh.now
                  (some (template.name <> " rerun")) none none)) [
                    | inl (x, c) ↦ absurd (cc (rw (e, a, l, c, reserve) at h))
                    | inr (cloned, c) ↦
                        created_inv cloned.0 fresh job_name run scope cloned.1.template_id s' d _
                          refl (rw (e, a, l, c, reserve) at h)
                  ]
        ]
      ]
    ]
