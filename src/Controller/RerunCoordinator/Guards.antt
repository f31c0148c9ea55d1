-- ===== src/Controller/RerunCoordinator/Guards.antt =====
-- At most one rerun of a run at a time (controller/run_rerun_coordinator.py).
use agent_eval_orchestrator.Prelude.{
  String, ◌≡◌, ◌≤◌, refl, sym, subst, Bool, true, false, ◌||◌, ◌&&◌, inl, inr, Bool-cases,
  Option-cases, Option, none, some, List, [], ◌∷◌, arith, filter, count, length, sort_by,
  length-sort_by, length-filter, ◌==◌, eq_refl,
}
use agent_eval_orchestrator.Table
use agent_eval_orchestrator.Storage.Schema.{Run, Template, Store}
use agent_eval_orchestrator.Storage.Runs.{run_key, get_run, list_active_derived_reruns}
use agent_eval_orchestrator.Controller.RerunCoordinator.{
  Failure, invalid, RerunScope, Fresh, refused, is_active, reserve,
}

-- A run of the table that is derived from another and whose rerun is on its way.
abbrev pub IsOnItsWay : Store → (derived source : String) → Type 0
IsOnItsWay s derived source =
    (d : Run) × (get_run s derived ≡ some d)
    × (d.parent_run_id ≡ some source)
    × (is_active d.rerun_status ≡ true)

abbrev is_derived : String → Run → Bool
is_derived source r =
    elim r.parent_run_id [ none ↦ false | some p ↦ p == source ]
    && (r.rerun_status == "syncing" || r.rerun_status == "running")

count-find :
    (source k : String) (runs : List Run) (d : Run)
    → Table.find run_key k runs ≡ some d
    → d.parent_run_id ≡ some source
    → is_active d.rerun_status ≡ true
    → 1 ≤ count (is_derived source) runs
unfolding Table.find
count-find source k [] d h parent active = absurd (cc h)
count-find source k (r ∷ runs) d h parent active = elim (Bool-cases (run_key r == k)) [
  | inl e ↦
      let same : r ≡ d = ground (arith, h, e) in
      let yes =
        subst (λ (x : Run). is_derived source x ≡ true) (sym same)
          (rw (parent, active, eq_refl source) refl) in
      ground (arith, yes)
  | inr e ↦
      let rest = count-find source k runs d (ground (arith, h, e)) parent active in
      ground (arith, rest)
]

head_of : (xs : List Run) → 1 ≤ length xs → (r : Run) × (rs : List Run) × (xs ≡ r ∷ rs)
head_of [] h = absurd (omega (arith, h))
head_of (r ∷ rs) h = (r, rs, refl)

some_listed :
    (s : Store) (derived source : String)
    → IsOnItsWay s derived source
    → (r : Run) × (rs : List Run) × (list_active_derived_reruns s source ≡ r ∷ rs)
unfolding list_active_derived_reruns get_run
some_listed s derived source (d, at, parent, active) =
    head_of (sort_by (λ r. r.created_at) (filter (is_derived source) s.runs)) (
      omega (
        arith,
        length-sort_by (λ (r : Run). r.created_at) (filter (is_derived source) s.runs),
        length-filter (is_derived source) s.runs,
        count-find source derived s.runs d at parent active,
      ))

pub refused_while :
    (s : Store) (fresh : Fresh) (job_name : Option String) (run : Run) (template : Template)
    (scope : RerunScope) (derived : String)
    → IsOnItsWay s derived run.run_id
    → (f : Failure) × (reserve s fresh job_name run template scope ≡ refused s none f)
unfolding reserve
refused_while s fresh job_name run template scope derived h =
    elim (Option-cases (get_run s run.run_id)) [
      | inl e ↦ (invalid 404 "run not found", rw (e, reserve) refl)
      | inr (current, e) ↦ elim (Bool-cases (is_active current.rerun_status)) [
        | inl a ↦ (invalid 409 "rerun already in progress", rw (e, a, reserve) refl)
        | inr a ↦
            let (r, rs, l) = some_listed s derived run.run_id h in
            (invalid 409 "rerun already in progress", rw (e, a, l, reserve) refl)
      ]
    ]
