-- ===== src/Storage/Rerun/Completion.antt =====
-- When finish_rerun_batch_if_complete of storage/store.py ends a rerun, and with which status.
use agent_eval_orchestrator.Prelude.{
  ℕ, String, ◌≡◌, ◌↔◌, refl, ap, sym, subst, ◌∙◌, inl, inr, Bool, true, false, not, ◌&&◌, ◌||◌,
  none, some, List, [], ◌∷◌, arith, all, any, Bool-cases, ◌==◌, eq_iff, eq_refl, if◌then◌else◌,
}
use agent_eval_orchestrator.Table
use agent_eval_orchestrator.Text.{is_empty}
use agent_eval_orchestrator.Storage.Schema.{Batch, Run, RunRerunJob, Store}
use agent_eval_orchestrator.Storage.Runs.{run_key, get_run, update_run, update_run_rerun_fields}
use agent_eval_orchestrator.Storage.Batches.{get_batch, is_terminal}
use agent_eval_orchestrator.Storage.Rerun.{
  rerun_job_key, get_run_rerun_job, update_run_rerun_job, rerun_statuses, is_failure, final_status,
  finish_job, finish_rerun_batch_if_complete,
}

-- A rerun batch with its run and the rerun job that the run names.
pub record IsRerun (s : Store) (batch_id : String) (batch : Batch) (run : Run) (job_id : String)
    (job : RunRerunJob) : Type 0 where
  pub batch_at : get_batch s batch_id ≡ some batch
  pub kind : batch.batch_kind ≡ "exception_rerun"
  pub run_at : get_run s batch.run_id ≡ some run
  pub names : run.rerun_job_id ≡ some job_id
  pub proper : is_empty job_id ≡ false
  pub job_at : get_run_rerun_job s job_id ≡ some job

finish-eq :
    (s : Store) (now : ℕ) (batch_id : String) (batch : Batch) (run : Run) (job_id : String)
    → (job : RunRerunJob) → IsRerun s batch_id batch run job_id job
    → finish_rerun_batch_if_complete s now batch_id
      ≡ finish_job s now batch.run_id job (rerun_statuses s job)
unfolding finish_rerun_batch_if_complete
finish-eq s now batch_id batch run job_id job r = ground (
  arith,
  r.batch_at,
  r.kind,
  r.run_at,
  r.names,
  r.proper,
  r.job_at,
  eq_iff batch.batch_kind "exception_rerun",
)

pub get_run-update :
    (s : Store) (run_id : String) (f : Run → Run)
    → ((r : Run) → run_key (f r) ≡ run_key r)
    → (run : Run) → get_run s run_id ≡ some run
    → get_run (update_run s run_id f) run_id ≡ some (f run)
unfolding get_run
get_run-update s run_id f keeps run h =
    ground (arith, Table.find-update run_key run_id run_id f s.runs keeps, eq_refl run_id)

-- The run's row after update_run_rerun_fields.
pub rerun_fields-lem :
    (s : Store) (run_id : String) (now : ℕ) (status : String) (run : Run)
    → get_run s run_id ≡ some run
    → (get_run (update_run_rerun_fields s run_id now (some status) none).0 run_id
        ≡ some (record run {
          rerun_status = status;
          rerun_job_id = run.rerun_job_id;
          updated_at = now;
        }))
      × ((update_run_rerun_fields s run_id now (some status) none).0.run_rerun_jobs
          ≡ s.run_rerun_jobs)
unfolding update_run_rerun_fields
rerun_fields-lem s run_id now status run h =
    rw (h, update_run_rerun_fields)
      (
        get_run-update s run_id
            (λ r. record r {
              rerun_status = status;
              rerun_job_id = run.rerun_job_id;
              updated_at = now;
            })
            (λ r. refl) run h,
        refl,
      )

get_rerun_job-update :
    (s : Store) (job_id : String) (f : RunRerunJob → RunRerunJob)
    → ((j : RunRerunJob) → rerun_job_key (f j) ≡ rerun_job_key j)
    → (job : RunRerunJob) → get_run_rerun_job s job_id ≡ some job
    → get_run_rerun_job
        (record s { run_rerun_jobs = Table.update rerun_job_key job_id f s.run_rerun_jobs })
        job_id
      ≡ some (f job)
unfolding get_run_rerun_job
get_rerun_job-update s job_id f keeps job h =
    ground (
      arith,
      Table.find-update rerun_job_key job_id job_id f s.run_rerun_jobs keeps,
      eq_refl job_id,
    )

rerun_job-lem :
    (s : Store) (job_id : String) (now : ℕ) (status : String) (job : RunRerunJob)
    → get_run_rerun_job s job_id ≡ some job
    → (get_run_rerun_job
          (update_run_rerun_job s job_id now (some status) none none none true).0
          job_id
        ≡ some (record job { status = status; finished_at = some now }))
      × ((update_run_rerun_job s job_id now (some status) none none none true).0.runs ≡ s.runs)
unfolding update_run_rerun_job
rerun_job-lem s job_id now status job h =
    rw (h, update_run_rerun_job)
      (
        get_rerun_job-update s job_id
            (λ j. record j {
              status = status;
              sync_job_id = job.sync_job_id;
              rerun_batches = job.rerun_batches;
              error_text = job.error_text;
              finished_at = some now;
            })
            (λ j. refl) job h,
        refl,
      )

-- The run and the job at the end of a rerun.
pub record Completed (s s' : Store) (now : ℕ) (run_id : String) (run : Run) (job : RunRerunJob)
    (status : String) : Type 0 where
  pub run_after : get_run s' run_id ≡ some (record run { rerun_status = status; updated_at = now })
  pub job_after :
      get_run_rerun_job s' job.job_id
      ≡ some (record job { status = status; finished_at = some now })
  pub batches : s'.batches ≡ s.batches
  pub case_runs : s'.case_runs ≡ s.case_runs

get_run-same : (s t : Store) (id : String) → s.runs ≡ t.runs → get_run s id ≡ get_run t id
unfolding get_run
get_run-same s t id h = rw h

get_job-same :
    (s t : Store) (id : String)
    → s.run_rerun_jobs ≡ t.run_rerun_jobs
    → get_run_rerun_job s id ≡ get_run_rerun_job t id
unfolding get_run_rerun_job
get_job-same s t id h = rw h

same_rows :
    (s : Store) (now : ℕ) (run_id job_id status : String)
    → ((update_run_rerun_fields s run_id now (some status) none).0.batches ≡ s.batches)
      × ((update_run_rerun_fields s run_id now (some status) none).0.case_runs ≡ s.case_runs)
      × ((update_run_rerun_job s job_id now (some status) none none none true).0.batches
          ≡ s.batches)
      × ((update_run_rerun_job s job_id now (some status) none none none true).0.case_runs
          ≡ s.case_runs)
unfolding update_run_rerun_fields update_run_rerun_job
same_rows s now run_id job_id status = (ground arith, ground arith, ground arith, ground arith)

-- Once every batch of the rerun is terminal, the run and its rerun job get the final status, the
-- run its time of change and the job its finish time, and no other field of theirs changes; batches
-- and cases stay as they are.
pub finish_rerun_batch-Completed :
    (s : Store) (now : ℕ) (batch_id : String) (batch : Batch) (run : Run) (job_id : String)
    → (job : RunRerunJob) → IsRerun s batch_id batch run job_id job
    → all is_terminal (rerun_statuses s job) ≡ true
    → Completed s
        (finish_rerun_batch_if_complete s now batch_id)
        now
        batch.run_id
        run
        job
        (final_status (rerun_statuses s job))
finish_rerun_batch-Completed s now batch_id batch run job_id job r done =
    let key : job.job_id ≡ job_id =
      unfold get_run_rerun_job in
      Table.key_of_find rerun_job_key job_id s.run_rerun_jobs job r.job_at in
    let status = final_status (rerun_statuses s job) in
    let mid = (update_run_rerun_fields s batch.run_id now (some status) none).0 in
    let end = (update_run_rerun_job mid job.job_id now (some status) none none none true).0 in
    let is_end : finish_rerun_batch_if_complete s now batch_id ≡ end =
      finish-eq s now batch_id batch run job_id job r
      ∙ (unfold finish_job in rw (done, finish_job)) in
    let one = rerun_fields-lem s batch.run_id now status run r.run_at in
    let at_mid : get_run_rerun_job mid job.job_id ≡ some job =
      get_job-same mid s job.job_id one.1 ∙ ap (get_run_rerun_job s) key ∙ r.job_at in
    let two = rerun_job-lem mid job.job_id now status job at_mid in
    let rows = same_rows s now batch.run_id job.job_id status in
    let rows' = same_rows mid now batch.run_id job.job_id status in
    subst (λ x. Completed s x now batch.run_id run job status) (sym is_end)
      (record {
        run_after = get_run-same end mid batch.run_id two.1 ∙ one.0;
        job_after = two.0;
        batches = rows'.2 ∙ rows.0;
        case_runs = rows'.3 ∙ rows.1;
      })

terminal_outcome :
    (status : String) → is_terminal status ≡ true → is_failure status ≡ not (status == "succeeded")
unfolding is_terminal
terminal_outcome status h = elim (Bool-cases (status == "succeeded")) [
  | inl e ↦
      subst (λ x. is_failure x ≡ not (x == "succeeded")) (sym ((eq_iff status "succeeded").0 e))
        refl
  | inr e ↦ ground arith
]

any_failure :
    (statuses : List String)
    → all is_terminal statuses ≡ true
    → any is_failure statuses ≡ not (all (λ x. x == "succeeded") statuses)
any_failure [] h = refl
any_failure (x ∷ xs) h =
    let (this, rest) = and_parts (is_terminal x) (all is_terminal xs) h in
    or_of_nots (is_failure x) (any is_failure xs) (x == "succeeded")
      (all (λ y. y == "succeeded") xs) (terminal_outcome x this) (any_failure xs rest)
  where
    and_parts : (a b : Bool) → (a && b) ≡ true → (a ≡ true) × (b ≡ true)
    and_parts a b h = ground arith

    or_of_nots : (a b c d : Bool) → a ≡ not c → b ≡ not d → (a || b) ≡ not (c && d)
    or_of_nots a b c d p q = ground arith

failed_or_succeeded :
    (b : Bool) → (◌≡◌ {A = String} (if b then "failed" else "succeeded") "succeeded") ↔ (b ≡ false)
failed_or_succeeded true = (λ e. (let t = (eq_iff "failed" "succeeded").1 e in cc), λ e. cc)
failed_or_succeeded false = (λ e. refl, λ e. refl)

-- Of terminal statuses the final one is "succeeded" exactly where each of them is.
pub final_status-succeeded :
    (statuses : List String)
    → all is_terminal statuses ≡ true
    → (final_status statuses ≡ "succeeded") ↔ (all (λ x. x == "succeeded") statuses ≡ true)
unfolding final_status
final_status-succeeded statuses h =
    let same = any_failure statuses h in
    let either = failed_or_succeeded (any is_failure statuses) in
    (λ e. (let no_failure = either.0 e in ground arith), λ e. either.1 (ground arith))
