-- ===== src/Tests/Syncs.antt =====
-- Sync jobs, on a small state: two workers, of which the copies of one fail.
use agent_eval_orchestrator.Prelude.{
  ℕ, zero, suc, ◌≤◌, String, ◌<>◌, ◌≡◌, refl, subst, true, false, Option, none, some, List, [], ◌∷◌,
  arith, All, any, count, eq_iff, ◌==◌, Bool-cases, inl, inr, if◌then◌else◌,
}
use agent_eval_orchestrator.Table
use agent_eval_orchestrator.Json.{Fields, text, obj, end, field}
use agent_eval_orchestrator.Storage.Schema.{
  Batch, AssetSyncJob, RunRerunJob, WorkerSteps, Store, one,
}
use agent_eval_orchestrator.Storage.Batches.{
  awaits_sync, mark_worker_batches_sync_failed, promote_worker_batches_to_queued,
}
use agent_eval_orchestrator.Storage.Runs.{get_run}
use agent_eval_orchestrator.Storage.Rerun.{get_run_rerun_job}
use agent_eval_orchestrator.Storage.Jobs.{get_asset_sync_job}
use agent_eval_orchestrator.Core.WorkerPaths.{to_path, path_text}
use agent_eval_orchestrator.Core.BindMounts.{build_sync_bind_mounts}
use agent_eval_orchestrator.Controller.AssetSyncer.{
  initial_worker_steps, executor_patch, worker_asset_paths,
}
use agent_eval_orchestrator.Controller.AssetSyncer.Threads.{
  Plan, Sync, thread_step, spawn, is_listed, Reach, start, later, thread,
}
use agent_eval_orchestrator.Controller.AssetSyncer.Blame.{has_none}
use agent_eval_orchestrator.Controller.AssetSyncer.Soundness.{IsSound, Reach-IsSound}
use agent_eval_orchestrator.Controller.AssetSyncer.JobEnd.{
  has_ended, AllEnded, IsJoined, JobOver, end_job-IsJoined,
}
use agent_eval_orchestrator.Controller.AssetSyncer.Ends.{
  ThreadTurn, take_turns, turns_of, take_turns-IsJoined,
}
use agent_eval_orchestrator.Controller.AssetSyncer.Job.{end_job}
use agent_eval_orchestrator.Controller.AssetSyncer.RerunJob.{
  RerunIds, end_rerun, promote_all, lacks_dataset, sync_without_dataset, set_all_steps,
}
use agent_eval_orchestrator.Controller.AssetSyncer.RerunEnd.{
  HasRows, RerunOver, EndsBy, end_rerun-IsJoined,
}
use agent_eval_orchestrator.Controller.AssetSyncer.RerunAlone.{
  sync_without_dataset-known, sync_without_dataset-missing,
}
use agent_eval_orchestrator.Controller.AssetSyncer.Patches.{
  of_worker, patched, merge_config-executor_patch,
}
use agent_eval_orchestrator.Storage.Templates.{merge_config, update_task_template_executor_config}
use agent_eval_orchestrator.Tests.Data.{run_a, new_batch, two_queued}

abbrev waiting_for : (batch_id worker_id : String) → Batch
waiting_for batch_id w = record (new_batch batch_id "pending_sync" "primary" none 21) {
  preferred_worker_id = some w;
}

abbrev sync_job : AssetSyncJob
sync_job = record {
  job_id = "s1";
  run_id = "r1";
  state = record {
    status = "running";
    current_step = none;
    steps = [];
    log_text = "";
    error_text = none;
    created_at = 20;
    finished_at = none;
  };
}

abbrev rerun_job : RunRerunJob
rerun_job = record {
  job_id = "j1";
  run_id = "r1";
  status = "running";
  sync_job_id = some "s1";
  case_ids = "y" ∷ [];
  worker_shards = ("w1", "y" ∷ []) ∷ ("w2", "z" ∷ []) ∷ [];
  rerun_batches = ("w1", one "b5") ∷ ("w2", one "b6") ∷ [];
  selected_error_types = [];
  error_text = none;
  created_at = 20;
  finished_at = none;
}

abbrev waiting : Store
waiting = record two_queued {
  batches = waiting_for "b5" "w1" ∷ waiting_for "b6" "w2" ∷ [];
  asset_sync_jobs = sync_job ∷ [];
  run_rerun_jobs = rerun_job ∷ [];
}

abbrev plan : Plan
plan = record {
  job_id = "s1";
  run_id = "r1";
  template_id = run_a.template_id;
  worker_ids = "w1" ∷ "w2" ∷ [];
  include_assets = false;
  names_step = true;
  patch = λ w. field "datasetPathByWorker" (obj (field w (text "/data") end)) end;
}

-- A thread's next step with what its copy raises.
run_turns : List (String × Option String) → Sync → Sync
unfolding thread_step
run_turns [] st = st
run_turns ((w, raised) ∷ turns) st = thread_step plan 30 w raised (run_turns turns st)

turns-Reach :
    (turns : List (String × Option String))
    → All (λ (t : String × Option String). is_listed plan t.0 ≡ true) turns
    → Reach plan waiting (run_turns turns (spawn plan waiting))
unfolding run_turns
turns-Reach [] h = start
turns-Reach ((w, raised) ∷ turns) h = later (turns-Reach turns h.1) (thread w 30 raised h.0)

abbrev of_w1 : String × Option String
of_w1 = ("w1", none)

abbrev of_w2 : String × Option String
of_w2 = ("w2", some "no space left")

-- The last turn is the first of the list.
abbrev turns : List (String × Option String)
turns = of_w1 ∷ of_w2 ∷ of_w1 ∷ of_w2 ∷ of_w2 ∷ of_w1 ∷ of_w1 ∷ of_w2 ∷ of_w2 ∷ of_w1 ∷ []

abbrev joined_threads : Sync
joined_threads = run_turns turns (spawn plan waiting)

run-Reach : Reach plan waiting joined_threads
run-Reach =
    turns-Reach turns
      (refl, (refl, (refl, (refl, (refl, (refl, (refl, (refl, (refl, (refl, tt))))))))))

w1_ended : has_ended (joined_threads.pc "w1") ≡ true
unfolding run_turns spawn thread_step update_task_template_executor_config
    mark_worker_batches_sync_failed promote_worker_batches_to_queued Table.find get_asset_sync_job
w1_ended = refl

w2_ended : has_ended (joined_threads.pc "w2") ≡ true
unfolding run_turns spawn thread_step update_task_template_executor_config
    mark_worker_batches_sync_failed promote_worker_batches_to_queued Table.find get_asset_sync_job
w2_ended = refl

by_worker :
    (P : String → Type 0) (w : String)
    → P "w1"
    → P "w2"
    → any (λ v. v == w) ("w1" ∷ "w2" ∷ []) ≡ true
    → P w
by_worker P w p q h = elim (Bool-cases ("w1" == w)) [
  | inl e ↦ subst P ((eq_iff "w1" w).0 e) p
  | inr e ↦ subst P ((eq_iff "w2" w).0 (ground (arith, e, h))) q
]

all_ended : AllEnded plan joined_threads
all_ended w = by_worker (λ v. has_ended (joined_threads.pc v) ≡ true) w w1_ended w2_ended

-- Nine rounds, in each of which the second thread goes first.
abbrev rounds : ℕ → List ThreadTurn
rounds zero = []
rounds (suc n) = ("w2", n, some "no space left") ∷ ("w1", n, none) ∷ rounds n

rounds-listed : (n : ℕ) → All (λ (t : ThreadTurn). is_listed plan t.0 ≡ true) (rounds n)
rounds-listed zero = tt
rounds-listed (suc n) = (refl, (refl, rounds-listed n))

nine_each : (w : String) → is_listed plan w ≡ true → 9 ≤ turns_of w (rounds 9)
nine_each w = by_worker (λ v. 9 ≤ turns_of v (rounds 9)) w (omega arith) (omega arith)

take_turns-IsJoined_example :
    AllEnded plan (take_turns plan (rounds 9) (spawn plan waiting))
    × IsJoined plan (take_turns plan (rounds 9) (spawn plan waiting))
take_turns-IsJoined_example =
    take_turns-IsJoined plan waiting (rounds 9) (rounds-listed 9) nine_each

Reach-IsSound_example : IsSound plan joined_threads
Reach-IsSound_example = Reach-IsSound plan waiting joined_threads run-Reach

-- The row of the sync job, as the threads left it.
left_job : (j : AssetSyncJob) × (get_asset_sync_job joined_threads.store "s1" ≡ some j)
unfolding run_turns spawn thread_step update_task_template_executor_config
    mark_worker_batches_sync_failed promote_worker_batches_to_queued Table.find get_asset_sync_job
left_job = (_, refl)

left_run : get_run joined_threads.store "r1" ≡ some run_a
unfolding run_turns spawn thread_step update_task_template_executor_config
    mark_worker_batches_sync_failed promote_worker_batches_to_queued Table.find get_asset_sync_job
    get_run
left_run = refl

left_rerun : get_run_rerun_job joined_threads.store "j1" ≡ some rerun_job
unfolding run_turns spawn thread_step update_task_template_executor_config
    mark_worker_batches_sync_failed promote_worker_batches_to_queued Table.find get_asset_sync_job
    get_run_rerun_job
left_rerun = refl

end_job-IsJoined_example :
    IsJoined plan joined_threads × JobOver plan joined_threads 40 (end_job plan 40 joined_threads)
end_job-IsJoined_example =
    end_job-IsJoined plan waiting joined_threads 40 left_job.0 run_a run-Reach all_ended left_job.1
      left_run

-- The errors and the statuses of the batches in the end.
end_test : joined_threads.errors ≡ "w2: no space left" ∷ []
unfolding run_turns spawn thread_step update_task_template_executor_config
    mark_worker_batches_sync_failed promote_worker_batches_to_queued Table.find get_asset_sync_job
end_test = refl

abbrev ids : RerunIds
ids = record { run_id = "r1"; job_id = "j1"; sync_job_id = "s1" }

left_rows : HasRows joined_threads.store ids run_a rerun_job
left_rows = record {
  run_at = left_run;
  job_at = left_rerun;
  sync = left_job.0;
  sync_at = left_job.1;
}

end_rerun-IsJoined_example :
    IsJoined plan joined_threads
    × EndsBy
        (has_none joined_threads.errors)
        joined_threads.store
        ids
        40
        (end_rerun ids 40 joined_threads)
        none
        joined_threads.steps
end_rerun-IsJoined_example =
    end_rerun-IsJoined plan waiting joined_threads ids 40 run_a rerun_job run-Reach all_ended
      left_rows

waiting_rows : HasRows waiting ids run_a rerun_job
unfolding get_run get_run_rerun_job get_asset_sync_job Table.find
waiting_rows = record { run_at = refl; job_at = refl; sync = sync_job; sync_at = refl }

-- The template knows the first worker's dataset only.
abbrev one_known : Fields
one_known = field "datasetPathByWorker" (obj (field "w1" (text "/data") end)) end

known_w1 : any (lacks_dataset one_known) ("w1" ∷ []) ≡ false
unfolding lacks_dataset
known_w1 = refl

missing_w2 : any (lacks_dataset one_known) ("w1" ∷ "w2" ∷ []) ≡ true
unfolding lacks_dataset
missing_w2 = refl

abbrev first_steps : List WorkerSteps
first_steps = initial_worker_steps ("w1" ∷ "w2" ∷ []) false

sync_without_dataset-known_example :
    RerunOver
      (promote_all "r1" ("w1" ∷ []) waiting)
      ids
      40
      (sync_without_dataset waiting 40 ids ("w1" ∷ []) false first_steps one_known)
      "running"
      "succeeded"
      none
      (set_all_steps false "succeeded" ("w1" ∷ []) first_steps)
    × ((v : String)
        → any (λ w. w == v) ("w1" ∷ []) ≡ true
        → count
            (awaits_sync "r1" v)
            (sync_without_dataset waiting 40 ids ("w1" ∷ []) false first_steps one_known).batches
          ≡ 0)
sync_without_dataset-known_example =
    sync_without_dataset-known waiting 40 ids ("w1" ∷ []) false first_steps one_known run_a
      rerun_job waiting_rows known_w1

sync_without_dataset-missing_example :
    RerunOver waiting ids 40
      (sync_without_dataset waiting 40 ids ("w1" ∷ "w2" ∷ []) false first_steps one_known)
      "failed"
      "failed"
      (some 40)
      (set_all_steps false "failed" ("w1" ∷ "w2" ∷ []) first_steps)
sync_without_dataset-missing_example =
    sync_without_dataset-missing waiting 40 ids ("w1" ∷ "w2" ∷ []) false first_steps one_known run_a
      rerun_job waiting_rows missing_w2

merge_config-executor_patch_example :
    of_worker "datasetPathByWorker" "w1"
      (merge_config [] (executor_patch (λ p. p) "w2" "/srv/t" "" []) one_known)
    ≡ (if "w2" == "w1"
        then elim (patched
            (text (path_text (to_path "/srv/t") <> "/dataset"))
            (obj (worker_asset_paths "/srv/t" [] end))
            (build_sync_bind_mounts (λ p. p) "" (path_text (to_path "/srv/t")))
            "datasetPathByWorker") [
              | some x ↦ some x
              | none ↦ of_worker "datasetPathByWorker" "w1" one_known
            ]
        else of_worker "datasetPathByWorker" "w1" one_known)
merge_config-executor_patch_example =
    merge_config-executor_patch (λ p. p) "w2" "/srv/t" "" [] one_known "datasetPathByWorker" "w1"
