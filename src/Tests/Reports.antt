-- ===== src/Tests/Reports.antt =====
-- Progress reports and merges, on small states.
use agent_eval_orchestrator.Prelude.{
  ℕ, ◌+◌, ◌==◌, if◌then◌else◌, String, ◌≡◌, ◌↔◌, ◌⊎◌, refl, true, false, none, some, List, [], ◌∷◌,
  ◌++◌, All, map, filter, all, any, count,
}
use agent_eval_orchestrator.Table
use agent_eval_orchestrator.Json.{int, end, field, get}
use agent_eval_orchestrator.Text.{strip, path_name}
use agent_eval_orchestrator.Storage.Schema.{Batch, Run, CaseRun, Worker, Store, ok}
use agent_eval_orchestrator.Storage.Cases.{
  CasePayload, row_key, payload_key, trial_merge_key, case_rows, case_is_open,
  recompute_batch_summary,
}
use agent_eval_orchestrator.Storage.Cases.Counts.{recompute_batch_summary-total}
use agent_eval_orchestrator.Storage.Batches.{get_batch}
use agent_eval_orchestrator.Storage.Progress.{Progress, case_key, in_batch, update_batch_progress}
use agent_eval_orchestrator.Storage.Progress.Effects.{
  Reports, update_batch_progress-Reports, update_batch_progress-ok,
}
use agent_eval_orchestrator.Storage.Merge.{kept_rows, merge_rerun_cases_into_parent}
use agent_eval_orchestrator.Storage.Merge.Effects.{Merges, merge_rerun_cases_into_parent-Merges}
use agent_eval_orchestrator.Storage.Merge.Again.{HasTrial, merge_rerun_cases_into_parent-again}
use agent_eval_orchestrator.Storage.Status.{shown_status, has_batches}
use agent_eval_orchestrator.Storage.Status.Outcome.{has_status}
use agent_eval_orchestrator.Storage.Status.Shown.{
  is_derived_with, shown_status-finished, shown_status-running,
}
use agent_eval_orchestrator.Tests.Data.{
  run_a, new_batch, new_case, case_report, two_queued, fresh_ids, later_ids,
}

recompute_batch_summary-total_example :
    (recompute_batch_summary two_queued.case_runs).succeeded
      + (recompute_batch_summary two_queued.case_runs).failed
      + (recompute_batch_summary two_queued.case_runs).errored
      + count case_is_open two_queued.case_runs
    ≡ (recompute_batch_summary two_queued.case_runs).total
recompute_batch_summary-total_example = recompute_batch_summary-total two_queued.case_runs

-- A last report of the batch "b0" with two cases.
abbrev last_report : Progress
last_report = record {
  batch_id = "b0";
  worker_id = "w1";
  status = "succeeded";
  current_step = none;
  finished = true;
  error_text = none;
  summary = none;
  cases = some (case_report "x" "succeeded" ∷ case_report "z" "failed" ∷ []);
  executor_metadata = none;
  artifact_index = none;
}

abbrev reported_batch : Batch
reported_batch = record (new_batch "b0" "succeeded" "primary" none 5) { finished_at = some 40 }

abbrev reported : Store
reported = record two_queued {
  batches =
      new_batch "b2" "queued" "primary" none 20
      ∷ new_batch "b1" "queued" "primary" (some "w1") 10
      ∷ reported_batch
      ∷ [];
  case_runs =
      record (new_case "n0" "b0" "x" "succeeded") { created_at = 40; updated_at = 40 }
      ∷ record (new_case "n1" "b0" "z" "failed") { created_at = 40; updated_at = 40 }
      ∷ [];
  workers =
      map
        (λ (w : Worker).
          if w.worker_id == "w1"
          then record w { last_heartbeat_at = some 40; updated_at = 40 }
          else w)
        two_queued.workers;
}

last_report_test :
    update_batch_progress two_queued fresh_ids 40 last_report ≡ ok (reported, some reported_batch)
unfolding update_batch_progress Table.insert
last_report_test = refl

update_batch_progress-Reports_example :
    Reports two_queued reported fresh_ids 40 last_report reported_batch
update_batch_progress-Reports_example =
    update_batch_progress-Reports two_queued reported fresh_ids 40 last_report reported_batch
      last_report_test

found_b0 : get_batch two_queued "b0" ≡ some (new_batch "b0" "succeeded" "primary" none 5)
unfolding get_batch
found_b0 = refl

fresh_rows : Table.IsUnique case_key (
    Table.delete_where (in_batch "b0") two_queued.case_runs
    ++ case_rows fresh_ids 0 "b0" 40 (case_report "x" "succeeded" ∷ case_report "z" "failed" ∷ []))
unfolding case_rows Table.find
fresh_rows = (refl, (refl, tt))

update_batch_progress-ok_example :
    (s' : Store) × (b : Batch) × (update_batch_progress two_queued fresh_ids 40 last_report
      ≡ ok (s', some b))
update_batch_progress-ok_example =
    update_batch_progress-ok two_queued fresh_ids 40 last_report
      (new_batch "b0" "succeeded" "primary" none 5)
      (case_report "x" "succeeded" ∷ case_report "z" "failed" ∷ []) found_b0 refl fresh_rows

-- The rerun batch "b1" ran the case "y" of "b0" again.
abbrev rerun_report : List CasePayload
rerun_report = case_report "y" "succeeded" ∷ []

abbrev merged_batch : Batch
merged_batch = record (new_batch "b0" "succeeded" "primary" none 5) {
  summary =
      field "succeeded" (int 2)
        (field "failed" (int 0) (field "errored" (int 0) (field "total" (int 2) end)));
}

abbrev merged_store : (id : String) (now : ℕ) → Store
merged_store id now = record two_queued {
  batches =
      new_batch "b2" "queued" "primary" none 20
      ∷ new_batch "b1" "queued" "primary" (some "w1") 10
      ∷ merged_batch
      ∷ [];
  case_runs =
      record (new_case "c1" "b0" "x" "succeeded") { updated_at = now }
      ∷ record (new_case id "b0" "y" "succeeded") { created_at = now; updated_at = now }
      ∷ [];
}

merge_test :
    merge_rerun_cases_into_parent two_queued fresh_ids 50 "b0" rerun_report "b1"
    ≡ ok (merged_store "n0" 50, some merged_batch)
unfolding merge_rerun_cases_into_parent row_key payload_key trial_merge_key strip get path_name
    Table.insert
merge_test = refl

merge_again_test :
    merge_rerun_cases_into_parent (merged_store "n0" 50) later_ids 60 "b0" rerun_report "b1"
    ≡ ok (merged_store "m0" 60, some merged_batch)
unfolding merge_rerun_cases_into_parent row_key payload_key trial_merge_key strip get path_name
    Table.insert
merge_again_test = refl

merge_rerun_cases_into_parent-Merges_example :
    Merges two_queued (merged_store "n0" 50) fresh_ids 50 "b0" rerun_report "b1" merged_batch
merge_rerun_cases_into_parent-Merges_example =
    merge_rerun_cases_into_parent-Merges two_queued (merged_store "n0" 50) fresh_ids 50 "b0"
      rerun_report "b1" merged_batch refl merge_test

rerun_report-HasTrial : All HasTrial rerun_report
unfolding strip path_name get
rerun_report-HasTrial = (record { named = refl; proper = refl }, tt)

merge_rerun_cases_into_parent-again_example :
    filter (in_batch "b0") (merged_store "m0" 60).case_runs
    ≡ map
        (λ (c : CaseRun). record c { updated_at = 60 })
        (kept_rows "b0" rerun_report 50 two_queued.case_runs)
      ++ case_rows later_ids 0 "b0" 60 rerun_report
merge_rerun_cases_into_parent-again_example =
    merge_rerun_cases_into_parent-again two_queued (merged_store "n0" 50) (merged_store "m0" 60)
      fresh_ids later_ids 50 60 "b0" rerun_report "b1" "b1" merged_batch merged_batch refl refl
      rerun_report-HasTrial merge_test merge_again_test

shown_status-finished_example :
    (shown_status run_a (new_batch "b0" "succeeded" "primary" none 5 ∷ []) ≡ "finished") ↔ (
      (is_derived_with "running" run_a ≡ false)
      × (is_derived_with "syncing" run_a ≡ false)
      × (has_batches (new_batch "b0" "succeeded" "primary" none 5 ∷ []) ≡ true)
      × (all (has_status "succeeded") (new_batch "b0" "succeeded" "primary" none 5 ∷ []) ≡ true))
shown_status-finished_example =
    shown_status-finished run_a (new_batch "b0" "succeeded" "primary" none 5 ∷ []) refl

-- The run is derived from another, and its rerun is running.
abbrev derived : Run
derived = record run_a { parent_run_id = some "r0" }

shown_status-running_example : (shown_status derived two_queued.batches ≡ "running") ↔ (
    (is_derived_with "running" derived ≡ true)
    ⊎ ((is_derived_with "syncing" derived ≡ false)
        × (any (has_status "running") two_queued.batches ≡ true)))
shown_status-running_example = shown_status-running derived two_queued.batches

derived_test : shown_status derived two_queued.batches ≡ "running"
unfolding shown_status
derived_test = refl
