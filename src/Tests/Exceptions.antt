-- ===== src/Tests/Exceptions.antt =====
-- The errored cases of a run, on a small state.
use agent_eval_orchestrator.Prelude.{String, ◌≡◌, refl, [], ◌∷◌}
use agent_eval_orchestrator.Text.{strip, path_name, before_last_dunder}
use agent_eval_orchestrator.Json.{get}
use agent_eval_orchestrator.Storage.Schema.{Store}
use agent_eval_orchestrator.Storage.Exceptions.{ExceptionItem, list_exception_cases_for_run}
use agent_eval_orchestrator.Tests.Data.{new_case, two_queued}

-- Two errored cases and one that succeeded, of a batch that prefers a worker.
abbrev with_errors : Store
with_errors = record two_queued {
  case_runs =
      new_case "c1" "b1" "z" "errored"
      ∷ new_case "c2" "b1" "y" "succeeded"
      ∷ new_case "c3" "b1" "x" "errored"
      ∷ [];
}

abbrev item : String → String → ExceptionItem
item case_run_id case_id = record {
  case_id = case_id;
  parent_batch_id = "b1";
  worker_id = "w1";
  case_run = new_case case_run_id "b1" case_id "errored";
}

list_test : list_exception_cases_for_run with_errors "r1" ≡ item "c3" "x" ∷ item "c1" "z" ∷ []
unfolding list_exception_cases_for_run strip path_name before_last_dunder get
list_test = refl
