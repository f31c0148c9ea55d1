-- ===== src/Tests/Fleet.antt =====
-- Workers that register, are disabled or are deleted, on a small state.
use agent_eval_orchestrator.Prelude.{String, ◌≡◌, refl, true, false, none, some, [], filter, ◌==◌}
use agent_eval_orchestrator.Json.{end}
use agent_eval_orchestrator.Storage.Schema.{Worker}
use agent_eval_orchestrator.Storage.Claim.{find_worker, chosen_row}
use agent_eval_orchestrator.Storage.Workers.{
  Registration, register_worker, delete_worker, update_worker_settings, shown_worker_status,
}
use agent_eval_orchestrator.Storage.Workers.Lifecycle.{
  disable, register-online, delete_worker-gone, chosen_row-disable,
}
use agent_eval_orchestrator.Tests.Data.{worker_a, two_queued}

found_a : find_worker two_queued "w1" ≡ some worker_a
unfolding find_worker
found_a = refl

abbrev registration : Registration
registration = record {
  worker_id = "w1";
  display_name = "first";
  host = "h9";
  slots_total = 4;
  slots_used = 1;
  capabilities = end;
  status = "online";
}

register-online_example :
    (w : Worker) × (find_worker (register_worker two_queued registration 90) "w1" ≡ some w)
    × (shown_worker_status 30 90 w ≡ "online")
register-online_example = register-online two_queued registration 90 30 worker_a found_a refl refl

delete_worker-gone_example :
    ((delete_worker two_queued "w1").1 ≡ true)
    × (find_worker (delete_worker two_queued "w1").0 "w1" ≡ none)
    × (filter (λ j. j.worker_id == "w1") (delete_worker two_queued "w1").0.provision_jobs ≡ [])
    × (filter (λ j. j.worker_id == "w1") (delete_worker two_queued "w1").0.worker_update_jobs ≡ [])
    × ((j : String)
        → ("w1" == j) ≡ false
        → find_worker (delete_worker two_queued "w1").0 j ≡ find_worker two_queued j)
    × ((delete_worker two_queued "w1").0.batches ≡ two_queued.batches)
    × ((delete_worker two_queued "w1").0.runs ≡ two_queued.runs)
delete_worker-gone_example = delete_worker-gone two_queued "w1" worker_a found_a

chosen_row-disable_example :
    chosen_row (update_worker_settings two_queued "w1" 90 disable).0 "w1"
    ≡ chosen_row two_queued "w1"
chosen_row-disable_example = chosen_row-disable two_queued "w1" 90 worker_a found_a refl
