-- ===== src/Tests/Scheduling.antt =====
-- Claims and synchronised batches, on small states.
use agent_eval_orchestrator.Prelude.{
  ◌≡◌, ◌↔◌, ◌⊎◌, refl, true, false, none, some, List, [], ◌∷◌, All,
}
use agent_eval_orchestrator.Table
use agent_eval_orchestrator.Text.{strip, is_empty}
use agent_eval_orchestrator.Json.{end}
use agent_eval_orchestrator.Storage.Schema.{Store}
use agent_eval_orchestrator.Storage.Batches.{
  batch_key, promote_worker_batches_to_queued, mark_worker_batches_sync_failed,
}
use agent_eval_orchestrator.Storage.Claim.{
  Queued, Claim, Event, reads, writes, hand_outs, may_take, is_disabled, chosen_row,
  claim_next_batch, find_worker,
}
use agent_eval_orchestrator.Storage.Claim.Order.{may_take_iff, waiting, claim_next_batch-none}
use agent_eval_orchestrator.Storage.Claim.Exclusive.{
  Assigns, claims, Distinct, claim_next_batch-Assigns,
}
use agent_eval_orchestrator.Storage.Claim.Overlap.{ids, hand_outs-Distinct, hand_outs-overlap}
use agent_eval_orchestrator.Storage.Batches.Sync.{mark_sync_failed-promote, promote-mark_comm}
use agent_eval_orchestrator.Tests.Data.{template_a, run_a, new_batch, worker_b, two_queued}

two_queued-IsUnique : Table.IsUnique batch_key two_queued.batches
unfolding Table.find
two_queued-IsUnique = (refl, (refl, (refl, tt)))

-- The older batch goes first, and only to the worker that it prefers.
claims_test :
    claims two_queued (("w2", 30) ∷ ("w2", 31) ∷ ("w1", 32) ∷ ("w1", 33) ∷ []) ≡ "b2" ∷ "b1" ∷ []
unfolding claims claim_next_batch may_take
claims_test = refl

-- Both workers read before the first of them writes; the second one reads again before it writes.
abbrev turns : List Event
turns = reads "w1" ∷ reads "w2" ∷ writes "w2" 30 ∷ reads "w1" ∷ writes "w1" 31 ∷ []

turns_test : hand_outs two_queued (λ _. none) turns ≡ ("b2", "w2") ∷ ("b1", "w1") ∷ []
unfolding hand_outs may_take
turns_test = refl

hand_outs-Distinct_example : Distinct (ids (hand_outs two_queued (λ _. none) turns))
hand_outs-Distinct_example =
    hand_outs-Distinct two_queued (λ _. none) turns two_queued-IsUnique refl

-- One batch that either worker may take.
abbrev one_queued : Store
one_queued = record two_queued { batches = new_batch "b2" "queued" "primary" none 20 ∷ [] }

abbrev only_row : Queued
only_row = record {
  batch = new_batch "b2" "queued" "primary" none 20;
  run = run_a;
  template = template_a;
}

only_row_w1 : chosen_row one_queued "w1" ≡ some only_row
unfolding chosen_row may_take
only_row_w1 = refl

only_row_w2 : chosen_row one_queued "w2" ≡ some only_row
unfolding chosen_row may_take
only_row_w2 = refl

one_queued-IsUnique : Table.IsUnique batch_key one_queued.batches
unfolding Table.find
one_queued-IsUnique = (refl, tt)

hand_outs-overlap_example :
    hand_outs one_queued
      (λ _. none)
      (reads "w1" ∷ reads "w2" ∷ writes "w1" 30 ∷ writes "w2" 31 ∷ [])
    ≡ ("b2", "w1") ∷ ("b2", "w2") ∷ []
hand_outs-overlap_example =
    hand_outs-overlap one_queued (λ _. none) "w1" "w2" 30 31 only_row one_queued-IsUnique refl
      only_row_w1 only_row_w2

abbrev first_row : Queued
first_row = record {
  batch = new_batch "b1" "queued" "primary" (some "w1") 10;
  run = run_a;
  template = template_a;
}

abbrev first_claim : Claim
first_claim = record {
  batch = record (new_batch "b1" "queued" "primary" (some "w1") 10) {
    status = "running";
    current_step = some "executor-starting";
    assigned_worker_id = some "w1";
    started_at = some 30;
  };
  run = some (record run_a { bound_worker_id = some "w1"; updated_at = 30 });
  template = some template_a;
  dataset_ref = "/data/bench";
  executor_config = end;
}

first_claim_test : (claim_next_batch two_queued "w1" 30).1 ≡ some first_claim
unfolding claim_next_batch may_take
first_claim_test = refl

claim_next_batch-Assigns_example :
    Assigns two_queued (claim_next_batch two_queued "w1" 30).0 "w1" 30 first_claim
claim_next_batch-Assigns_example =
    claim_next_batch-Assigns two_queued "w1" 30 first_claim two_queued-IsUnique first_claim_test

-- A state in which the only queued batch prefers another worker.
abbrev reserved : Store
reserved = record two_queued { batches = new_batch "b1" "queued" "primary" (some "w1") 10 ∷ [] }

find_b : find_worker reserved "w2" ≡ some worker_b
unfolding find_worker
find_b = refl

enabled_b : is_disabled worker_b ≡ false
unfolding is_disabled
enabled_b = refl

none_b : chosen_row reserved "w2" ≡ none
unfolding chosen_row may_take
none_b = refl

claim_next_batch-none_example : All (λ q. may_take "w2" q ≡ false) (waiting reserved)
claim_next_batch-none_example = claim_next_batch-none reserved "w2" worker_b find_b enabled_b none_b

-- Two batches that wait for the assets of two workers.
abbrev two_syncing : Store
two_syncing = record two_queued {
  batches =
      new_batch "b1" "pending_sync" "primary" (some "w1") 10
      ∷ new_batch "b2" "pending_sync" "primary" (some "w2") 20
      ∷ [];
}

promoted_test : (promote_worker_batches_to_queued two_syncing "r1" "w1").1 ≡ 1
unfolding promote_worker_batches_to_queued
promoted_test = refl

mark_sync_failed-promote_example :
    mark_worker_batches_sync_failed
      (promote_worker_batches_to_queued two_syncing "r1" "w1").0
      "r1"
      "w1"
    ≡ ((promote_worker_batches_to_queued two_syncing "r1" "w1").0, 0)
mark_sync_failed-promote_example = mark_sync_failed-promote two_syncing "r1" "w1"

promote-mark_comm_example :
    (promote_worker_batches_to_queued
      (mark_worker_batches_sync_failed two_syncing "r1" "w2").0
      "r1"
      "w1").0
    ≡ (mark_worker_batches_sync_failed
        (promote_worker_batches_to_queued two_syncing "r1" "w1").0
        "r1"
        "w2").0
promote-mark_comm_example = promote-mark_comm two_syncing "r1" "w1" "w2" refl

may_take_iff_example : (may_take "w1" first_row ≡ true) ↔ (
    ((is_empty (strip "w1") ≡ false) × (strip "w1" ≡ "w1"))
    ⊎ ((is_empty (strip "w1") ≡ true) × ((is_empty (strip "") ≡ true) ⊎ (strip "" ≡ "w1"))))
may_take_iff_example = may_take_iff "w1" first_row
