-- ===== src/Storage/Status.antt =====
-- storage/store.py: the status of a run from the statuses of its primary batches.
pub mod Outcome
pub mod Shown
use agent_eval_orchestrator.Prelude.{
  ℕ, suc, ◌+◌, String, Bool, true, false, not, ◌&&◌, ◌||◌, Option, none, some, List, [], ◌∷◌, ltb,
  nat_eq, is_some, ◌==◌, if◌then◌else◌,
}
use agent_eval_orchestrator.Text.{truthy, or_else}
use agent_eval_orchestrator.Storage.Schema.{Batch, Run, Store}
use agent_eval_orchestrator.Storage.Runs.{rerun_status_of}
use agent_eval_orchestrator.Storage.Batches.{list_primary_batches_for_run}

-- The dictionary `status_counts`.
pub record StatusCounts : Type 0 where
  pub queued : ℕ
  pub pending_sync : ℕ
  pub sync_failed : ℕ
  pub running : ℕ
  pub succeeded : ℕ
  pub failed : ℕ
  pub stopped : ℕ

abbrev pub no_counts : StatusCounts
no_counts = record {
  queued = 0;
  pending_sync = 0;
  sync_failed = 0;
  running = 0;
  succeeded = 0;
  failed = 0;
  stopped = 0;
}

abbrev bump : Bool → ℕ → ℕ
bump b n = if b then suc n else n

-- `if status in status_counts: status_counts[status] += 1`
unfoldable pub count_status : String → StatusCounts → StatusCounts
count_status status c = record {
  queued = bump (status == "queued") c.queued;
  pending_sync = bump (status == "pending_sync") c.pending_sync;
  sync_failed = bump (status == "sync_failed") c.sync_failed;
  running = bump (status == "running") c.running;
  succeeded = bump (status == "succeeded") c.succeeded;
  failed = bump (status == "failed") c.failed;
  stopped = bump (status == "stopped") c.stopped;
}

-- The loop over the primary batches.
unfoldable pub count_statuses : StatusCounts → List Batch → StatusCounts
unfolding count_status
count_statuses c [] = c
count_statuses c (b ∷ bs) = count_statuses (count_status b.status c) bs

-- sum(status_counts.values())
abbrev pub sum_counts : StatusCounts → ℕ
sum_counts c =
    c.queued + c.pending_sync + c.sync_failed + c.running + c.succeeded + c.failed + c.stopped

-- _overall_status_from_batch_counts
unfoldable pub overall_status_from_batch_counts : StatusCounts → Bool → String
overall_status_from_batch_counts c has_primary_batches =
    if ltb 0 c.running
    then "running"
    else if ltb 0 c.pending_sync
    then "syncing"
    else if ltb 0 c.failed || ltb 0 c.sync_failed
    then "failed"
    else if ltb 0 c.queued
    then "queued"
    else if ltb 0 c.succeeded && nat_eq (sum_counts c) c.succeeded
    then "finished"
    else if has_primary_batches
    then "mixed"
    else "idle"

abbrev pub has_batches : List Batch → Bool
has_batches [] = false
has_batches (b ∷ bs) = true

-- The status of _run_lineage_summary, and of list_eval_task_summaries before the derived rerun.
unfoldable pub run_status : List Batch → String
unfolding count_statuses overall_status_from_batch_counts
run_status primary =
    overall_status_from_batch_counts (count_statuses no_counts primary) (has_batches primary)

-- The status that list_eval_task_summaries shows: a derived run shows its rerun while it is active.
unfoldable pub shown_status : Run → List Batch → String
unfolding run_status
shown_status run primary =
    let rerun_status = rerun_status_of run in
    if truthy run.parent_run_id && (rerun_status == "syncing" || rerun_status == "running")
    then rerun_status
    else run_status primary
