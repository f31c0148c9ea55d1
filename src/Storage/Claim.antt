-- ===== src/Storage/Claim.antt =====
-- storage/store.py: claim_next_batch, the scheduler. Its laws are in the modules below.
pub mod Order
pub mod Exclusive
pub mod Overlap
use agent_eval_orchestrator.Prelude.{
  ℕ, String, Bool, false, not, ◌&&◌, Option, none, some, List, [], ◌∷◌, filter_map, sort_by,
  coalesce, nat_eq, ◌==◌, if◌then◌else◌,
}
use agent_eval_orchestrator.Table
use agent_eval_orchestrator.Text.{strip, or_empty, is_empty}
use agent_eval_orchestrator.Json.{Fields}
use agent_eval_orchestrator.Storage.Schema.{Batch, Run, Template, Worker, Store}
use agent_eval_orchestrator.Storage.Templates.{get_task_template}
use agent_eval_orchestrator.Storage.Runs.{get_run, update_run}
use agent_eval_orchestrator.Storage.Batches.{batch_key}

abbrev pub worker_key : Worker → String
worker_key w = w.worker_id

-- A row of the query: a queued batch with its run and its template.
pub record Queued : Type 0 where
  pub batch : Batch
  pub run : Run
  pub template : Template

-- The two inner joins: a batch whose run or template is missing has no row.
unfoldable pub join_row : Store → Batch → Option Queued
unfolding get_run get_task_template
join_row s b =
    if b.status == "queued"
    then elim (get_run s b.run_id) [
      | none ↦ none
      | some run ↦ elim (get_task_template s run.template_id) [
        | none ↦ none
        | some template ↦ some (record { batch = b; run = run; template = template })
      ]
    ]
    else none

abbrev pub age : Queued → ℕ
age row = row.batch.created_at

-- SELECT ... WHERE b.status = 'queued' ORDER BY b.created_at ASC
unfoldable pub queued_rows : Store → List Queued
unfolding join_row
queued_rows s = sort_by age (filter_map (join_row s) s.batches)

-- The two `continue`s of the loop: a row is taken where neither applies.
unfoldable pub may_take : String → Queued → Bool
unfolding strip
may_take worker_id row =
    let preferred = strip (or_empty row.batch.preferred_worker_id) in
    let bound = strip (or_empty row.run.bound_worker_id) in
    if not (is_empty preferred) && not (preferred == worker_id)
    then false
    else not (is_empty preferred && not (is_empty bound) && not (bound == worker_id))

-- The loop up to its `break`.
unfoldable pub choose : String → List Queued → Option Queued
choose worker_id [] = none
choose worker_id (row ∷ rows) = if may_take worker_id row then some row else choose worker_id rows

-- `int(worker["enabled"] or 1) != 1`
unfoldable pub is_disabled : Worker → Bool
is_disabled w = let e : ℕ = if nat_eq w.enabled 0 then 1 else w.enabled in not (nat_eq e 1)

-- What a claim returns.
pub record Claim : Type 0 where
  pub batch : Batch
  pub run : Option Run
  pub template : Option Template
  pub dataset_ref : String
  pub executor_config : Fields

unfoldable pub start_batch : String → ℕ → Batch → Batch
start_batch worker_id now b = record b {
  status = "running";
  current_step = some "executor-starting";
  assigned_worker_id = some worker_id;
  started_at = coalesce b.started_at (some now);
}

-- The two UPDATEs.
unfoldable pub assign : Store → String → ℕ → Queued → Store
unfolding start_batch
assign s worker_id now row =
    update_run
      (record s {
        batches = Table.update batch_key row.batch.batch_id (start_batch worker_id now) s.batches;
      })
      row.batch.run_id
      (λ r. record r {
        bound_worker_id = coalesce r.bound_worker_id (some worker_id);
        updated_at = now;
      })

unfoldable pub find_worker : Store → String → Option Worker
unfolding Table.find
find_worker s worker_id = Table.find worker_key worker_id s.workers

-- What is read back after the UPDATEs.
unfoldable pub claim_of : Store → Queued → Option Claim
unfolding Table.find get_run get_task_template
claim_of s row = elim (Table.find batch_key row.batch.batch_id s.batches) [
  | none ↦ none
  | some b ↦
      let run = get_run s b.run_id in
      some (record {
        batch = b;
        run = run;
        template = elim run [ none ↦ none | some r ↦ get_task_template s r.template_id ];
        dataset_ref = row.template.dataset_ref;
        executor_config = row.template.executor_config;
      })
]

-- The row that a claim takes: `none` on each of the early returns.
unfoldable pub chosen_row : Store → String → Option Queued
unfolding find_worker is_disabled choose queued_rows
chosen_row s worker_id = elim (find_worker s worker_id) [
  | none ↦ none
  | some w ↦ if is_disabled w then none else choose worker_id (queued_rows s)
]

-- The rest of claim_next_batch, from the first UPDATE on: one transaction, which writes the row that
-- was chosen, whatever became of it since it was read.
abbrev pub write_claim : Store → String → ℕ → Option Queued → Store × Option Claim
write_claim s worker_id now none = (s, none)
write_claim s worker_id now (some row) =
    let s' = assign s worker_id now row in (s', claim_of s' row)

-- claim_next_batch: the state and what is returned, where no other claim comes between the SELECTs
-- and the transaction.
unfoldable pub claim_next_batch : Store → String → ℕ → Store × Option Claim
unfolding chosen_row assign claim_of
claim_next_batch s worker_id now = write_claim s worker_id now (chosen_row s worker_id)

-- The controller's threads run claims at once: a claim reads in autocommit mode, and then writes.
pub data Event : Type 0 where
  reads : String → Event
  writes : String → ℕ → Event

-- The rows that the claims under way have chosen, by worker.
abbrev pub pick : String → Option Queued → (String → Option Queued) → String → Option Queued
pick w row picked v = if v == w then row else picked v

-- What a sequence of such events hands out, each batch with the worker that gets it.
unfoldable pub hand_outs : Store → (String → Option Queued) → List Event → List (String × String)
unfolding chosen_row assign claim_of
hand_outs s picked [] = []
hand_outs s picked (reads w ∷ events) = hand_outs s (pick w (chosen_row s w) picked) events
hand_outs s picked (writes w now ∷ events) =
    let rest = hand_outs (write_claim s w now (picked w)).0 (pick w none picked) events in
    elim (write_claim s w now (picked w)).1 [ none ↦ rest | some c ↦ (c.batch.batch_id, w) ∷ rest ]
