-- ===== src/Storage/Clone.antt =====
-- storage/store.py: clone_primary_batches_to_run, one transaction. Making directories is not
-- modelled.
pub mod Snapshot
pub mod Copies
pub mod Cloned
use Prim.Native.String.{compare}
use agent_eval_orchestrator.Prelude.{
  ℕ, suc, String, ◌&&◌, Option, none, some, List, [], ◌∷◌, filter, sort_by, ◌==◌, if◌then◌else◌,
}
use agent_eval_orchestrator.Core.Layout.{batch_dir}
use agent_eval_orchestrator.Table
use agent_eval_orchestrator.Storage.Schema.{
  Run, Batch, CaseRun, Store, runtime_error, integrity_error, Result, ok, err, ◌>>=◌, or_raise,
}
use agent_eval_orchestrator.Storage.Runs.{get_run, update_run}
use agent_eval_orchestrator.Storage.Batches.{batch_key}
use agent_eval_orchestrator.Storage.Progress.{case_key}
use agent_eval_orchestrator.Storage.Exceptions.{is_after, list_case_runs}

-- ORDER BY batch_id.
abbrev insert_batch : Batch → List Batch → List Batch
insert_batch b [] = b ∷ []
insert_batch b (x ∷ xs) =
    let rest = insert_batch b xs in
    if is_after (compare b.batch_id x.batch_id) then x ∷ rest else b ∷ x ∷ xs

abbrev order_by_batch_id : List Batch → List Batch
order_by_batch_id [] = []
order_by_batch_id (b ∷ bs) = insert_batch b (order_by_batch_id bs)

-- `source_rows`, by created_at and then by batch_id.
unfoldable pub primary_rows : Store → String → List Batch
primary_rows s run_id =
    sort_by (λ b. b.created_at)
      (order_by_batch_id (filter (λ b. b.run_id == run_id && b.batch_kind == "primary") s.batches))

-- The rows that the two INSERTs of the loop write.
abbrev pub batch_copy : (root : String) (now : ℕ) → Run → (batch_id : String) → Batch → Batch
batch_copy root now target batch_id source = record source {
  batch_id = batch_id;
  run_id = target.run_id;
  owner = target.owner;
  batch_root = batch_dir root target.owner target.run_id batch_id;
  created_at = now;
  parent_batch_id = none;
  batch_kind = "primary";
}

unfoldable pub case_copies :
    (ids : ℕ → String) → ℕ → (batch_id : String) (now : ℕ) → List CaseRun → List CaseRun
case_copies ids i batch_id now [] = []
case_copies ids i batch_id now (c ∷ cs) =
    record c { case_run_id = ids i; batch_id = batch_id; updated_at = now }
    ∷ case_copies ids (suc i) batch_id now cs

-- One round of the loop: `case_ids` are what new_id("case") gives in it.
unfoldable pub clone_batch :
    (root : String) (now : ℕ)
    → Run
    → (batch_id : String) (case_ids : ℕ → String) → Batch
    → Store
    → Result Store
unfolding Table.insert Table.insert_all case_copies list_case_runs
clone_batch root now target batch_id case_ids source s =
    elim (Table.insert batch_key (batch_copy root now target batch_id source) s.batches) [
      | none ↦ err (integrity_error "batches.batch_id")
      | some batches ↦
          elim (Table.insert_all case_key
            (case_copies case_ids 0 batch_id now (list_case_runs s source.batch_id)) s.case_runs) [
              | none ↦ err (integrity_error "case_runs.case_run_id")
              | some case_runs ↦ ok (record s { batches = batches; case_runs = case_runs })
            ]
    ]

-- The loop, with the pairs of `mapping` in the order in which they are set.
unfoldable pub clone_batches :
    (root : String) (now : ℕ)
    → Run
    → (ids : ℕ → String) (case_ids : ℕ → ℕ → String) → ℕ
    → List Batch
    → Store
    → Result (Store × List (String × String))
unfolding clone_batch
clone_batches root now target ids case_ids i [] s = ok (s, [])
clone_batches root now target ids case_ids i (source ∷ sources) s =
    elim (clone_batch root now target (ids i) (case_ids i) source s) [
      | err e ↦ err e
      | ok s1 ↦ elim (clone_batches root now target ids case_ids (suc i) sources s1) [
        | err e ↦ err e
        | ok (s2, mapping) ↦ ok (s2, (source.batch_id, ids i) ∷ mapping)
      ]
    ]

abbrev last_copy : String → List (String × String) → String
last_copy last [] = last
last_copy last ((source, copy) ∷ pairs) = last_copy copy pairs

abbrev pub set_latest : String → ℕ → List (String × String) → Store → Store
set_latest run_id now [] s = s
set_latest run_id now ((source, copy) ∷ pairs) s =
    update_run s run_id
      (λ r. record r { latest_batch_id = some (last_copy copy pairs); updated_at = now })

unfoldable pub clone_primary_batches_to_run :
    Store
    → (root : String) (now : ℕ) (ids : ℕ → String) (case_ids : ℕ → ℕ → String)
    → (source_run_id target_run_id : String) → Result (Store × List (String × String))
unfolding get_run primary_rows clone_batches
clone_primary_batches_to_run s root now ids case_ids source_run_id target_run_id = do
  target ← or_raise (get_run s target_run_id) (runtime_error "target run not found")
  elim (clone_batches root now target ids case_ids 0 (primary_rows s source_run_id) s) [
    | err e ↦ err e
    | ok (s', mapping) ↦ ok (set_latest target_run_id now mapping s', mapping)
  ]
