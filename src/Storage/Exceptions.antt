-- ===== src/Storage/Exceptions.antt =====
-- storage/store.py: the errored cases of a run, which a rerun may run again.
pub mod Groups
use Prim.Native.String.{compare}
use Prim.Native.Nat.{Ordering, lt, eq, gt}
use agent_eval_orchestrator.Prelude.{
  ℕ, String, Bool, true, false, Option, none, some, List, [], ◌∷◌, ◌++◌, map, filter, any, ◌==◌,
  if◌then◌else◌,
}
use agent_eval_orchestrator.Text.{strip, or_empty, or_else, is_empty}
use agent_eval_orchestrator.Storage.Schema.{Batch, CaseRun, Store}
use agent_eval_orchestrator.Storage.Cases.{infer_case_id, case_is_errored, case_error_type}
use agent_eval_orchestrator.Storage.Batches.{list_primary_batches_for_run}
use agent_eval_orchestrator.Storage.Progress.{in_batch}

-- An entry of the list; `case_id` is the inferred one.
pub record ExceptionItem : Type 0 where
  pub case_id : String
  pub parent_batch_id : String
  pub worker_id : String
  pub case_run : CaseRun

abbrev pub is_after : Ordering → Bool
is_after gt = true
is_after _ = false

abbrev insert_case : CaseRun → List CaseRun → List CaseRun
insert_case c [] = c ∷ []
insert_case c (x ∷ xs) =
    let rest = insert_case c xs in
    if is_after (compare c.case_id x.case_id) then x ∷ rest else c ∷ x ∷ xs

abbrev order_by_case_id : List CaseRun → List CaseRun
order_by_case_id [] = []
order_by_case_id (c ∷ cs) = insert_case c (order_by_case_id cs)

-- list_case_runs; the text order of SQLite is by code points.
unfoldable pub list_case_runs : Store → String → List CaseRun
list_case_runs s batch_id = order_by_case_id (filter (in_batch batch_id) s.case_runs)

-- The inner loop: the errored ones of a batch's cases.
unfoldable pub exception_items : Batch → List CaseRun → List ExceptionItem
unfolding strip infer_case_id case_is_errored
exception_items batch [] = []
exception_items batch (c ∷ cs) =
    let rest = exception_items batch cs in
    if case_is_errored c
    then record {
      case_id = infer_case_id c.case_id c.artifact_index;
      parent_batch_id = batch.batch_id;
      worker_id =
          strip (or_else (or_empty batch.assigned_worker_id) (or_empty batch.preferred_worker_id));
      case_run = c;
    }
      ∷ rest
    else rest

exceptions_of : Store → List Batch → List ExceptionItem
unfolding list_case_runs exception_items
exceptions_of s [] = []
exceptions_of s (b ∷ bs) = exception_items b (list_case_runs s b.batch_id) ++ exceptions_of s bs

unfoldable pub list_exception_cases_for_run : Store → String → List ExceptionItem
unfolding list_primary_batches_for_run exceptions_of
list_exception_cases_for_run s run_id = exceptions_of s (list_primary_batches_for_run s run_id)

-- filter_exception_cases_by_types
unfoldable pub filter_exception_cases_by_types :
    Store → String → Option (List String) → List ExceptionItem
unfolding list_exception_cases_for_run case_error_type
filter_exception_cases_by_types s run_id selected = elim selected [
  | none ↦ list_exception_cases_for_run s run_id
  | some types ↦
      filter (λ i. any (λ t. t == case_error_type i.case_run) types)
        (list_exception_cases_for_run s run_id)
]

-- The dictionary `grouped`, in the order of insertion.
abbrev pub Grouped : Type 0
Grouped = List (String × List ExceptionItem)

-- grouped.setdefault(worker_id, []).append(item)
unfoldable pub append_to : String → ExceptionItem → Grouped → Grouped
append_to worker_id item [] = (worker_id, item ∷ []) ∷ []
append_to worker_id item ((w, items) ∷ groups) =
    let rest = append_to worker_id item groups in
    if w == worker_id then (w, items ++ item ∷ []) ∷ groups else (w, items) ∷ rest

-- The loop of group_exception_items_by_worker, from a dictionary.
unfoldable pub group_from : Grouped → List ExceptionItem → Grouped
unfolding append_to strip
group_from groups [] = groups
group_from groups (item ∷ items) =
    let worker_id = strip item.worker_id in
    group_from (if is_empty worker_id then groups else append_to worker_id item groups) items

unfoldable pub group_exception_items_by_worker : List ExceptionItem → Grouped
unfolding group_from
group_exception_items_by_worker items = group_from [] items
