-- ===== src/Storage/Merge.antt =====
-- storage/store.py: merge_rerun_cases_into_parent.
pub mod Effects
pub mod Again
use agent_eval_orchestrator.Prelude.{
  ℕ, String, Bool, true, false, not, ◌&&◌, Option, none, some, List, [], ◌∷◌, map, filter, any,
  ◌==◌, if◌then◌else◌,
}
use agent_eval_orchestrator.Table
use agent_eval_orchestrator.Text.{is_empty}
use agent_eval_orchestrator.Storage.Schema.{
  Batch, CaseRun, Store, integrity_error, Result, ok, err, ◌>>=◌, or_raise,
}
use agent_eval_orchestrator.Storage.Cases.{
  CasePayload, row_key, payload_key, case_rows, recompute_batch_summary, summary_fields,
}
use agent_eval_orchestrator.Storage.Batches.{batch_key, get_batch}
use agent_eval_orchestrator.Storage.Progress.{case_key, in_batch}

-- `key in rerun_trial_keys`: the set leaves the empty key out.
unfoldable pub is_rerun_key : List CasePayload → String → Bool
is_rerun_key cases key = not (is_empty key) && any (λ p. payload_key p == key) cases

-- The parent's rows that stay, written again with a new updated_at.
unfoldable pub kept_rows : String → List CasePayload → ℕ → List CaseRun → List CaseRun
unfolding is_rerun_key
kept_rows parent_batch_id cases now rows =
    map (λ (c : CaseRun). record c { updated_at = now })
      (filter (λ c. not (is_rerun_key cases (row_key c))) (filter (in_batch parent_batch_id) rows))

-- The case table after the first DELETE and the two loops of INSERTs.
unfoldable pub merged_cases :
    (ℕ → String) → ℕ → String → List CasePayload → List CaseRun → Option (List CaseRun)
unfolding kept_rows case_rows Table.insert_all
merged_cases ids now parent_batch_id cases rows =
    elim (Table.insert_all case_key (kept_rows parent_batch_id cases now rows)
      (Table.delete_where (in_batch parent_batch_id) rows)) [
        | none ↦ none
        | some kept ↦ Table.insert_all case_key (case_rows ids 0 parent_batch_id now cases) kept
      ]

-- merge_rerun_cases_into_parent
unfoldable pub merge_rerun_cases_into_parent :
    Store
    → (ids : ℕ → String) (now : ℕ)
    → (parent_batch_id : String) (rerun_cases : List CasePayload) (rerun_batch_id : String)
    → Result (Store × Option Batch)
unfolding get_batch merged_cases recompute_batch_summary
merge_rerun_cases_into_parent s ids now parent rerun_cases rerun_batch_id =
    elim (get_batch s parent) [
      | none ↦ ok (s, none)
      | some _ ↦ do
        rows ←
            or_raise (merged_cases ids now parent rerun_cases s.case_runs)
              (integrity_error "case_runs.case_run_id")
        let summary = summary_fields (recompute_batch_summary (filter (in_batch parent) rows))
        let s' : Store = record s {
          batches = Table.update batch_key parent (λ b. record b { summary = summary }) s.batches;
          case_runs = Table.delete_where (in_batch rerun_batch_id) rows;
        }
        ok (s', get_batch s' parent)
    ]
