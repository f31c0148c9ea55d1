-- ===== src/Storage/Cases.antt =====
-- storage/store.py: case rows, what a worker or an import reports of a case, and the counts of a
-- batch's summary.
pub mod Counts
use agent_eval_orchestrator.Prelude.{
  ℕ, suc, String, Bool, true, not, ◌&&◌, ◌||◌, Option, none, some, List, [], ◌∷◌, length, count,
  ◌==◌, if◌then◌else◌,
}
use agent_eval_orchestrator.Text.{
  strip, path_name, before_last_dunder, or_empty, is_empty, truthy, or_else,
}
use agent_eval_orchestrator.Json.{int, text, Fields, end, field, get, put, text_of}
use agent_eval_orchestrator.Storage.Schema.{CaseRun}

-- A case as normalize_harbor_job and the worker's progress message give it.
pub record CasePayload : Type 0 where
  pub case_id : String
  pub status : Option String
  pub score : Option String
  pub metrics : Fields
  pub error_type : Option String
  pub artifact_index : Fields
  pub error_text : Option String
  pub trial_name : Option String

-- _infer_case_id
unfoldable pub infer_case_id : String → Fields → String
infer_case_id original artifact_index =
    let trial_dir = strip (text_of (get "trialDir" artifact_index)) in
    if is_empty trial_dir then original else elim (before_last_dunder (path_name trial_dir)) [
      | none ↦ original
      | some candidate ↦ or_else (strip candidate) original
    ]

-- _case_is_errored
unfoldable pub case_is_errored : CaseRun → Bool
case_is_errored c =
    if c.status == "errored" then true else c.status == "failed" && truthy c.error_text

-- _case_is_failed
unfoldable pub case_is_failed : CaseRun → Bool
case_is_failed c = c.status == "failed" && not (truthy c.error_text)

-- case_error_type, of a row: its type is a text under the metrics.
unfoldable pub case_error_type : CaseRun → String
case_error_type c =
    let raw = strip (text_of (get "errorType" c.metrics)) in
    if is_empty raw then "(unknown)" else raw

-- _trial_merge_key, from the artifact index, the trial name and the case id of either form.
unfoldable pub trial_merge_key : Fields → String → String → String
trial_merge_key artifact trial_name case_id =
    let trial_dir = strip (text_of (get "trialDir" artifact)) in
    if not (is_empty trial_dir)
    then path_name trial_dir
    else if not (is_empty (strip trial_name))
    then strip trial_name
    else strip case_id

-- The key of a row, read through _case_item; a row has no trial name.
unfoldable pub row_key : CaseRun → String
row_key c = trial_merge_key c.artifact_index "" (infer_case_id c.case_id c.artifact_index)

unfoldable pub payload_key : CasePayload → String
payload_key p = trial_merge_key p.artifact_index (or_empty p.trial_name) p.case_id

-- The row that the INSERT of update_batch_progress and merge_rerun_cases_into_parent writes.
unfoldable pub case_row : String → String → ℕ → CasePayload → CaseRun
unfolding put
case_row case_run_id batch_id now p = record {
  case_run_id = case_run_id;
  batch_id = batch_id;
  case_id = p.case_id;
  status = or_else (or_empty p.status) "pending";
  score = p.score;
  metrics =
      if truthy p.error_type
      then put "errorType" (text (or_empty p.error_type)) p.metrics
      else p.metrics;
  artifact_index = p.artifact_index;
  error_text = p.error_text;
  created_at = now;
  updated_at = now;
}

-- The rows of a list of cases; `ids i` is the id that new_id("case") gives to the i-th of them.
unfoldable pub case_rows : (ℕ → String) → ℕ → String → ℕ → List CasePayload → List CaseRun
unfolding case_row
case_rows ids i batch_id now [] = []
case_rows ids i batch_id now (p ∷ ps) =
    case_row (ids i) batch_id now p ∷ case_rows ids (suc i) batch_id now ps

abbrev pub case_succeeded : CaseRun → Bool
case_succeeded c = c.status == "succeeded"

pub record CaseCounts : Type 0 where
  pub succeeded : ℕ
  pub failed : ℕ
  pub errored : ℕ
  pub total : ℕ

-- _recompute_batch_summary
unfoldable pub recompute_batch_summary : List CaseRun → CaseCounts
unfolding case_is_failed case_is_errored
recompute_batch_summary cases = record {
  succeeded = count case_succeeded cases;
  failed = count case_is_failed cases;
  errored = count case_is_errored cases;
  total = length cases;
}

-- The dictionary of the counts, as the summary column holds it.
abbrev pub summary_fields : CaseCounts → Fields
summary_fields s = field "succeeded" (int s.succeeded) (
    field "failed" (int s.failed)
      (field "errored" (int s.errored) (field "total" (int s.total) end)))

-- How often a case has none of the three outcomes.
abbrev pub case_is_open : CaseRun → Bool
case_is_open c = not (case_succeeded c || case_is_failed c || case_is_errored c)
