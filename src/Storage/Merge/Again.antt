-- ===== src/Storage/Merge/Again.antt =====
-- Merging the same rerun cases a second time (storage/store.py): a worker's report may be repeated.
use agent_eval_orchestrator.Prelude.{
  ℕ, suc, String, ◌≡◌, refl, ap, ◌∙◌, true, false, some, List, [], ◌∷◌, ◌++◌, arith, append-nil,
  filter, any, map, All, All-imp, ◌==◌, eq_refl,
}
use agent_eval_orchestrator.Text.{strip, path_name, is_empty}
use agent_eval_orchestrator.Json.{get, text_of}
use agent_eval_orchestrator.Storage.Schema.{Batch, CaseRun, Store, ok}
use agent_eval_orchestrator.Storage.Cases.{
  CasePayload, row_key, payload_key, trial_merge_key, case_row, case_rows,
}
use agent_eval_orchestrator.Storage.Progress.{in_batch}
use agent_eval_orchestrator.Storage.Merge.{is_rerun_key, kept_rows, merge_rerun_cases_into_parent}
use agent_eval_orchestrator.Storage.Merge.Effects.{
  parent_rows, merge_rerun_cases_into_parent-Merges,
}

-- The case names its trial directory, as every case of normalize_harbor_job does.
pub record HasTrial (p : CasePayload) : Type 0 where
  pub named : is_empty (strip (text_of (get "trialDir" p.artifact_index))) ≡ false
  pub proper : is_empty (path_name (strip (text_of (get "trialDir" p.artifact_index)))) ≡ false

key_of_row :
    (id batch_id : String) (now : ℕ) (p : CasePayload)
    → HasTrial p
    → (row_key (case_row id batch_id now p) ≡ payload_key p) × (is_empty (payload_key p) ≡ false)
unfolding row_key payload_key trial_merge_key case_row
key_of_row id batch_id now p h = rw h.named (refl, h.proper)

any_self :
    (cases : List CasePayload)
    → All (λ p. any (λ q. payload_key q == payload_key p) cases ≡ true) cases
any_self [] = tt
any_self (x ∷ xs) = (
  rw (eq_refl (payload_key x)),
  All-imp {Q = λ p. any (λ q. payload_key q == payload_key p) (x ∷ xs) ≡ true}
      (λ p (e : any (λ q. payload_key q == payload_key p) xs ≡ true). ground arith) xs
      (any_self xs),
)

abbrev IsAgain : List CasePayload → CaseRun → Type 0
IsAgain cases c = is_rerun_key cases (row_key c) ≡ true

-- The row of a case that is merged has a key of the rerun.
case_rows-IsAgain :
    (ids : ℕ → String) (i : ℕ) (parent : String) (now : ℕ) (cases ps : List CasePayload)
    → All HasTrial ps
    → All (λ p. any (λ q. payload_key q == payload_key p) cases ≡ true) ps
    → All (IsAgain cases) (case_rows ids i parent now ps)
unfolding case_rows is_rerun_key
case_rows-IsAgain ids i parent now cases [] h k = tt
case_rows-IsAgain ids i parent now cases (p ∷ ps) h k =
    let (same, proper) = key_of_row (ids i) parent now p h.0 in
    (
      rw same (ground (arith, proper, k.0)),
      case_rows-IsAgain ids (suc i) parent now cases ps h.1 k.1,
    )

kept_rows-again :
    (parent : String) (cases : List CasePayload) (later : ℕ) (rows : List CaseRun)
    → All (IsAgain cases) rows
    → kept_rows parent cases later rows ≡ []
unfolding kept_rows
kept_rows-again parent cases later [] h = refl
kept_rows-again parent cases later (c ∷ rows) h =
    ground (arith, h.0, kept_rows-again parent cases later rows h.1)

abbrev touch : ℕ → CaseRun → CaseRun
touch now c = record c { updated_at = now }

row_key-touch : (now : ℕ) (c : CaseRun) → row_key (touch now c) ≡ row_key c
unfolding row_key
row_key-touch now c = refl

kept_rows-append :
    (parent : String) (cases : List CasePayload) (later : ℕ) (xs ys : List CaseRun)
    → kept_rows parent cases later (xs ++ ys)
      ≡ kept_rows parent cases later xs ++ kept_rows parent cases later ys
unfolding kept_rows
kept_rows-append parent cases later [] ys = refl
kept_rows-append parent cases later (x ∷ xs) ys =
    ground (arith, kept_rows-append parent cases later xs ys)

-- The rows that were kept are kept again, in their order.
kept_rows-kept_rows :
    (parent : String) (cases : List CasePayload) (now later : ℕ) (rows : List CaseRun)
    → kept_rows parent cases later (kept_rows parent cases now rows)
      ≡ map (touch later) (kept_rows parent cases now rows)
unfolding kept_rows
kept_rows-kept_rows parent cases now later [] = refl
kept_rows-kept_rows parent cases now later (c ∷ rows) =
    ground (arith, row_key-touch now c, kept_rows-kept_rows parent cases now later rows)

-- The parent's rows after a second merge of the same cases, at another time and with other ids:
-- the rows that the first merge kept, in their order, and one row for each case. So a repeated
-- merge doubles no trial.
parent_rows-again :
    (ids later_ids : ℕ → String) (now later : ℕ) (parent : String) (cases : List CasePayload)
    → (rows : List CaseRun) → All HasTrial cases
    → parent_rows later_ids later parent cases (parent_rows ids now parent cases rows)
      ≡ map (touch later) (kept_rows parent cases now rows)
        ++ case_rows later_ids 0 parent later cases
parent_rows-again ids later_ids now later parent cases rows h =
    let kept = kept_rows parent cases now rows in
    let new = case_rows ids 0 parent now cases in
    let gone : kept_rows parent cases later new ≡ [] =
      kept_rows-again parent cases later new
        (case_rows-IsAgain ids 0 parent now cases cases h (any_self cases)) in
    ap (λ (l : List CaseRun). l ++ case_rows later_ids 0 parent later cases)
      (kept_rows-append parent cases later kept new
        ∙ ap (λ (l : List CaseRun). kept_rows parent cases later kept ++ l) gone
        ∙ append-nil (kept_rows parent cases later kept)
        ∙ kept_rows-kept_rows parent cases now later rows)

kept_rows-filter :
    (parent : String) (cases : List CasePayload) (now : ℕ) (rows : List CaseRun)
    → kept_rows parent cases now rows ≡ kept_rows parent cases now (filter (in_batch parent) rows)
unfolding kept_rows
kept_rows-filter parent cases now [] = refl
kept_rows-filter parent cases now (c ∷ rows) =
    ground (arith, kept_rows-filter parent cases now rows)

-- Two merges of the same cases, each of a rerun batch that is not the parent: then the parent has
-- the rows that the first merge kept, in their order, and one row for each case. A repeated report
-- doubles no trial. Each case names its trial directory.
pub merge_rerun_cases_into_parent-again :
    (s s' s'' : Store) (ids later_ids : ℕ → String) (now later : ℕ) (parent : String)
    → (cases : List CasePayload) (rerun rerun' : String) (b b' : Batch) → (rerun == parent) ≡ false
    → (rerun' == parent) ≡ false
    → All HasTrial cases
    → merge_rerun_cases_into_parent s ids now parent cases rerun ≡ ok (s', some b)
    → merge_rerun_cases_into_parent s' later_ids later parent cases rerun' ≡ ok (s'', some b')
    → filter (in_batch parent) s''.case_runs
      ≡ map (touch later) (kept_rows parent cases now s.case_runs)
        ++ case_rows later_ids 0 parent later cases
merge_rerun_cases_into_parent-again s s' s'' ids later_ids now later parent cases rerun rerun' b b'
      ne ne' h m m' =
    let one = merge_rerun_cases_into_parent-Merges s s' ids now parent cases rerun b ne m in
    let two =
      merge_rerun_cases_into_parent-Merges s' s'' later_ids later parent cases rerun' b' ne' m' in
    two.own_cases
    ∙ ap (λ (l : List CaseRun). l ++ case_rows later_ids 0 parent later cases)
        (kept_rows-filter parent cases later s'.case_runs
          ∙ ap (λ (l : List CaseRun). kept_rows parent cases later l) one.own_cases)
    ∙ parent_rows-again ids later_ids now later parent cases s.case_runs h
