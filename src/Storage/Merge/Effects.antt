-- ===== src/Storage/Merge/Effects.antt =====
-- What merge_rerun_cases_into_parent of storage/store.py changes, and what it leaves.
use mathlib.Core.Option
use mathlib.Core.Path.{subst₂}
use agent_eval_orchestrator.Prelude.{
  ℕ, String, ◌≡◌, refl, sym, ap, ◌∙◌, inl, inr, Bool, true, false, not, ◌&&◌, ◌||◌, any, map, some,
  List, [], ◌∷◌, ◌++◌, arith, append_assoc, filter, filter-append, Option-cases, ◌==◌, eq_iff,
  eq_refl, if◌then◌else◌,
}
use agent_eval_orchestrator.Table
use agent_eval_orchestrator.Text.{is_empty}
use agent_eval_orchestrator.Storage.Schema.{Batch, CaseRun, Store, ok}
use agent_eval_orchestrator.Storage.Cases.{
  CasePayload, row_key, payload_key, case_rows, recompute_batch_summary, summary_fields,
}
use agent_eval_orchestrator.Storage.Batches.{batch_key, get_batch}
use agent_eval_orchestrator.Storage.Progress.{case_key, in_batch}
use agent_eval_orchestrator.Storage.Progress.Effects.{
  filter-case_rows, filter-case_rows_ne, filter-replaced, filter-replaced_ne,
}
use agent_eval_orchestrator.Storage.Merge.{
  is_rerun_key, kept_rows, merged_cases, merge_rerun_cases_into_parent,
}

filter-kept_rows :
    (k : String) (cases : List CasePayload) (now : ℕ) (rows : List CaseRun)
    → filter (in_batch k) (kept_rows k cases now rows) ≡ kept_rows k cases now rows
unfolding kept_rows
filter-kept_rows k cases now [] = refl
filter-kept_rows k cases now (c ∷ rows) = ground (arith, filter-kept_rows k cases now rows)

filter-kept_rows_ne :
    (k j : String) (cases : List CasePayload) (now : ℕ) (rows : List CaseRun)
    → (k == j) ≡ false
    → filter (in_batch j) (kept_rows k cases now rows) ≡ []
unfolding kept_rows
filter-kept_rows_ne k j cases now [] ne = refl
filter-kept_rows_ne k j cases now (c ∷ rows) ne = ground (
  arith,
  eq_iff c.batch_id k,
  eq_iff c.batch_id j,
  eq_iff k j,
  filter-kept_rows_ne k j cases now rows ne,
)

-- The parent's rows after a merge.
abbrev pub parent_rows : (ℕ → String) → ℕ → String → List CasePayload → List CaseRun → List CaseRun
parent_rows ids now parent cases rows =
    kept_rows parent cases now rows ++ case_rows ids 0 parent now cases

merged_cases-eq :
    (ids : ℕ → String) (now : ℕ) (parent : String) (cases : List CasePayload)
    → (rows out : List CaseRun) → merged_cases ids now parent cases rows ≡ some out
    → out ≡ Table.delete_where (in_batch parent) rows ++ parent_rows ids now parent cases rows
unfolding merged_cases
merged_cases-eq ids now parent cases rows out h =
    let others = Table.delete_where (in_batch parent) rows in
    let kept = kept_rows parent cases now rows in
    let new = case_rows ids 0 parent now cases in
    elim (Option-cases (Table.insert_all case_key kept others)) [
      | inl e ↦ ground arith
      | inr (mid, e) ↦
          Table.insert_all_inv case_key new mid out (ground arith)
          ∙ ap (λ (l : List CaseRun). l ++ new) (Table.insert_all_inv case_key kept others mid e)
          ∙ append_assoc others kept new
    ]

filter-parent_rows :
    (ids : ℕ → String) (now : ℕ) (parent : String) (cases : List CasePayload) (rows : List CaseRun)
    → filter (in_batch parent) (parent_rows ids now parent cases rows)
      ≡ parent_rows ids now parent cases rows
filter-parent_rows ids now parent cases rows =
    filter-append (in_batch parent) (kept_rows parent cases now rows)
      (case_rows ids 0 parent now cases)
    ∙ cc (filter-kept_rows parent cases now rows, filter-case_rows ids 0 parent now cases)

filter-parent_rows_ne :
    (ids : ℕ → String) (now : ℕ) (parent j : String) (cases : List CasePayload)
    (rows : List CaseRun)
    → (parent == j) ≡ false
    → filter (in_batch j) (parent_rows ids now parent cases rows) ≡ []
filter-parent_rows_ne ids now parent j cases rows ne =
    filter-append (in_batch j) (kept_rows parent cases now rows) (case_rows ids 0 parent now cases)
    ∙ ground (
      arith,
      filter-kept_rows_ne parent j cases now rows ne,
      filter-case_rows_ne ids 0 parent j now cases ne,
    )

same_test :
    (e a : Bool) (c : CaseRun) {xs ys : List CaseRun}
    → xs ≡ ys
    → (if not (not e && a) then c ∷ xs else xs) ≡ (if e || not a then c ∷ ys else ys)
same_test true a c h = ap (λ l. c ∷ l) h
same_test false true c h = h
same_test false false c h = ap (λ l. c ∷ l) h

survivors :
    (cases : List CasePayload) (rows : List CaseRun)
    → filter (λ c. not (is_rerun_key cases (row_key c))) rows
      ≡ filter (λ c. is_empty (row_key c) || not (any (λ p. payload_key p == row_key c) cases)) rows
unfolding is_rerun_key
survivors cases [] = refl
survivors cases (c ∷ cs) =
    same_test (is_empty (row_key c)) (any (λ p. payload_key p == row_key c) cases) c
      (survivors cases cs)

-- The rows that stay are those whose key no rerun case has; a row without a key stays too.
kept_rows-survivors :
    (parent : String) (cases : List CasePayload) (now : ℕ) (rows : List CaseRun)
    → kept_rows parent cases now rows
      ≡ map
          (λ (c : CaseRun). record c { updated_at = now })
          (filter
            (λ c. is_empty (row_key c) || not (any (λ p. payload_key p == row_key c) cases))
            (filter (in_batch parent) rows))
unfolding kept_rows
kept_rows-survivors parent cases now rows =
    ap (λ (l : List CaseRun). map (λ (c : CaseRun). record c { updated_at = now }) l)
      (survivors cases (filter (in_batch parent) rows))

-- What a merge into a known parent does.
pub record Merges (s s' : Store) (ids : ℕ → String) (now : ℕ) (parent : String)
    (cases : List CasePayload) (rerun : String) (b : Batch) : Type 0 where
  pub before : Batch
  pub was_stored : get_batch s parent ≡ some before
  pub own_cases :
      filter (in_batch parent) s'.case_runs ≡ parent_rows ids now parent cases s.case_runs
  pub kept :
      kept_rows parent cases now s.case_runs
      ≡ map
          (λ (c : CaseRun). record c { updated_at = now })
          (filter
            (λ c. is_empty (row_key c) || not (any (λ p. payload_key p == row_key c) cases))
            (filter (in_batch parent) s.case_runs))
  pub summary : b ≡ record before {
    summary = summary_fields (recompute_batch_summary (filter (in_batch parent) s'.case_runs));
  }
  pub stored : get_batch s' parent ≡ some b
  pub others : (j : String) → (parent == j) ≡ false → get_batch s' j ≡ get_batch s j
  pub rerun_gone : filter (in_batch rerun) s'.case_runs ≡ []
  pub other_cases :
      (j : String)
      → (parent == j) ≡ false
      → (rerun == j) ≡ false
      → filter (in_batch j) s'.case_runs ≡ filter (in_batch j) s.case_runs

apart : (k j : String) (c : CaseRun) → (k == j) ≡ false → in_batch j c ≡ true → in_batch k c ≡ false
apart k j c ne h = ground (arith, eq_iff c.batch_id j, eq_iff c.batch_id k, eq_iff k j)

abbrev set_summary : String → List CaseRun → Batch → Batch
set_summary parent rows b = record b {
  summary = summary_fields (recompute_batch_summary (filter (in_batch parent) rows));
}

after : Store → List CaseRun → String → String → Store
after s rows parent rerun = record s {
  batches = Table.update batch_key parent (set_summary parent rows) s.batches;
  case_runs = Table.delete_where (in_batch rerun) rows;
}

get_batch-after :
    (s : Store) (rows : List CaseRun) (parent rerun j : String)
    → get_batch (after s rows parent rerun) j ≡ (
        if parent == j then Option.map (set_summary parent rows) (get_batch s j) else get_batch s j)
unfolding after get_batch
get_batch-after s rows parent rerun j =
    Table.find-update batch_key j parent (set_summary parent rows) s.batches (λ b. refl)

merge-eq :
    (s : Store) (ids : ℕ → String) (now : ℕ) (parent : String) (cases : List CasePayload)
    → (rerun : String) (old : Batch) (rows : List CaseRun) → get_batch s parent ≡ some old
    → merged_cases ids now parent cases s.case_runs ≡ some rows
    → merge_rerun_cases_into_parent s ids now parent cases rerun
      ≡ ok (after s rows parent rerun, get_batch (after s rows parent rerun) parent)
unfolding merge_rerun_cases_into_parent after
merge-eq s ids now parent cases rerun old rows e r = rw (e, r, merge_rerun_cases_into_parent)

module _ (s : Store) (ids : ℕ → String) (now : ℕ) (parent : String) (cases : List CasePayload)
    (rerun : String) (old : Batch) (rows : List CaseRun) (e : get_batch s parent ≡ some old)
    (r : merged_cases ids now parent cases s.case_runs ≡ some rows)
    (ne : (rerun == parent) ≡ false) where
  own_after :
      filter (in_batch parent) (after s rows parent rerun).case_runs ≡ filter (in_batch parent) rows
  unfolding after
  own_after =
      Table.filter-delete_where_ne (in_batch rerun) (in_batch parent) rows
        (λ c. apart rerun parent c ne)

  own_rows : filter (in_batch parent) rows ≡ parent_rows ids now parent cases s.case_runs
  own_rows =
      ap (λ (l : List CaseRun). filter (in_batch parent) l)
        (merged_cases-eq ids now parent cases s.case_runs rows r)
      ∙ filter-replaced parent s.case_runs (parent_rows ids now parent cases s.case_runs)
          (filter-parent_rows ids now parent cases s.case_runs)

  other_rows :
      (j : String)
      → (parent == j) ≡ false
      → (rerun == j) ≡ false
      → filter (in_batch j) (after s rows parent rerun).case_runs ≡ filter (in_batch j) s.case_runs
  unfolding after
  other_rows j np nr =
      Table.filter-delete_where_ne (in_batch rerun) (in_batch j) rows (λ c. apart rerun j c nr)
      ∙ ap (λ (l : List CaseRun). filter (in_batch j) l)
          (merged_cases-eq ids now parent cases s.case_runs rows r)
      ∙ filter-replaced_ne parent j s.case_runs (parent_rows ids now parent cases s.case_runs) np
          (filter-parent_rows_ne ids now parent j cases s.case_runs np)

  Merges-after :
      Merges s (after s rows parent rerun) ids now parent cases rerun (set_summary parent rows old)
  Merges-after = record {
    before = old;
    was_stored = e;
    own_cases = own_after ∙ own_rows;
    kept = kept_rows-survivors parent cases now s.case_runs;
    summary =
        ap
          (λ (l : List CaseRun). record old {
            summary = summary_fields (recompute_batch_summary l);
          })
          (sym own_after);
    stored = ground (arith, get_batch-after s rows parent rerun parent, eq_refl parent, e);
    others = λ j np. ground (arith, get_batch-after s rows parent rerun j);
    rerun_gone = unfold after in Table.filter-delete_where_self (in_batch rerun) rows;
    other_cases = other_rows;
  }

-- A merge of a rerun batch into another batch that is there: the parent keeps the rows of the
-- trials that the rerun did not run again, in their order, and gets a row for each rerun case;
-- its summary counts exactly its rows; the rerun batch has no rows left; no other batch and no
-- other batch's row changes.
pub merge_rerun_cases_into_parent-Merges :
    (s s' : Store) (ids : ℕ → String) (now : ℕ) (parent : String) (cases : List CasePayload)
    → (rerun : String) (b : Batch) → (rerun == parent) ≡ false
    → merge_rerun_cases_into_parent s ids now parent cases rerun ≡ ok (s', some b)
    → Merges s s' ids now parent cases rerun b
merge_rerun_cases_into_parent-Merges s s' ids now parent cases rerun b ne h =
    elim (Option-cases (get_batch s parent)) [
      | inl e ↦ unfold merge_rerun_cases_into_parent in ground arith
      | inr (old, e) ↦ elim (Option-cases (merged_cases ids now parent cases s.case_runs)) [
        | inl r ↦ unfold merge_rerun_cases_into_parent in ground arith
        | inr (rows, r) ↦
            let t = Merges-after s ids now parent cases rerun old rows e r ne in
            let step = merge-eq s ids now parent cases rerun old rows e r in
            let is_after : s' ≡ after s rows parent rerun = ground (arith, step) in
            let is_summary : b ≡ set_summary parent rows old = ground (arith, step, t.stored) in
            subst₂ (λ x y. Merges s x ids now parent cases rerun y) (sym is_after) (sym is_summary)
              t
      ]
    ]
