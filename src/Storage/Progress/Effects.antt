-- ===== src/Storage/Progress/Effects.antt =====
-- What update_batch_progress of storage/store.py changes, and what it leaves.
use mathlib.Core.Option
use agent_eval_orchestrator.Prelude.{
  ℕ, suc, String, ◌≡◌, refl, sym, ap, ◌∙◌, inl, inr, true, false, none, some, List, [], ◌∷◌, ◌++◌,
  arith, append-nil, filter, filter-append, Option-cases, ◌==◌, eq_iff, eq_refl, if◌then◌else◌,
}
use mathlib.Core.Path.{subst₂}
use agent_eval_orchestrator.Table
use agent_eval_orchestrator.Storage.Schema.{Batch, CaseRun, Store, ok}
use agent_eval_orchestrator.Storage.Cases.{CasePayload, case_row, case_rows}
use agent_eval_orchestrator.Storage.Batches.{batch_key, get_batch}
use agent_eval_orchestrator.Storage.Claim.{worker_key}
use agent_eval_orchestrator.Storage.Progress.{
  given, Progress, case_key, in_batch, report, replace_cases, reported_cases, heartbeat,
  update_batch_progress,
}

-- The rows that one call writes are all of one batch.
pub filter-case_rows :
    (ids : ℕ → String) (i : ℕ) (batch_id : String) (now : ℕ) (cases : List CasePayload)
    → filter (in_batch batch_id) (case_rows ids i batch_id now cases)
      ≡ case_rows ids i batch_id now cases
unfolding case_rows
filter-case_rows ids i batch_id now [] = refl
filter-case_rows ids i batch_id now (p ∷ ps) = rw (eq_refl batch_id) (
    ap (λ (l : List CaseRun). case_row (ids i) batch_id now p ∷ l)
      (filter-case_rows ids (suc i) batch_id now ps))

pub filter-case_rows_ne :
    (ids : ℕ → String) (i : ℕ) (batch_id j : String) (now : ℕ) (cases : List CasePayload)
    → (batch_id == j) ≡ false
    → filter (in_batch j) (case_rows ids i batch_id now cases) ≡ []
unfolding case_rows
filter-case_rows_ne ids i batch_id j now [] ne = refl
filter-case_rows_ne ids i batch_id j now (p ∷ ps) ne =
    ground (arith, filter-case_rows_ne ids (suc i) batch_id j now ps ne)

other_batch :
    (k j : String) (c : CaseRun) → (k == j) ≡ false → in_batch j c ≡ true → in_batch k c ≡ false
other_batch k j c ne h = ground (arith, eq_iff c.batch_id j, eq_iff c.batch_id k, eq_iff k j)

-- The rows of a batch after they are replaced.
pub filter-replaced :
    (k : String) (rows new : List CaseRun)
    → filter (in_batch k) new ≡ new
    → filter (in_batch k) (Table.delete_where (in_batch k) rows ++ new) ≡ new
filter-replaced k rows new h =
    filter-append (in_batch k) (Table.delete_where (in_batch k) rows) new
    ∙ ap (λ (l : List CaseRun). l ++ filter (in_batch k) new)
        (Table.filter-delete_where_self (in_batch k) rows)
    ∙ h

pub filter-replaced_ne :
    (k j : String) (rows new : List CaseRun)
    → (k == j) ≡ false
    → filter (in_batch j) new ≡ []
    → filter (in_batch j) (Table.delete_where (in_batch k) rows ++ new) ≡ filter (in_batch j) rows
filter-replaced_ne k j rows new ne h =
    filter-append (in_batch j) (Table.delete_where (in_batch k) rows) new
    ∙ ap (λ (l : List CaseRun). filter (in_batch j) (Table.delete_where (in_batch k) rows) ++ l) h
    ∙ append-nil _
    ∙ Table.filter-delete_where_ne (in_batch k) (in_batch j) rows (λ c. other_batch k j c ne)

abbrev cases_after : (ℕ → String) → ℕ → Progress → List CaseRun → List CaseRun
cases_after ids now p rows = elim p.cases [
  | none ↦ filter (in_batch p.batch_id) rows
  | some cases ↦ case_rows ids 0 p.batch_id now cases
]

reported_cases-own :
    (ids : ℕ → String) (now : ℕ) (p : Progress) (rows out : List CaseRun)
    → reported_cases ids now p rows ≡ some out
    → filter (in_batch p.batch_id) out ≡ cases_after ids now p rows
unfolding reported_cases replace_cases
reported_cases-own ids now p rows out h = elim (Option-cases p.cases) [
  | inl e ↦ ground arith
  | inr (cs, e) ↦
      let is_out =
        Table.insert_all_inv case_key (case_rows ids 0 p.batch_id now cs)
          (Table.delete_where (in_batch p.batch_id) rows) out (ground arith) in
      let read =
        filter-replaced p.batch_id rows (case_rows ids 0 p.batch_id now cs)
          (filter-case_rows ids 0 p.batch_id now cs) in
      ap (λ (l : List CaseRun). filter (in_batch p.batch_id) l) is_out ∙ read ∙ ground arith
]

reported_cases-others :
    (ids : ℕ → String) (now : ℕ) (p : Progress) (rows out : List CaseRun) (j : String)
    → reported_cases ids now p rows ≡ some out
    → (p.batch_id == j) ≡ false
    → filter (in_batch j) out ≡ filter (in_batch j) rows
unfolding reported_cases replace_cases
reported_cases-others ids now p rows out j h ne = elim (Option-cases p.cases) [
  | inl e ↦ ground arith
  | inr (cs, e) ↦
      let is_out =
        Table.insert_all_inv case_key (case_rows ids 0 p.batch_id now cs)
          (Table.delete_where (in_batch p.batch_id) rows) out (ground arith) in
      ap (λ (l : List CaseRun). filter (in_batch j) l) is_out
      ∙ filter-replaced_ne p.batch_id j rows (case_rows ids 0 p.batch_id now cs) ne
          (filter-case_rows_ne ids 0 p.batch_id j now cs ne)
]

-- What a report of a known batch does.
pub record Reports (s s' : Store) (ids : ℕ → String) (now : ℕ) (p : Progress) (b : Batch)
    : Type 0 where
  pub before : Batch
  pub was_stored : get_batch s p.batch_id ≡ some before
  pub reported : b ≡ record before {
    status = p.status;
    current_step = p.current_step;
    error_text = p.error_text;
    finished_at = if p.finished then some now else before.finished_at;
    summary = given p.summary before.summary;
    executor_metadata = given p.executor_metadata before.executor_metadata;
    artifact_index = given p.artifact_index before.artifact_index;
  }
  pub stored : get_batch s' p.batch_id ≡ some b
  pub others : (j : String) → (p.batch_id == j) ≡ false → get_batch s' j ≡ get_batch s j
  pub own_cases : filter (in_batch p.batch_id) s'.case_runs ≡ elim p.cases [
    | none ↦ filter (in_batch p.batch_id) s.case_runs
    | some cases ↦ case_rows ids 0 p.batch_id now cases
  ]
  pub other_cases :
      (j : String)
      → (p.batch_id == j) ≡ false
      → filter (in_batch j) s'.case_runs ≡ filter (in_batch j) s.case_runs
  pub runs : s'.runs ≡ s.runs

after : Store → List CaseRun → ℕ → Progress → Store
after s rows now p = record s {
  batches = Table.update batch_key p.batch_id (report p now) s.batches;
  case_runs = rows;
  workers = Table.update worker_key p.worker_id (heartbeat now) s.workers;
}

get_batch-after :
    (s : Store) (rows : List CaseRun) (now : ℕ) (p : Progress) (j : String)
    → get_batch (after s rows now p) j
      ≡ (if p.batch_id == j then Option.map (report p now) (get_batch s j) else get_batch s j)
unfolding after get_batch report
get_batch-after s rows now p j =
    Table.find-update batch_key j p.batch_id (report p now) s.batches (λ b. refl)

update_batch_progress-eq :
    (s : Store) (ids : ℕ → String) (now : ℕ) (p : Progress) (old : Batch) (rows : List CaseRun)
    → get_batch s p.batch_id ≡ some old
    → reported_cases ids now p s.case_runs ≡ some rows
    → update_batch_progress s ids now p
      ≡ ok (after s rows now p, get_batch (after s rows now p) p.batch_id)
unfolding update_batch_progress after
update_batch_progress-eq s ids now p old rows e r = rw (e, r, update_batch_progress)

reported_columns :
    (p : Progress) (now : ℕ) (old : Batch)
    → report p now old ≡ record old {
      status = p.status;
      current_step = p.current_step;
      error_text = p.error_text;
      finished_at = if p.finished then some now else old.finished_at;
      summary = given p.summary old.summary;
      executor_metadata = given p.executor_metadata old.executor_metadata;
      artifact_index = given p.artifact_index old.artifact_index;
    }
unfolding report
reported_columns p now old = refl

Reports-after :
    (s : Store) (ids : ℕ → String) (now : ℕ) (p : Progress) (old : Batch) (rows : List CaseRun)
    → get_batch s p.batch_id ≡ some old
    → reported_cases ids now p s.case_runs ≡ some rows
    → Reports s (after s rows now p) ids now p (report p now old)
unfolding after
Reports-after s ids now p old rows e r = record {
  before = old;
  was_stored = e;
  reported = reported_columns p now old;
  stored = ground (arith, get_batch-after s rows now p p.batch_id, eq_refl p.batch_id);
  others = λ j ne. ground (arith, get_batch-after s rows now p j);
  own_cases = reported_cases-own ids now p s.case_runs rows r;
  other_cases = λ j ne. reported_cases-others ids now p s.case_runs rows j r ne;
  runs = refl;
}

-- A report of a known batch that raises nothing returns the batch as it is stored then: status,
-- step and error are the reported ones, the finish time is set only by a report that finishes, and
-- the other columns change only where the report has a value. Its case rows are exactly the
-- reported cases, if there are any; no other batch, no other batch's case row and no run changes.
pub update_batch_progress-Reports :
    (s s' : Store) (ids : ℕ → String) (now : ℕ) (p : Progress) (b : Batch)
    → update_batch_progress s ids now p ≡ ok (s', some b)
    → Reports s s' ids now p b
update_batch_progress-Reports s s' ids now p b h = elim (Option-cases (get_batch s p.batch_id)) [
  | inl e ↦ unfold update_batch_progress in ground arith
  | inr (old, e) ↦ elim (Option-cases (reported_cases ids now p s.case_runs)) [
    | inl r ↦ unfold update_batch_progress in ground arith
    | inr (rows, r) ↦
        let t = Reports-after s ids now p old rows e r in
        let step = update_batch_progress-eq s ids now p old rows e r in
        let is_after : s' ≡ after s rows now p = ground (arith, step) in
        let is_report : b ≡ report p now old = ground (arith, step, t.stored) in
        subst₂ (λ x y. Reports s x ids now p y) (sym is_after) (sym is_report) t
  ]
]

-- If the ids drawn for the cases are new, a report of a known batch raises nothing.
pub update_batch_progress-ok :
    (s : Store) (ids : ℕ → String) (now : ℕ) (p : Progress) (old : Batch) (cases : List CasePayload)
    → get_batch s p.batch_id ≡ some old
    → p.cases ≡ some cases
    → Table.IsUnique case_key (
        Table.delete_where (in_batch p.batch_id) s.case_runs
        ++ case_rows ids 0 p.batch_id now cases)
    → (s' : Store) × (b : Batch) × (update_batch_progress s ids now p ≡ ok (s', some b))
unfolding reported_cases replace_cases
update_batch_progress-ok s ids now p old cases e c u =
    let kept = Table.delete_where (in_batch p.batch_id) s.case_runs in
    let new = case_rows ids 0 p.batch_id now cases in
    let wrote : reported_cases ids now p s.case_runs ≡ some (kept ++ new) =
      ground (arith, Table.insert_all_unique case_key new kept u) in
    (
      after s (kept ++ new) now p,
      report p now old,
      ground (
        arith,
        update_batch_progress-eq s ids now p old (kept ++ new) e wrote,
        get_batch-after s (kept ++ new) now p p.batch_id,
        eq_refl p.batch_id,
      ),
    )
