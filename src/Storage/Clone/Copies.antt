-- ===== src/Storage/Clone/Copies.antt =====
-- The rows that a clone (storage/store.py) adds, column by column.
use agent_eval_orchestrator.Prelude.{ℕ, suc, String, ◌≡◌, refl, ap, none, List, [], ◌∷◌, ◌++◌}
use agent_eval_orchestrator.Core.Layout.{batch_dir}
use agent_eval_orchestrator.Storage.Schema.{Run, Batch, CaseRun, Store}
use agent_eval_orchestrator.Storage.Exceptions.{list_case_runs}
use agent_eval_orchestrator.Storage.Clone.{case_copies}
use agent_eval_orchestrator.Storage.Clone.Snapshot.{id_pairs, batch_copies, row_copies}

-- A copy of a batch has a new id, the target's run and owner, its own directory and the time of the
-- clone; it is primary and has no parent; all else is the source's.
abbrev pub copied_batch : (root : String) (now : ℕ) → Run → (batch_id : String) → Batch → Batch
copied_batch root now target batch_id b = record {
  batch_id = batch_id;
  run_id = target.run_id;
  owner = target.owner;
  status = b.status;
  current_step = b.current_step;
  preferred_worker_id = b.preferred_worker_id;
  assigned_worker_id = b.assigned_worker_id;
  executor_kind = b.executor_kind;
  executor_metadata = b.executor_metadata;
  selected_case_ids = b.selected_case_ids;
  batch_options = b.batch_options;
  summary = b.summary;
  artifact_index = b.artifact_index;
  batch_root = batch_dir root target.owner target.run_id batch_id;
  created_at = now;
  started_at = b.started_at;
  finished_at = b.finished_at;
  error_text = b.error_text;
  parent_batch_id = none;
  batch_kind = "primary";
}

abbrev pub copied_row : (case_run_id batch_id : String) (now : ℕ) → CaseRun → CaseRun
copied_row case_run_id batch_id now c = record {
  case_run_id = case_run_id;
  batch_id = batch_id;
  case_id = c.case_id;
  status = c.status;
  score = c.score;
  metrics = c.metrics;
  artifact_index = c.artifact_index;
  error_text = c.error_text;
  created_at = c.created_at;
  updated_at = now;
}

-- `f` of each element with its number, from `i` on.
abbrev pub numbered : {A B : Type 0} → (ℕ → A → B) → ℕ → List A → List B
numbered f i [] = []
numbered f i (x ∷ xs) = f i x ∷ numbered f (suc i) xs

abbrev pub flat_numbered : {A B : Type 0} → (ℕ → A → List B) → ℕ → List A → List B
flat_numbered f i [] = []
flat_numbered f i (x ∷ xs) = f i x ++ flat_numbered f (suc i) xs

abbrev pub copied_batches :
    (root : String) (now : ℕ) → Run → (ids : ℕ → String) → List Batch → List Batch
copied_batches root now target ids = numbered (λ i b. copied_batch root now target (ids i) b) 0

-- The copies of the rows of each batch, in the order of their cases.
abbrev pub copied_rows :
    Store → (now : ℕ) (ids : ℕ → String) (case_ids : ℕ → ℕ → String) → List Batch → List CaseRun
copied_rows s now ids case_ids =
    flat_numbered
      (λ i b.
        numbered (λ j c. copied_row (case_ids i j) (ids i) now c) 0 (list_case_runs s b.batch_id))
      0

pub batch_copies-eq :
    (root : String) (now : ℕ) (target : Run) (ids : ℕ → String) (i : ℕ) (bs : List Batch)
    → batch_copies root now target ids i bs
      ≡ numbered (λ i b. copied_batch root now target (ids i) b) i bs
batch_copies-eq root now target ids i [] = refl
batch_copies-eq root now target ids i (b ∷ bs) =
    ap (λ (l : List Batch). copied_batch root now target (ids i) b ∷ l)
      (batch_copies-eq root now target ids (suc i) bs)

case_copies-eq :
    (case_ids : ℕ → String) (j : ℕ) (batch_id : String) (now : ℕ) (cs : List CaseRun)
    → case_copies case_ids j batch_id now cs
      ≡ numbered (λ j c. copied_row (case_ids j) batch_id now c) j cs
unfolding case_copies
case_copies-eq case_ids j batch_id now [] = refl
case_copies-eq case_ids j batch_id now (c ∷ cs) =
    ap (λ (l : List CaseRun). copied_row (case_ids j) batch_id now c ∷ l)
      (case_copies-eq case_ids (suc j) batch_id now cs)

pub row_copies-eq :
    (s : Store) (now : ℕ) (ids : ℕ → String) (case_ids : ℕ → ℕ → String) (i : ℕ) (bs : List Batch)
    → row_copies s now ids case_ids i bs
      ≡ flat_numbered
          (λ i b.
            numbered
              (λ j c. copied_row (case_ids i j) (ids i) now c)
              0
              (list_case_runs s b.batch_id))
          i
          bs
row_copies-eq s now ids case_ids i [] = refl
row_copies-eq s now ids case_ids i (b ∷ bs) =
    rw
      (
        row_copies-eq s now ids case_ids (suc i) bs,
        case_copies-eq (case_ids i) 0 (ids i) now (list_case_runs s b.batch_id),
      )
      refl

pub id_pairs-eq :
    (ids : ℕ → String) (i : ℕ) (bs : List Batch)
    → id_pairs ids i bs ≡ numbered (λ i (b : Batch). (b.batch_id, ids i)) i bs
id_pairs-eq ids i [] = refl
id_pairs-eq ids i (b ∷ bs) =
    ap (λ (l : List (String × String)). (b.batch_id, ids i) ∷ l) (id_pairs-eq ids (suc i) bs)
