-- ===== src/Storage/Clone/Snapshot.antt =====
-- What clone_primary_batches_to_run of storage/store.py writes.
use agent_eval_orchestrator.Prelude.{
  ℕ, suc, String, ◌≡◌, refl, sym, ◌∙◌, false, none, some, List, [], ◌∷◌, ◌++◌, arith, filter,
  append-nil, append_assoc, All, ◌==◌,
}
use agent_eval_orchestrator.Table
use agent_eval_orchestrator.Storage.Schema.{Run, Batch, CaseRun, Store, ok}
use agent_eval_orchestrator.Storage.Runs.{get_run}
use agent_eval_orchestrator.Storage.Batches.{batch_key}
use agent_eval_orchestrator.Storage.Progress.{case_key, in_batch}
use agent_eval_orchestrator.Storage.Exceptions.{list_case_runs}
use agent_eval_orchestrator.Storage.Clone.{
  primary_rows, batch_copy, case_copies, clone_batch, clone_batches, set_latest,
  clone_primary_batches_to_run,
}

-- The pairs of the ids of the batches and of their copies.
abbrev pub id_pairs : (ids : ℕ → String) → ℕ → List Batch → List (String × String)
id_pairs ids i [] = []
id_pairs ids i (b ∷ bs) = (b.batch_id, ids i) ∷ id_pairs ids (suc i) bs

module _ (root : String) (now : ℕ) (target : Run) (ids : ℕ → String) where
  -- The copies of a list of batches.
  abbrev pub batch_copies : ℕ → List Batch → List Batch
  batch_copies i [] = []
  batch_copies i (b ∷ bs) = batch_copy root now target (ids i) b ∷ batch_copies (suc i) bs

module _ (s : Store) (now : ℕ) (ids : ℕ → String) (case_ids : ℕ → ℕ → String) where
  -- The copies of the case rows that the batches had at the start.
  abbrev pub row_copies : ℕ → List Batch → List CaseRun
  row_copies i [] = []
  row_copies i (b ∷ bs) =
      case_copies (case_ids i) 0 (ids i) now (list_case_runs s b.batch_id) ++ row_copies (suc i) bs

-- The copies for one batch are no rows of another.
filter-copies :
    (ids : ℕ → String) (i : ℕ) (id k : String) (now : ℕ) (rows : List CaseRun) (cs : List CaseRun)
    → (id == k) ≡ false
    → filter (in_batch k) (cs ++ case_copies ids i id now rows) ≡ filter (in_batch k) cs
unfolding case_copies
filter-copies ids i id k now [] [] ne = refl
filter-copies ids i id k now (c ∷ rows) [] ne =
    rw ne (filter-copies ids (suc i) id k now rows [] ne)
filter-copies ids i id k now rows (x ∷ cs) ne =
    ground (arith, filter-copies ids i id k now rows cs ne)

-- The rows of the batches are still those of the start.
abbrev Unread : Store → List CaseRun → List Batch → Type 0
Unread s cs = All (λ b. filter (in_batch b.batch_id) cs ≡ filter (in_batch b.batch_id) s.case_runs)

-- None of the new ids is that of one of the batches.
abbrev pub AreApart : (ℕ → String) → List Batch → Type 0
AreApart ids = All (λ b. (j : ℕ) → (ids j == b.batch_id) ≡ false)

module _ (s : Store) (root : String) (now : ℕ) (target : Run) (ids : ℕ → String)
    (case_ids : ℕ → ℕ → String) where
  Unread-copies :
      (i : ℕ) (rows cs : List CaseRun) (bs : List Batch)
      → AreApart ids bs
      → Unread s cs bs
      → Unread s (cs ++ case_copies (case_ids i) 0 (ids i) now rows) bs
  Unread-copies i rows cs [] apart h = tt
  Unread-copies i rows cs (b ∷ bs) apart h = (
    filter-copies (case_ids i) 0 (ids i) b.batch_id now rows cs (apart.0 i) ∙ h.0,
    Unread-copies i rows cs bs apart.1 h.1,
  )

  clone_batch-copies :
      (i : ℕ) (b : Batch) (bs : List Batch) (cs rows : List CaseRun)
      → filter (in_batch b.batch_id) cs ≡ filter (in_batch b.batch_id) s.case_runs
      → rows ≡ case_copies (case_ids i) 0 (ids i) now (list_case_runs s b.batch_id)
      → Table.find batch_key (ids i) bs ≡ none
      → Table.IsUnique case_key (cs ++ rows)
      → clone_batch root now target
          (ids i)
          (case_ids i)
          b
          (record s { batches = bs; case_runs = cs })
        ≡ ok (record s {
          batches = bs ++ batch_copy root now target (ids i) b ∷ [];
          case_runs = cs ++ rows;
        })
  unfolding clone_batch list_case_runs
  clone_batch-copies i b bs cs rows same are new u =
      rw
        (
          clone_batch,
          Table.insert_new batch_key (batch_copy root now target (ids i) b) bs new,
          same,
          sym are,
          Table.insert_all_unique case_key rows cs u,
        )
        refl

  clone_batches-copies :
      (i : ℕ) (bs sources : List Batch) (cs : List CaseRun)
      → AreApart ids sources
      → Unread s cs sources
      → Table.IsUnique batch_key (bs ++ batch_copies root now target ids i sources)
      → Table.IsUnique case_key (cs ++ row_copies s now ids case_ids i sources)
      → clone_batches root now target ids case_ids i sources
          (record s { batches = bs; case_runs = cs })
        ≡ ok (
          record s {
            batches = bs ++ batch_copies root now target ids i sources;
            case_runs = cs ++ row_copies s now ids case_ids i sources;
          },
          id_pairs ids i sources,
        )
  unfolding clone_batches
  clone_batches-copies i bs [] cs apart same u v = rw (append-nil bs, append-nil cs) refl
  clone_batches-copies i bs (b ∷ sources) cs apart same u v =
      let copy = batch_copy root now target (ids i) b in
      let rows = case_copies (case_ids i) 0 (ids i) now (list_case_runs s b.batch_id) in
      let more = row_copies s now ids case_ids (suc i) sources in
      let copies = batch_copies root now target ids (suc i) sources in
      let v' : Table.IsUnique case_key ((cs ++ rows) ++ more) = rw (append_assoc cs rows more) v in
      let u' : Table.IsUnique batch_key ((bs ++ copy ∷ []) ++ copies) =
        rw (Table.append_one batch_key copies bs copy) u in
      let now_ =
        clone_batch-copies i b bs cs rows same.0 refl (Table.find-middle batch_key copy bs copies u)
          (Table.prefix-IsUnique case_key (cs ++ rows) more v') in
      let later =
        clone_batches-copies (suc i) (bs ++ copy ∷ []) sources (cs ++ rows) apart.1
          (Unread-copies i (list_case_runs s b.batch_id) cs sources apart.1 same.1) u' v' in
      rw
        (
          clone_batches,
          now_,
          later,
          Table.append_one batch_key copies bs copy,
          append_assoc cs rows more,
        )
        refl

Unread-start : (s : Store) (bs : List Batch) → Unread s s.case_runs bs
Unread-start s [] = tt
Unread-start s (b ∷ bs) = (refl, Unread-start s bs)

cloned_run :
    (s : Store) (root : String) (now : ℕ) (target : Run) (ids : ℕ → String)
    (case_ids : ℕ → ℕ → String) (source_run_id target_run_id : String) (s' : Store)
    (mapping : List (String × String))
    → get_run s target_run_id ≡ some target
    → clone_batches root now target ids case_ids 0 (primary_rows s source_run_id) s
      ≡ ok (s', mapping)
    → clone_primary_batches_to_run s root now ids case_ids source_run_id target_run_id
      ≡ ok (set_latest target_run_id now mapping s', mapping)
unfolding clone_primary_batches_to_run
cloned_run s root now target ids case_ids source_run_id target_run_id s' mapping has copied =
    ground (arith, has, copied)

-- Each row that the loop reads is as it was at the start.
pub clone_primary_batches_to_run-copies :
    (s : Store) (root : String) (now : ℕ) (target : Run) (ids : ℕ → String)
    (case_ids : ℕ → ℕ → String) (source_run_id target_run_id : String)
    → get_run s target_run_id ≡ some target
    → AreApart ids (primary_rows s source_run_id)
    → Table.IsUnique batch_key
        (s.batches ++ batch_copies root now target ids 0 (primary_rows s source_run_id))
    → Table.IsUnique case_key
        (s.case_runs ++ row_copies s now ids case_ids 0 (primary_rows s source_run_id))
    → clone_primary_batches_to_run s root now ids case_ids source_run_id target_run_id
      ≡ ok (
        set_latest target_run_id now (id_pairs ids 0 (primary_rows s source_run_id)) (record s {
          batches = s.batches ++ batch_copies root now target ids 0 (primary_rows s source_run_id);
          case_runs = s.case_runs ++ row_copies s now ids case_ids 0 (primary_rows s source_run_id);
        }),
        id_pairs ids 0 (primary_rows s source_run_id),
      )
unfolding clone_primary_batches_to_run
clone_primary_batches_to_run-copies s root now target ids case_ids source_run_id target_run_id has
      apart u v =
    let rows = primary_rows s source_run_id in
    let copied : clone_batches root now target ids case_ids 0 rows s
        ≡ ok (
          record s {
            batches = s.batches ++ batch_copies root now target ids 0 rows;
            case_runs = s.case_runs ++ row_copies s now ids case_ids 0 rows;
          },
          id_pairs ids 0 rows,
        ) =
      clone_batches-copies s root now target ids case_ids 0 s.batches rows s.case_runs apart
        (Unread-start s rows) u v in
    cloned_run s root now target ids case_ids source_run_id target_run_id _ _ has copied
