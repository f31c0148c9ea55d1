-- ===== src/Storage/Clone/Cloned.antt =====
-- What a run is after clone_primary_batches_to_run of storage/store.py.
use agent_eval_orchestrator.Prelude.{
  ℕ, suc, String, ◌+◌, ◌≡◌, refl, ap, ◌∙◌, Bool, ◌&&◌, some, List, [], ◌∷◌, ◌++◌, arith, length,
  count, filter, insert_by, sort_by, IsOrdered, sort_by-IsOrdered, ◌==◌,
}
use agent_eval_orchestrator.Table
use agent_eval_orchestrator.Storage.Schema.{Run, Batch, CaseRun, Store, ok}
use agent_eval_orchestrator.Storage.Runs.{get_run}
use agent_eval_orchestrator.Storage.Rerun.Completion.{get_run-update}
use agent_eval_orchestrator.Storage.Batches.{batch_key}
use agent_eval_orchestrator.Storage.Progress.{case_key}
use agent_eval_orchestrator.Storage.Clone.{
  insert_batch, order_by_batch_id, primary_rows, last_copy, set_latest,
  clone_primary_batches_to_run,
}
use agent_eval_orchestrator.Storage.Clone.Snapshot.{
  id_pairs, batch_copies, row_copies, AreApart, clone_primary_batches_to_run-copies,
}
use agent_eval_orchestrator.Storage.Clone.Copies.{
  numbered, copied_batches, copied_rows, batch_copies-eq, row_copies-eq, id_pairs-eq,
}

abbrev pub is_source : String → Batch → Bool
is_source run_id b = b.run_id == run_id && b.batch_kind == "primary"

-- The state and the mapping after a clone, and the batches that were copied.
pub record IsCloned (s : Store) (root : String) (now : ℕ) (target : Run) (ids : ℕ → String)
    (case_ids : ℕ → ℕ → String) (source_run_id target_run_id : String) (sources : List Batch)
    (out : Store × List (String × String)) : Type 0 where
  pub each_source :
      (p : Batch → Bool) → count p sources ≡ count (λ b. is_source source_run_id b && p b) s.batches
  pub oldest_first : IsOrdered (λ (b : Batch). b.created_at) sources
  pub batches_are : out.0.batches ≡ s.batches ++ copied_batches root now target ids sources
  pub rows_are : out.0.case_runs ≡ s.case_runs ++ copied_rows s now ids case_ids sources
  pub mapping_is : out.1 ≡ numbered (λ i (b : Batch). (b.batch_id, ids i)) 0 sources
  pub run_without : length sources ≡ 0 → get_run out.0 target_run_id ≡ some target
  pub run_with :
      (n : ℕ)
      → length sources ≡ suc n
      → get_run out.0 target_run_id
        ≡ some (record target { latest_batch_id = some (ids n); updated_at = now })

last_copy-id :
    (ids : ℕ → String) (i : ℕ) (bs : List Batch)
    → last_copy (ids i) (id_pairs ids (suc i) bs) ≡ ids (i + length bs)
last_copy-id ids i [] = ap ids (omega arith)
last_copy-id ids i (b ∷ bs) = last_copy-id ids (suc i) bs ∙ ap ids (omega arith)

-- Sorting and filtering keep the rows.
module _ (p : Batch → Bool) where
  count-insert_batch :
      (b : Batch) (bs : List Batch) → count p (insert_batch b bs) ≡ count p (b ∷ bs)
  count-insert_batch b [] = refl
  count-insert_batch b (x ∷ xs) = ground (arith, count-insert_batch b xs)

  count-order : (bs : List Batch) → count p (order_by_batch_id bs) ≡ count p bs
  count-order [] = refl
  count-order (b ∷ bs) = ground (arith, count-insert_batch b (order_by_batch_id bs), count-order bs)

  count-insert_by :
      (key : Batch → ℕ) (b : Batch) (bs : List Batch)
      → count p (insert_by key b bs) ≡ count p (b ∷ bs)
  count-insert_by key b [] = refl
  count-insert_by key b (x ∷ xs) = ground (arith, count-insert_by key b xs)

  count-sort_by : (key : Batch → ℕ) (bs : List Batch) → count p (sort_by key bs) ≡ count p bs
  count-sort_by key [] = refl
  count-sort_by key (b ∷ bs) =
      ground (arith, count-insert_by key b (sort_by key bs), count-sort_by key bs)

  count-filter :
      (q : Batch → Bool) (bs : List Batch) → count p (filter q bs) ≡ count (λ b. q b && p b) bs
  count-filter q [] = refl
  count-filter q (b ∷ bs) = ground (arith, count-filter q bs)

primary_rows-count :
    (s : Store) (run_id : String) (p : Batch → Bool)
    → count p (primary_rows s run_id) ≡ count (λ b. is_source run_id b && p b) s.batches
unfolding primary_rows
primary_rows-count s run_id p =
    count-sort_by p (λ b. b.created_at) (order_by_batch_id (filter (is_source run_id) s.batches))
    ∙ count-order p (filter (is_source run_id) s.batches)
    ∙ count-filter p (is_source run_id) s.batches

primary_rows-IsOrdered :
    (s : Store) (run_id : String) → IsOrdered (λ (b : Batch). b.created_at) (primary_rows s run_id)
unfolding primary_rows
primary_rows-IsOrdered s run_id =
    sort_by-IsOrdered (λ (b : Batch). b.created_at)
      (order_by_batch_id (filter (is_source run_id) s.batches))

-- The target's row after the last UPDATE.
run_without-lem :
    (s : Store) (now : ℕ) (target : Run) (id : String) (ids : ℕ → String) (bs : List Batch)
    → get_run s id ≡ some target
    → length bs ≡ 0
    → get_run (set_latest id now (id_pairs ids 0 bs) s) id ≡ some target
run_without-lem s now target id ids [] has h = has
run_without-lem s now target id ids (b ∷ bs) has h = absurd (omega (arith, h))

run_with-lem :
    (s : Store) (now : ℕ) (target : Run) (id : String) (ids : ℕ → String) (bs : List Batch) (n : ℕ)
    → get_run s id ≡ some target
    → length bs ≡ suc n
    → get_run (set_latest id now (id_pairs ids 0 bs) s) id
      ≡ some (record target { latest_batch_id = some (ids n); updated_at = now })
run_with-lem s now target id ids [] n has h = absurd (omega (arith, h))
run_with-lem s now target id ids (b ∷ bs) n has h =
    let last : last_copy (ids 0) (id_pairs ids 1 bs) ≡ ids n =
      last_copy-id ids 0 bs ∙ ap ids (omega (arith, h)) in
    get_run-update s id
      (λ r. record r {
        latest_batch_id = some (last_copy (ids 0) (id_pairs ids 1 bs));
        updated_at = now;
      })
      (λ r. refl) target has
    ∙ ap (λ x. some (record target { latest_batch_id = some x; updated_at = now })) last

still_found :
    (s : Store) (bs : List Batch) (cs : List CaseRun) (id : String) (target : Run)
    → get_run s id ≡ some target
    → get_run (record s { batches = bs; case_runs = cs }) id ≡ some target
unfolding get_run
still_found s bs cs id target h = h

set_latest-rows :
    (s : Store) (id : String) (now : ℕ) (pairs : List (String × String))
    → ((set_latest id now pairs s).batches ≡ s.batches)
      × ((set_latest id now pairs s).case_runs ≡ s.case_runs)
set_latest-rows s id now [] = (refl, refl)
set_latest-rows s id now ((x, y) ∷ pairs) = (refl, refl)

-- Where the target run is there, the new batch ids are none of the source's batches, and no key
-- occurs twice among the old and the new batches, nor among the old and the new case rows, the clone
-- of a run raises nothing. The batches copied are the primary ones of the source run, each as often
-- as it is in the table, oldest first. Their copies follow the old batches, and the copies of the
-- case rows that they had at the start follow the old case rows: with new ids, the target's run,
-- owner and directory and the time of the clone, and all else as in the source. The pairs of the ids
-- are returned, and the target's latest batch is the last copy if there is one.
pub clone_primary_batches_to_run-IsCloned :
    (s : Store) (root : String) (now : ℕ) (target : Run) (ids : ℕ → String)
    (case_ids : ℕ → ℕ → String) (source_run_id target_run_id : String)
    → get_run s target_run_id ≡ some target
    → AreApart ids (primary_rows s source_run_id)
    → Table.IsUnique batch_key
        (s.batches ++ copied_batches root now target ids (primary_rows s source_run_id))
    → Table.IsUnique case_key
        (s.case_runs ++ copied_rows s now ids case_ids (primary_rows s source_run_id))
    → (out : Store × List (String × String)) × (clone_primary_batches_to_run s root now ids case_ids
          source_run_id target_run_id
        ≡ ok out)
      × IsCloned s root now target ids case_ids source_run_id target_run_id
          (primary_rows s source_run_id)
          out
clone_primary_batches_to_run-IsCloned s root now target ids case_ids source_run_id target_run_id has
      apart u v =
    let sources = primary_rows s source_run_id in
    let bs = batch_copies-eq root now target ids 0 sources in
    let cs = row_copies-eq s now ids case_ids 0 sources in
    let pairs = id_pairs ids 0 sources in
    let batches = s.batches ++ batch_copies root now target ids 0 sources in
    let rows = s.case_runs ++ row_copies s now ids case_ids 0 sources in
    let copied : Store = record s { batches = batches; case_runs = rows } in
    let still = still_found s batches rows target_run_id target has in
    let same = set_latest-rows copied target_run_id now pairs in
    (
      (set_latest target_run_id now pairs copied, pairs),
      clone_primary_batches_to_run-copies s root now target ids case_ids source_run_id target_run_id
          has apart (rw bs u) (rw cs v),
      record {
        each_source = primary_rows-count s source_run_id;
        oldest_first = primary_rows-IsOrdered s source_run_id;
        batches_are = same.0 ∙ ap (λ (l : List Batch). s.batches ++ l) bs;
        rows_are = same.1 ∙ ap (λ (l : List CaseRun). s.case_runs ++ l) cs;
        mapping_is = id_pairs-eq ids 0 sources;
        run_without = run_without-lem copied now target target_run_id ids sources still;
        run_with = λ n. run_with-lem copied now target target_run_id ids sources n still;
      },
    )
