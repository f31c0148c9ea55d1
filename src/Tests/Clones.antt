-- ===== src/Tests/Clones.antt =====
-- A run with three primary batches, one of which has case rows, and a run to clone it to.
use agent_eval_orchestrator.Prelude.{
  ℕ, zero, suc, String, ◌≡◌, ◌==◌, false, refl, some, List, [], ◌∷◌, ◌++◌,
}
use agent_eval_orchestrator.Table
use agent_eval_orchestrator.Storage.Schema.{Run, Store, ok}
use agent_eval_orchestrator.Storage.Runs.{get_run}
use agent_eval_orchestrator.Storage.Batches.{batch_key}
use agent_eval_orchestrator.Storage.Progress.{case_key}
use agent_eval_orchestrator.Storage.Exceptions.{list_case_runs}
use agent_eval_orchestrator.Storage.Clone.{primary_rows, case_copies, clone_primary_batches_to_run}
use agent_eval_orchestrator.Storage.Clone.Snapshot.{AreApart}
use agent_eval_orchestrator.Storage.Clone.Copies.{copied_batches, copied_rows}
use agent_eval_orchestrator.Storage.Clone.Cloned.{IsCloned, clone_primary_batches_to_run-IsCloned}
use agent_eval_orchestrator.Tests.Data.{two_queued, run_a}

abbrev target : Run
target = record run_a { run_id = "r2" }

abbrev two_runs : Store
two_runs = record two_queued { runs = run_a ∷ target ∷ [] }

abbrev new_ids : ℕ → String
new_ids zero = "n0"
new_ids (suc zero) = "n1"
new_ids (suc (suc n)) = "n2"

has_target : get_run two_runs "r2" ≡ some target
unfolding get_run Table.find
has_target = refl

not_b0 : (j : ℕ) → (new_ids j == "b0") ≡ false
not_b0 zero = refl
not_b0 (suc zero) = refl
not_b0 (suc (suc j)) = refl

not_b1 : (j : ℕ) → (new_ids j == "b1") ≡ false
not_b1 zero = refl
not_b1 (suc zero) = refl
not_b1 (suc (suc j)) = refl

not_b2 : (j : ℕ) → (new_ids j == "b2") ≡ false
not_b2 zero = refl
not_b2 (suc zero) = refl
not_b2 (suc (suc j)) = refl

are_apart : AreApart new_ids (primary_rows two_runs "r1")
unfolding primary_rows
are_apart = (not_b0, (not_b1, (not_b2, tt)))

batches-IsUnique :
    Table.IsUnique batch_key
      (two_runs.batches ++ copied_batches "/runtime" 50 target new_ids (primary_rows two_runs "r1"))
unfolding primary_rows Table.find
batches-IsUnique = (refl, (refl, (refl, (refl, (refl, (refl, tt))))))

rows-IsUnique : Table.IsUnique case_key (
    two_runs.case_runs
    ++ copied_rows two_runs 50 new_ids (λ i. new_ids) (primary_rows two_runs "r1"))
unfolding primary_rows list_case_runs case_copies Table.find
rows-IsUnique = (refl, (refl, (refl, (refl, tt))))

clone_primary_batches_to_run-IsCloned_example :
    (out : Store × List (String × String)) × (clone_primary_batches_to_run two_runs "/runtime" 50
        new_ids
        (λ i. new_ids)
        "r1"
        "r2"
      ≡ ok out)
    × IsCloned two_runs "/runtime" 50 target new_ids
        (λ i. new_ids)
        "r1"
        "r2"
        (primary_rows two_runs "r1")
        out
clone_primary_batches_to_run-IsCloned_example =
    clone_primary_batches_to_run-IsCloned two_runs "/runtime" 50 target new_ids (λ i. new_ids) "r1"
      "r2" has_target are_apart batches-IsUnique rows-IsUnique
