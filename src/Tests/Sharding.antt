-- ===== src/Tests/Sharding.antt =====
-- Five cases over two workers, with whole numbers in place of floats.
use agent_eval_orchestrator.Prelude.{
  ℕ, String, ◌≡◌, ◌≤◌, ◌+◌, ◌-◌, ◌*◌, ◌/◌, refl, Bool, List, [], ◌∷◌, arith, length, map, count,
  ltb,
}
use agent_eval_orchestrator.Table
use agent_eval_orchestrator.Json.{Value, int, end}
use agent_eval_orchestrator.Storage.Schema.{Batch, Store, Result, ok}
use agent_eval_orchestrator.Storage.Templates.{get_task_template}
use agent_eval_orchestrator.Storage.Runs.{get_run}
use agent_eval_orchestrator.Storage.Batches.{get_batch}
use agent_eval_orchestrator.Storage.Sharding.{
  Floats, sum_from, sum_nat, quotas_of, weights_of, weighted_case_groups,
}
use agent_eval_orchestrator.Storage.Sharding.Groups.{flat}
use agent_eval_orchestrator.Storage.Sharding.Quotas.{floors}
use agent_eval_orchestrator.Storage.Sharding.Split.{IsSplit, weighted_case_groups-IsSplit}
use agent_eval_orchestrator.Storage.Sharding.Create.{
  Integer, natural, max_concurrency, zipped, create_sharded_batches,
}
use agent_eval_orchestrator.Storage.Sharding.Create.Outcome.{HasTemplate, AreNew, IsSharded}
use agent_eval_orchestrator.Storage.Sharding.Create.Sharded.{create_sharded_batches-IsSharded}
use agent_eval_orchestrator.Tests.Data.{two_queued, run_a, template_a, tally, tally-distinct}

abbrev whole_of : Value → ℕ
whole_of (int n) = n
whole_of _ = 1

abbrev int_of : Value → Result Integer
int_of v = ok (natural (whole_of v))

abbrev whole : Floats ℕ
whole = record {
  of_nat = λ n. n;
  of_value = whole_of;
  add = λ x y. x + y;
  sub = λ x y. x - y;
  mul = λ x y. x * y;
  div = λ x y. x / y;
  lt = ltb;
  truncated = λ n. n;
}

abbrev no_batches : Store
no_batches = record two_queued { batches = [] }

abbrev workers : List String
workers = "w1" ∷ "w2" ∷ []

abbrev cases : List String
cases = "a" ∷ "b" ∷ "c" ∷ "d" ∷ "e" ∷ []

split_test :
    weighted_case_groups whole no_batches cases workers
    ≡ ("a" ∷ "c" ∷ "e" ∷ []) ∷ ("b" ∷ "d" ∷ []) ∷ []
unfolding weighted_case_groups
split_test = refl

tally-AreNew : AreNew tally 0 no_batches
unfolding get_batch Table.find
tally-AreNew j h = refl

has_template : HasTemplate no_batches "r1"
unfolding get_run get_task_template Table.find
has_template = (run_a, template_a, refl, refl)

shares_low :
    sum_nat (floors whole (length cases) (weights_of whole no_batches workers)) ≤ length cases
unfolding sum_nat weights_of sum_from
shares_low = omega arith

shares_high :
    length cases
    ≤ sum_nat (floors whole (length cases) (weights_of whole no_batches workers))
      + length (weights_of whole no_batches workers)
unfolding sum_nat weights_of sum_from
shares_high = omega arith

weighted_case_groups-IsSplit_example :
    IsSplit cases
      (quotas_of whole (length cases) (weights_of whole no_batches workers))
      (weighted_case_groups whole no_batches cases workers)
weighted_case_groups-IsSplit_example =
    weighted_case_groups-IsSplit whole no_batches cases workers shares_low shares_high

shares_enough :
    length cases
    ≤ sum_nat (floors whole (length cases) (weights_of whole no_batches workers)) + length workers
unfolding sum_nat weights_of sum_from
shares_enough = omega arith

limit_one : max_concurrency int_of end ≡ ok (natural 1)
unfolding max_concurrency
limit_one = refl

create_sharded_batches-IsSharded_example :
    (sharded : IsSharded no_batches "r1"
      (natural 1)
      "queued"
      (zipped workers (weighted_case_groups whole no_batches cases workers))
      (create_sharded_batches whole int_of no_batches "/runtime" 50 tally "r1" cases workers end
        "queued"))
    × ((p : String → Bool)
        → count p (flat (map (λ (b : Batch). b.selected_case_ids) sharded.created)) ≡ count p cases)
create_sharded_batches-IsSharded_example =
    create_sharded_batches-IsSharded whole int_of no_batches "/runtime" 50 tally "r1" "a" "w1"
      ("b" ∷ "c" ∷ "d" ∷ "e" ∷ []) ("w2" ∷ []) end "queued" (natural 1) limit_one has_template
      tally-AreNew tally-distinct shares_low shares_enough
