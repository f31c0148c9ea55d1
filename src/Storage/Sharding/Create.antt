-- ===== src/Storage/Sharding/Create.antt =====
-- create_sharded_batches of storage/store.py.
pub mod Outcome
pub mod Sharded
use agent_eval_orchestrator.Prelude.{
  ℕ, zero, suc, String, ◌==◌, Bool, true, false, Option, none, some, List, [], ◌∷◌, length, min,
  nat_eq, if◌then◌else◌,
}
use agent_eval_orchestrator.Text.{is_empty}
use agent_eval_orchestrator.Json
use agent_eval_orchestrator.Json.{
  Fields, Value, text, int, obj, arr, boolean, literal, null, element, no_more, end, field, get,
}
use agent_eval_orchestrator.Storage.Schema.{Batch, Store, Error, runtime_error, Result, ok, err}
use agent_eval_orchestrator.Storage.Batches.{create_batch}
use agent_eval_orchestrator.Storage.Sharding.{Floats, weighted_case_groups}

-- The truth of a JSON value.
unfoldable pub is_true : Value → Bool
is_true (text t) = if is_empty t then false else true
is_true (int n) = if nat_eq n 0 then false else true
is_true (obj end) = false
is_true (obj (field k v d)) = true
is_true (arr no_more) = false
is_true (arr (element v rest)) = true
is_true (boolean b) = b
is_true (literal t) = if t == "0.0" then false else true
is_true null = false

-- DEFAULT_PER_WORKER_CONCURRENCY
abbrev pub default_concurrency : ℕ
default_concurrency = 1

-- What int() gives: a negative number is its JSON text.
pub data Integer : Type 0 where
  natural : ℕ → Integer
  negative : String → Integer

-- int(options.get("concurrency") or DEFAULT_PER_WORKER_CONCURRENCY), with int(x) as a parameter.
unfoldable pub max_concurrency : (Value → Result Integer) → Fields → Result Integer
unfolding get is_true
max_concurrency int_of options = elim (get "concurrency" options) [
  | none ↦ ok (natural default_concurrency)
  | some v ↦ if is_true v then int_of v else ok (natural default_concurrency)
]

-- zip(worker_ids, case_groups)
unfoldable pub zipped : List String → List (List String) → List (String × List String)
zipped (w ∷ ws) (g ∷ gs) = (w, g) ∷ zipped ws gs
zipped [] gs = []
zipped (w ∷ ws) [] = []

-- min(max_concurrency, len(case_ids))
abbrev pub limited : Integer → ℕ → Value
limited (natural most) n = int (min most n)
limited (negative digits) n = literal digits

abbrev pub with_concurrency : Integer → List String → Fields → Fields
with_concurrency most case_ids options =
    Json.put "concurrency" (limited most (length case_ids)) options

-- The state after the loop, and what it returns. Each create_batch is a transaction of its own;
-- `ids` are what new_id gives, from the number of batches so far.
unfoldable pub create_groups :
    (root : String) (now : ℕ) (ids : ℕ → String) (run_id : String) (options : Fields)
    (most : Integer) (status : String)
    → ℕ
    → List (String × List String)
    → Store
    → Store × Result (List Batch)
unfolding create_batch Json.put
create_groups root now ids run_id options most status i [] s = (s, ok [])
create_groups root now ids run_id options most status i ((w, []) ∷ pairs) s =
    create_groups root now ids run_id options most status i pairs s
create_groups root now ids run_id options most status i ((w, c ∷ cs) ∷ pairs) s =
    elim (create_batch s root (ids i) now run_id (c ∷ cs) (some w)
      (with_concurrency most (c ∷ cs) options) status "primary" none) [
        | err e ↦ (s, err e)
        | ok made ↦
            let rest = create_groups root now ids run_id options most status (suc i) pairs made.0 in
            elim rest.1 [ err e ↦ (rest.0, err e) | ok batches ↦ (rest.0, ok (made.1 ∷ batches)) ]
      ]

module _ {F : Type 0} (fl : Floats F) (int_of : Value → Result Integer) where
  unfoldable pub create_sharded_batches :
      Store
      → (root : String) (now : ℕ) (ids : ℕ → String)
      → (run_id : String) (case_ids worker_ids : List String) (options : Fields) (status : String)
      → Store × Result (List Batch)
  unfolding weighted_case_groups max_concurrency zipped create_groups
  create_sharded_batches s root now ids run_id [] worker_ids options status =
      (s, err (runtime_error "selected_case_ids must not be empty"))
  create_sharded_batches s root now ids run_id (c ∷ cs) [] options status =
      (s, err (runtime_error "worker_ids must not be empty"))
  create_sharded_batches s root now ids run_id (c ∷ cs) (w ∷ ws) options status =
      elim (max_concurrency int_of options) [
        | err e ↦ (s, err e)
        | ok most ↦
            create_groups root now ids run_id options most status 0
              (zipped (w ∷ ws) (weighted_case_groups fl s (c ∷ cs) (w ∷ ws))) s
      ]
