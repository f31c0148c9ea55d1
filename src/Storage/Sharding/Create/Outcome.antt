-- ===== src/Storage/Sharding/Create/Outcome.antt =====
-- What create_sharded_batches of storage/store.py creates.
use agent_eval_orchestrator.Prelude.{
  ℕ, suc, String, ◌≡◌, ◌≤◌, ◌<◌, refl, sym, ap, subst, ◌∙◌, false, Option, none, some, List, [],
  ◌∷◌, ◌++◌, arith, map, length, append-nil, append_assoc, All, ◌==◌,
}
use agent_eval_orchestrator.Table
use agent_eval_orchestrator.Json
use agent_eval_orchestrator.Json.{Fields, Value, int, get, get-put}
use agent_eval_orchestrator.Core.Layout.{batch_dir}
use agent_eval_orchestrator.Storage.Schema.{Batch, Run, Template, Store, Result, ok}
use agent_eval_orchestrator.Storage.Templates.{get_task_template}
use agent_eval_orchestrator.Storage.Runs.{run_key, get_run, update_run}
use agent_eval_orchestrator.Storage.Rerun.Completion.{get_run-update}
use agent_eval_orchestrator.Storage.Batches.{batch_key, get_batch, create_batch}
use agent_eval_orchestrator.Storage.Sharding.Create.{
  Integer, limited, with_concurrency, create_groups,
}

-- The run is there, and its template.
abbrev pub HasTemplate : Store → String → Type 0
HasTemplate s run_id =
    (r : Run) × (t : Template) × (get_run s run_id ≡ some r)
    × (get_task_template s r.template_id ≡ some t)

-- A batch that create_batch makes where its id is new.
pub record IsMade (s : Store) (id run_id : String) (case_ids : List String)
    (preferred : Option String) (options : Fields) (status : String) (made : Store × Batch)
    : Type 0 where
  pub id_is : made.1.batch_id ≡ id
  pub cases_are : made.1.selected_case_ids ≡ case_ids
  pub preferred_is : made.1.preferred_worker_id ≡ preferred
  pub options_are : made.1.batch_options ≡ options
  pub status_is : made.1.status ≡ status
  pub run_is : made.1.run_id ≡ run_id
  pub batches_are : made.0.batches ≡ s.batches ++ made.1 ∷ []
  pub still : HasTemplate made.0 run_id

-- A row that is added and a change of the run leave the run's template as it is.
HasTemplate-added :
    (s : Store) (bs : List Batch) (run_id : String) (f : Run → Run)
    → ((r : Run) → run_key (f r) ≡ run_key r)
    → ((r : Run) → (f r).template_id ≡ r.template_id)
    → HasTemplate s run_id
    → HasTemplate (update_run (record s { batches = bs }) run_id f) run_id
unfolding get_run get_task_template
HasTemplate-added s bs run_id f keeps same (r, t, hr, ht) = (
  f r,
  t,
  get_run-update (record s { batches = bs }) run_id f keeps r hr,
  subst (λ id. get_task_template s id ≡ some t) (sym (same r)) ht,
)

abbrev made_row :
    (root id : String) (now : ℕ) (run_id : String) (case_ids : List String)
    (preferred : Option String) (options : Fields) (status : String)
    → Run
    → Template
    → Batch
made_row root id now run_id case_ids preferred options status r t = record {
  batch_id = id;
  run_id = run_id;
  owner = r.owner;
  status = status;
  current_step = none;
  preferred_worker_id = preferred;
  assigned_worker_id = none;
  executor_kind = t.executor_kind;
  executor_metadata = Json.end;
  selected_case_ids = case_ids;
  batch_options = options;
  summary = Json.end;
  artifact_index = Json.end;
  batch_root = batch_dir root r.owner run_id id;
  created_at = now;
  started_at = none;
  finished_at = none;
  error_text = none;
  parent_batch_id = none;
  batch_kind = "primary";
}

create_batch-IsMade :
    (s : Store) (root id : String) (now : ℕ) (run_id : String) (case_ids : List String)
    (preferred : Option String) (options : Fields) (status : String)
    → HasTemplate s run_id
    → get_batch s id ≡ none
    → (made : Store × Batch) × (create_batch s root id now run_id case_ids preferred options status
          "primary" none
        ≡ ok made)
      × IsMade s id run_id case_ids preferred options status made
unfolding create_batch get_batch
create_batch-IsMade s root id now run_id case_ids preferred options status (r, t, hr, ht) new =
    let found : Table.find batch_key id s.batches ≡ none = new in
    let row = made_row root id now run_id case_ids preferred options status r t in
    rw (hr, ht, found, create_batch)
      (
        _,
        refl,
        record {
          id_is = refl;
          cases_are = refl;
          preferred_is = refl;
          options_are = refl;
          status_is = refl;
          run_is = refl;
          batches_are = refl;
          still =
              HasTemplate-added s (s.batches ++ row ∷ []) run_id
                (λ x. record x { latest_batch_id = some id; updated_at = now }) (λ x. refl)
                (λ x. refl) (r, t, hr, ht);
        },
      )

-- The ids from a number on are not in use.
abbrev pub AreNew : (ℕ → String) → ℕ → Store → Type 0
AreNew ids i s = (j : ℕ) → i ≤ j → get_batch s (ids j) ≡ none

abbrev pub AreDistinct : (ℕ → String) → Type 0
AreDistinct ids = (i j : ℕ) → i < j → (ids i == ids j) ≡ false

AreNew-made :
    (ids : ℕ → String) (i : ℕ) (s s' : Store) (b : Batch)
    → AreDistinct ids
    → AreNew ids i s
    → b.batch_id ≡ ids i
    → s'.batches ≡ s.batches ++ b ∷ []
    → AreNew ids (suc i) s'
unfolding get_batch
AreNew-made ids i s s' b distinct new is_id are j h =
    let old : Table.find batch_key (ids j) s.batches ≡ none = new j (omega (arith, h)) in
    let other = distinct i j (omega (arith, h)) in
    ap (Table.find batch_key (ids j)) are
    ∙ Table.find-append batch_key (ids j) s.batches b
    ∙ rw (old, is_id, other) refl

-- What a batch has of its pair.
abbrev pub shard_of : Batch → Option String × List String
shard_of b = (b.preferred_worker_id, b.selected_case_ids)

-- The pairs that have a case.
abbrev pub shards : List (String × List String) → List (Option String × List String)
shards [] = []
shards ((w, []) ∷ pairs) = shards pairs
shards ((w, c ∷ cs) ∷ pairs) = (some w, c ∷ cs) ∷ shards pairs

abbrev pub IsShard : String → Integer → String → Batch → Type 0
IsShard run_id most status b =
    (b.run_id ≡ run_id)
    × (b.status ≡ status)
    × (get "concurrency" b.batch_options ≡ some (limited most (length b.selected_case_ids)))

pub record IsSharded (s : Store) (run_id : String) (most : Integer) (status : String)
    (pairs : List (String × List String)) (out : Store × Result (List Batch)) : Type 0 where
  pub created : List Batch
  pub returned : out.1 ≡ ok created
  pub batches_are : out.0.batches ≡ s.batches ++ created
  pub shards_are : map shard_of created ≡ shards pairs
  pub each : All (IsShard run_id most status) created

module _ (root : String) (now : ℕ) (ids : ℕ → String) (run_id : String) (options : Fields)
    (most : Integer) (status : String) (distinct : AreDistinct ids) where
  cons-IsSharded :
      (i : ℕ) (w c : String) (cs : List String) (pairs : List (String × List String)) (s : Store)
      (made : Store × Batch)
      → create_batch s root
          (ids i)
          now
          run_id
          (c ∷ cs)
          (some w)
          (with_concurrency most (c ∷ cs) options)
          status
          "primary"
          none
        ≡ ok made
      → IsMade s
          (ids i)
          run_id
          (c ∷ cs)
          (some w)
          (with_concurrency most (c ∷ cs) options)
          status
          made
      → IsSharded made.0 run_id most status pairs
          (create_groups root now ids run_id options most status (suc i) pairs made.0)
      → IsSharded s run_id most status
          ((w, c ∷ cs) ∷ pairs)
          (create_groups root now ids run_id options most status i ((w, c ∷ cs) ∷ pairs) s)
  unfolding create_groups
  cons-IsSharded i w c cs pairs s made e m rest =
      let limit =
        ap (get "concurrency") m.options_are
        ∙ get-put "concurrency" "concurrency" (limited most (suc (length cs))) options in
      record {
        created = made.1 ∷ rest.created;
        returned = rw (e, create_groups, rest.returned) refl;
        batches_are =
            rw (e, create_groups, rest.returned)
              (rest.batches_are
                ∙ ap (λ (bs : List Batch). bs ++ rest.created) m.batches_are
                ∙ append_assoc s.batches (made.1 ∷ []) rest.created);
        shards_are = rw (m.preferred_is, m.cases_are, rest.shards_are) refl;
        each = ((m.run_is, m.status_is, rw m.cases_are limit), rest.each);
      }

  pub create_groups-IsSharded :
      (i : ℕ) (pairs : List (String × List String)) (s : Store)
      → HasTemplate s run_id
      → AreNew ids i s
      → IsSharded s run_id most status pairs
          (create_groups root now ids run_id options most status i pairs s)
  unfolding create_groups
  create_groups-IsSharded i [] s has new = record {
    created = [];
    returned = refl;
    batches_are = sym (append-nil s.batches);
    shards_are = refl;
    each = tt;
  }
  create_groups-IsSharded i ((w, []) ∷ pairs) s has new =
      let rest = create_groups-IsSharded i pairs s has new in
      record {
        created = rest.created;
        returned = rest.returned;
        batches_are = rest.batches_are;
        shards_are = rest.shards_are;
        each = rest.each;
      }
  create_groups-IsSharded i ((w, c ∷ cs) ∷ pairs) s has new =
      let with_limit = with_concurrency most (c ∷ cs) options in
      let (made, e, m) =
        create_batch-IsMade s root (ids i) now run_id (c ∷ cs) (some w) with_limit status has
          (new i (omega arith)) in
      let rest =
        create_groups-IsSharded (suc i) pairs made.0 m.still
          (AreNew-made ids i s made.0 made.1 distinct new m.id_is m.batches_are) in
      cons-IsSharded i w c cs pairs s made e m rest
