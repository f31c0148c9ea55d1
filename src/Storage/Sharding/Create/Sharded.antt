-- ===== src/Storage/Sharding/Create/Sharded.antt =====
-- create_sharded_batches of storage/store.py as a whole.
use agent_eval_orchestrator.Prelude.{
  ℕ, String, ◌≡◌, ◌≤◌, ◌+◌, refl, sym, ap, ◌∙◌, Bool, inl, inr, Bool-cases, Option, List, [], ◌∷◌,
  ◌++◌, arith, any, map, length, count,
}
use agent_eval_orchestrator.Json.{Fields, Value}
use agent_eval_orchestrator.Storage.Schema.{Batch, Store, Result, ok}
use agent_eval_orchestrator.Storage.Claim.{find_worker}
use agent_eval_orchestrator.Storage.Sharding.{
  Floats, sum_nat, weights_of, weighted_case_groups, is_positive, worker_allocation_score,
}
use agent_eval_orchestrator.Storage.Sharding.Groups.{flat}
use agent_eval_orchestrator.Storage.Sharding.Quotas.{floors, length-map, quotas_of-lem}
use agent_eval_orchestrator.Storage.Sharding.Split.{weighted_case_groups-IsSplit}
use agent_eval_orchestrator.Storage.Sharding.Create.{
  Integer, max_concurrency, zipped, create_sharded_batches,
}
use agent_eval_orchestrator.Storage.Sharding.Create.Outcome.{
  HasTemplate, AreNew, AreDistinct, shard_of, shards, IsSharded, create_groups-IsSharded,
}

zipped-groups :
    (ws : List String) (gs : List (List String))
    → length gs ≡ length ws
    → map (λ (pair : String × List String). pair.1) (zipped ws gs) ≡ gs
unfolding zipped
zipped-groups [] [] h = refl
zipped-groups [] (g ∷ gs) h = absurd (omega (arith, h))
zipped-groups (w ∷ ws) [] h = absurd (omega (arith, h))
zipped-groups (w ∷ ws) (g ∷ gs) h =
    ap (λ (l : List (List String)). g ∷ l) (zipped-groups ws gs (omega (arith, h)))

flat-shards :
    (pairs : List (String × List String))
    → flat (map (λ (shard : Option String × List String). shard.1) (shards pairs))
      ≡ flat (map (λ (pair : String × List String). pair.1) pairs)
flat-shards [] = refl
flat-shards ((w, []) ∷ pairs) = flat-shards pairs
flat-shards ((w, c ∷ cs) ∷ pairs) = ap (λ (l : List String). c ∷ cs ++ l) (flat-shards pairs)

cases-shard_of :
    (bs : List Batch)
    → map (λ (shard : Option String × List String). shard.1) (map shard_of bs)
      ≡ map (λ (b : Batch). b.selected_case_ids) bs
cases-shard_of [] = refl
cases-shard_of (b ∷ bs) =
    ap (λ (l : List (List String)). b.selected_case_ids ∷ l) (cases-shard_of bs)

length-weights_of :
    {F : Type 0} (fl : Floats F) (s : Store) (ws : List String)
    → length (weights_of fl s ws) ≡ length ws
unfolding weights_of
length-weights_of fl s ws =
    elim (Bool-cases
      (any (is_positive fl) (map (λ w. worker_allocation_score fl (find_worker s w)) ws))) [
        | inl e ↦ rw e (length-map _ ws)
        | inr e ↦ rw e (length-map _ ws)
      ]

-- A split of a non-empty list of cases over a non-empty list of workers whose run and template are
-- there, with options whose concurrency int() reads, with new and distinct batch ids and with truncated shares that add up to no more than the
-- cases and to no less than the cases less one for each worker, raises nothing: it adds one batch
-- for each worker that gets a case, in their order, with that worker as the preferred one, with the
-- given status, and with a concurrency of the limit or of the number of its cases, whichever is
-- less; the batches hold each case as often as it was selected.
pub create_sharded_batches-IsSharded :
    {F : Type 0} (fl : Floats F) (int_of : Value → Result Integer) (s : Store) (root : String)
    (now : ℕ) (ids : ℕ → String) (run_id c w : String) (cs ws : List String) (options : Fields)
    (status : String) (most : Integer)
    → max_concurrency int_of options ≡ ok most
    → HasTemplate s run_id
    → AreNew ids 0 s
    → AreDistinct ids
    → sum_nat (floors fl (length (c ∷ cs)) (weights_of fl s (w ∷ ws))) ≤ length (c ∷ cs)
    → length (c ∷ cs)
      ≤ sum_nat (floors fl (length (c ∷ cs)) (weights_of fl s (w ∷ ws))) + length (w ∷ ws)
    → (sharded : IsSharded s run_id most status
        (zipped (w ∷ ws) (weighted_case_groups fl s (c ∷ cs) (w ∷ ws)))
        (create_sharded_batches fl int_of s root now ids run_id (c ∷ cs) (w ∷ ws) options status))
      × ((p : String → Bool)
          → count p (flat (map (λ (b : Batch). b.selected_case_ids) sharded.created))
            ≡ count p (c ∷ cs))
unfolding create_sharded_batches
create_sharded_batches-IsSharded fl int_of s root now ids run_id c w cs ws options status most limit
      has new distinct low high =
    let split = weighted_case_groups fl s (c ∷ cs) (w ∷ ws) in
    let weights = length-weights_of fl s (w ∷ ws) in
    let enough : length (c ∷ cs)
        ≤ sum_nat (floors fl (length (c ∷ cs)) (weights_of fl s (w ∷ ws)))
          + length (weights_of fl s (w ∷ ws)) =
      omega (arith, high, weights) in
    let is_split = weighted_case_groups-IsSplit fl s (c ∷ cs) (w ∷ ws) low enough in
    let quotas = quotas_of-lem fl (length (c ∷ cs)) (weights_of fl s (w ∷ ws)) low enough in
    let sharded =
      create_groups-IsSharded root now ids run_id options most status distinct 0
        (zipped (w ∷ ws) split) s has new in
    let long : length split ≡ length (w ∷ ws) =
      sym (length-map length split) ∙ ap length is_split.sizes ∙ quotas.1 ∙ weights in
    let same : flat (map (λ (b : Batch). b.selected_case_ids) sharded.created) ≡ flat split =
      ap flat (sym (cases-shard_of sharded.created))
      ∙ ap (λ (l : List (Option String × List String)). flat (map (λ shard. shard.1) l))
          sharded.shards_are
      ∙ flat-shards (zipped (w ∷ ws) split)
      ∙ ap flat (zipped-groups (w ∷ ws) split long) in
    rw (limit, create_sharded_batches) (sharded, λ p. ap (count p) same ∙ is_split.each_once p)
