-- ===== src/Storage/Sharding.antt =====
-- storage/store.py: how create_sharded_batches splits the cases over the workers. Python's float is
-- not under the repository: its operations are a parameter.
pub mod Groups
pub mod Quotas
pub mod Split
pub mod Create
use agent_eval_orchestrator.Prelude.{
  ℕ, zero, suc, String, ◌+◌, ◌-◌, Bool, true, false, not, ◌||◌, ◌&&◌, Option, none, some, List, [],
  ◌∷◌, ◌++◌, map, any, length, take, leb, ltb, if◌then◌else◌,
}
use agent_eval_orchestrator.Json.{Fields, Value, int, literal, get}
use agent_eval_orchestrator.Storage.Schema.{Worker, Store}
use agent_eval_orchestrator.Storage.Claim.{find_worker}

-- What is used of float: `lt` is `<`, `truncated` is int(x) of a value that is not negative, and
-- `of_value` is float(x) of a number in a column or in a JSON text.
pub record Floats (F : Type 0) : Type 0 where
  pub of_nat : ℕ → F
  pub of_value : Value → F
  pub add : F → F → F
  pub sub : F → F → F
  pub mul : F → F → F
  pub div : F → F → F
  pub lt : F → F → Bool
  pub truncated : F → ℕ

-- A worker's place in the lists weights, quotas, smooth_scores and groups.
pub record Slot (F : Type 0) : Type 0 where
  pub weight : F
  pub quota : ℕ
  pub score : F
  pub group : List String

-- `quotas[index] += 1` for each index.
unfoldable pub bump_at : ℕ → List ℕ → List ℕ
bump_at i [] = []
bump_at zero (q ∷ qs) = suc q ∷ qs
bump_at (suc i) (q ∷ qs) = q ∷ bump_at i qs

unfoldable pub sum_nat : List ℕ → ℕ
sum_nat [] = 0
sum_nat (q ∷ qs) = q + sum_nat qs

abbrev pub groups : {F : Type 0} → List (Slot F) → List (List String)
groups slots = map (λ slot. slot.group) slots

module _ {F : Type 0} (fl : Floats F) where
  abbrev largest : F → F → F
  largest x y = if fl.lt x y then y else x

  -- `x or y` where x is a number of the dictionary, or is not there.
  abbrev or_number : Option Value → F → F
  or_number none y = y
  or_number (some v) y =
      let x = fl.of_value v in if fl.lt x (fl.of_nat 0) || fl.lt (fl.of_nat 0) x then x else y

  -- _worker_allocation_score; `get` finds nothing in the empty dictionary of an unknown worker.
  unfoldable pub worker_allocation_score : Option Worker → F
  unfolding get
  worker_allocation_score none =
      let one = fl.of_nat 1 in
      largest (fl.of_value (literal "0.1")) (
        fl.mul
          (fl.mul (largest one one) (
            fl.add (largest one one)
              (fl.div (largest one (fl.div (fl.of_nat 0) (fl.of_nat 1073741824))) (fl.of_nat 8))))
          one)
  worker_allocation_score (some w) =
      let one = fl.of_nat 1 in
      let slots =
        largest one (
          or_number (some (int w.slots_total)) (or_number (get "slotsTotal" w.capabilities) one)) in
      let cpus = largest one (or_number (get "cpuCount" w.capabilities) one) in
      let memory = largest one (
        fl.div (or_number (get "memoryTotalBytes" w.capabilities) (fl.of_nat 0))
          (fl.of_nat 1073741824)) in
      let override = or_number (some (literal w.allocation_weight)) one in
      largest (fl.of_value (literal "0.1"))
        (fl.mul (fl.mul slots (fl.add cpus (fl.div memory (fl.of_nat 8)))) override)

  abbrev is_positive : F → Bool
  is_positive = fl.lt (fl.of_nat 0)

  unfoldable pub weights_of : Store → List String → List F
  unfolding find_worker worker_allocation_score
  weights_of s worker_ids =
      let weights = map (λ w. worker_allocation_score (find_worker s w)) worker_ids in
      if any is_positive weights then weights else map (λ _. fl.of_nat 1) worker_ids

  unfoldable pub sum_from : F → List F → F
  sum_from total [] = total
  sum_from total (x ∷ xs) = sum_from (fl.add total x) xs

  -- `exact_shares` and `quotas` before the rest is given out.
  abbrev pub shares : ℕ → F → List F → List F
  shares n total weights = map (λ w. fl.div (fl.mul (fl.of_nat n) w) total) weights

  -- range(len(worker_ids)) with what the sort compares.
  unfoldable pub fractions : ℕ → List F → List (ℕ × F)
  fractions i [] = []
  fractions i (share ∷ rest) =
      (i, fl.sub share (fl.of_nat (fl.truncated share))) ∷ fractions (suc i) rest

  insert_desc : ℕ × F → List (ℕ × F) → List (ℕ × F)
  insert_desc x [] = x ∷ []
  insert_desc x (y ∷ ys) =
      let rest = insert_desc x ys in if fl.lt x.1 y.1 then y ∷ rest else x ∷ y ∷ ys

  -- sorted(..., reverse=True), which keeps equal elements in their order.
  unfoldable pub sort_desc : List (ℕ × F) → List (ℕ × F)
  unfolding insert_desc
  sort_desc [] = []
  sort_desc (x ∷ xs) = insert_desc x (sort_desc xs)

  unfoldable pub bump_all : List (ℕ × F) → List ℕ → List ℕ
  unfolding bump_at
  bump_all [] quotas = quotas
  bump_all ((i, x) ∷ order) quotas = bump_all order (bump_at i quotas)

  -- `remainders[:n - sum]`: a negative end counts from the end of the list.
  unfoldable pub slice_to : (n sum : ℕ) → List (ℕ × F) → List (ℕ × F)
  slice_to n sum order =
      if leb sum n then take (n - sum) order else take (length order - (sum - n)) order

  unfoldable pub quotas_of : ℕ → List F → List ℕ
  unfolding sum_from fractions sort_desc bump_all sum_nat slice_to
  quotas_of n weights =
      let exact = shares n (sum_from (fl.of_nat 0) weights) weights in
      let quotas = map fl.truncated exact in
      bump_all (slice_to n (sum_nat quotas) (sort_desc (fractions 0 exact))) quotas

  unfoldable pub slots_of : List F → List ℕ → List (Slot F)
  slots_of (w ∷ ws) (q ∷ qs) =
      record { weight = w; quota = q; score = fl.of_nat 0; group = [] } ∷ slots_of ws qs
  slots_of [] qs = []
  slots_of (w ∷ ws) [] = []

  abbrev pub is_candidate : Slot F → Bool
  is_candidate slot = ltb 0 slot.quota

  -- `smooth_scores[index] += weights[index]` for the candidates.
  unfoldable pub credit : List (Slot F) → List (Slot F)
  credit [] = []
  credit (slot ∷ slots) =
      (if is_candidate slot then record slot { score = fl.add slot.score slot.weight } else slot)
      ∷ credit slots

  -- (score, quota, -index) of a later candidate is greater.
  abbrev pub beats : Slot F → Slot F → Bool
  beats later first =
      fl.lt first.score later.score
      || (not (fl.lt later.score first.score) && ltb first.quota later.quota)

  -- The index of max(candidates, key=...), with its slot.
  unfoldable pub chosen : List (Slot F) → Option (ℕ × Slot F)
  chosen [] = none
  chosen (slot ∷ slots) =
      let rest = chosen slots in
      elim rest [
        | none ↦ if is_candidate slot then some (0, slot) else none
        | some best ↦
            if is_candidate slot && not (beats best.1 slot)
            then some (0, slot)
            else some (suc best.0, best.1)
      ]

  -- The case goes to the chosen worker.
  unfoldable pub give : F → String → ℕ → List (Slot F) → List (Slot F)
  give total case_id i [] = []
  give total case_id zero (slot ∷ slots) =
      record slot {
        group = slot.group ++ case_id ∷ [];
        quota = slot.quota - 1;
        score = fl.sub slot.score total;
      }
      ∷ slots
  give total case_id (suc i) (slot ∷ slots) = slot ∷ give total case_id i slots

  -- The loop over the cases; it breaks where no worker has a quota left.
  unfoldable pub place : F → List String → List (Slot F) → List (Slot F)
  unfolding credit chosen give
  place total [] slots = slots
  place total (case_id ∷ case_ids) slots =
      let credited = credit slots in
      elim (chosen credited) [
        | none ↦ slots
        | some best ↦ place total case_ids (give total case_id best.0 credited)
      ]

  unfoldable pub weighted_case_groups :
      Store → (case_ids worker_ids : List String) → List (List String)
  unfolding weights_of quotas_of slots_of place sum_from
  weighted_case_groups s case_ids worker_ids =
      let weights = weights_of s worker_ids in
      groups (
        place (sum_from (fl.of_nat 0) weights) case_ids
          (slots_of weights (quotas_of (length case_ids) weights)))
