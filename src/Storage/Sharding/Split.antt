-- ===== src/Storage/Sharding/Split.antt =====
-- The split of the cases over the workers as a whole (storage/store.py).
use agent_eval_orchestrator.Prelude.{
  ℕ, String, ◌≡◌, ◌≤◌, ◌+◌, refl, ap, ◌∙◌, Bool, true, List, [], ◌∷◌, arith, map, length, count,
}
use agent_eval_orchestrator.Storage.Schema.{Store}
use agent_eval_orchestrator.Storage.Sharding.{
  Floats, Slot, sum_from, sum_nat, quotas_of, slots_of, place, groups, weights_of,
  weighted_case_groups,
}
use agent_eval_orchestrator.Storage.Sharding.Groups.{quotas, flat, loads, place-count, place-loads}
use agent_eval_orchestrator.Storage.Sharding.Quotas.{floors, quotas_of-lem}

module _ {F : Type 0} (fl : Floats F) where
  slots-quotas :
      (ws : List F) (qs : List ℕ) → length qs ≡ length ws → quotas (slots_of fl ws qs) ≡ qs
  unfolding slots_of
  slots-quotas [] [] h = refl
  slots-quotas [] (q ∷ qs) h = absurd (omega (arith, h))
  slots-quotas (w ∷ ws) [] h = absurd (omega (arith, h))
  slots-quotas (w ∷ ws) (q ∷ qs) h =
      ap (λ (l : List ℕ). q ∷ l) (slots-quotas ws qs (omega (arith, h)))

  slots-loads : (ws : List F) (qs : List ℕ) → loads (slots_of fl ws qs) ≡ quotas (slots_of fl ws qs)
  unfolding slots_of
  slots-loads [] qs = refl
  slots-loads (w ∷ ws) [] = refl
  slots-loads (w ∷ ws) (q ∷ qs) = ground (arith, slots-loads ws qs)

  slots-flat : (ws : List F) (qs : List ℕ) → flat (groups (slots_of fl ws qs)) ≡ []
  unfolding slots_of
  slots-flat [] qs = refl
  slots-flat (w ∷ ws) [] = refl
  slots-flat (w ∷ ws) (q ∷ qs) = slots-flat ws qs

used_up :
    {F : Type 0} (slots : List (Slot F))
    → sum_nat (quotas slots) ≡ 0
    → map length (groups slots) ≡ loads slots
unfolding sum_nat
used_up [] h = refl
used_up (slot ∷ slots) h = ground (arith, h, used_up slots (omega (arith, h)))

-- The cases that a worker gets and their numbers.
pub record IsSplit (case_ids : List String) (quotas : List ℕ) (split : List (List String))
    : Type 0 where
  pub each_once : (p : String → Bool) → count p (flat split) ≡ count p case_ids
  pub sizes : map length split ≡ quotas
  pub all_given : sum_nat quotas ≡ length case_ids

-- Whatever the weights, if the truncated shares add up to no more than the cases, and to no less
-- than the cases less one for each worker, as those of exact numbers do, then the groups hold each
-- case exactly as often as it was selected, and each worker gets as many as its quota; the quotas
-- add up to the number of cases.
pub weighted_case_groups-IsSplit :
    {F : Type 0} (fl : Floats F) (s : Store) (case_ids worker_ids : List String)
    → sum_nat (floors fl (length case_ids) (weights_of fl s worker_ids)) ≤ length case_ids
    → length case_ids
      ≤ sum_nat (floors fl (length case_ids) (weights_of fl s worker_ids))
        + length (weights_of fl s worker_ids)
    → IsSplit case_ids
        (quotas_of fl (length case_ids) (weights_of fl s worker_ids))
        (weighted_case_groups fl s case_ids worker_ids)
unfolding weighted_case_groups
weighted_case_groups-IsSplit fl s case_ids worker_ids low high =
    let ws = weights_of fl s worker_ids in
    let n = length case_ids in
    let qs = quotas_of fl n ws in
    let total = sum_from fl (fl.of_nat 0) ws in
    let slots = slots_of fl ws qs in
    let (sums, long) = quotas_of-lem fl n ws low high in
    let same = slots-quotas fl ws qs long in
    let budget = ap sum_nat same ∙ sums in
    let fits : n ≤ sum_nat (quotas slots) = omega (arith, budget) in
    let left = (place-count fl (λ _. true) total case_ids slots fits).1 in
    record {
      each_once = λ p.
          let empty = ap (count p) (slots-flat fl ws qs) in
          omega (arith, (place-count fl p total case_ids slots fits).0, empty);
      sizes =
          used_up (place fl total case_ids slots) (omega (arith, left, budget))
          ∙ place-loads fl total case_ids slots
          ∙ slots-loads fl ws qs
          ∙ same;
      all_given = sums;
    }
