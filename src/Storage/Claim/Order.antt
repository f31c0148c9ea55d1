-- ===== src/Storage/Claim/Order.antt =====
-- Which batch a claim takes.
use agent_eval_orchestrator.Prelude.{
  String, ◌≡◌, ◌↔◌, ◌⊎◌, refl, inl, inr, Bool, not, ◌&&◌, ◌==◌, eq_iff, if◌then◌else◌, true, false,
  none, some, List, [], ◌∷◌, arith, All, filter_map, All-sort_by_inv, Bool-cases,
}
use agent_eval_orchestrator.Text.{strip, or_empty, is_empty}
use agent_eval_orchestrator.Storage.Schema.{Worker, Store}
use agent_eval_orchestrator.Storage.Claim.{
  Queued, join_row, age, queued_rows, may_take, choose, is_disabled, find_worker, chosen_row,
}

choose-none :
    (w : String) (rows : List Queued) → choose w rows ≡ none → All (λ q. may_take w q ≡ false) rows
unfolding choose
choose-none w [] h = tt
choose-none w (x ∷ xs) h = elim (Bool-cases (may_take w x)) [
  | inl e ↦ ground arith
  | inr e ↦ (e, choose-none w xs (ground arith))
]

-- The queued batches with their runs and templates, in the order of the table.
abbrev pub waiting : Store → List Queued
waiting s = filter_map (join_row s) s.batches

-- A claim of a worker that is in the table returns nothing only if no queued batch may go to it.
pub claim_next_batch-none :
    (s : Store) (w : String) (x : Worker)
    → find_worker s w ≡ some x
    → is_disabled x ≡ false
    → chosen_row s w ≡ none
    → All (λ q. may_take w q ≡ false) (waiting s)
unfolding chosen_row queued_rows
claim_next_batch-none s w x e on h =
    All-sort_by_inv age (λ q. may_take w q ≡ false) (waiting s)
      (choose-none w (queued_rows s) (ground arith))

abbrev passes : (e p f b : Bool) → Bool
passes e p f b = if not e && not p then false else not (e && not f && not b)

tests-to :
    (e p f b : Bool) {P B : Type 0}
    → ((p ≡ true) → P)
    → ((b ≡ true) → B)
    → passes e p f b ≡ true
    → ((e ≡ false) × P) ⊎ ((e ≡ true) × ((f ≡ true) ⊎ B))
tests-to true p true b h k x = inr (refl, inl refl)
tests-to true p false true h k x = inr (refl, inr (k refl))
tests-to true p false false h k x = cc
tests-to false true f b h k x = inl (refl, h refl)
tests-to false false f b h k x = cc

tests-from :
    (e p f b : Bool) {P B : Type 0}
    → (P → p ≡ true)
    → (B → b ≡ true)
    → ((e ≡ false) × P) ⊎ ((e ≡ true) × ((f ≡ true) ⊎ B))
    → passes e p f b ≡ true
tests-from e p f b h k (inl (n, x)) = let y = h x in ground arith
tests-from e p f b h k (inr (n, inl x)) = ground arith
tests-from e p f b h k (inr (n, inr x)) = let y = k x in ground arith

-- A batch may go to a worker exactly where it prefers that worker, or prefers none and its run is
-- bound to that worker or to none.
pub may_take_iff :
    (w : String) (r : Queued)
    → (may_take w r ≡ true) ↔ (
        ((is_empty (strip (or_empty r.batch.preferred_worker_id)) ≡ false)
          × (strip (or_empty r.batch.preferred_worker_id) ≡ w))
        ⊎ ((is_empty (strip (or_empty r.batch.preferred_worker_id)) ≡ true)
            × ((is_empty (strip (or_empty r.run.bound_worker_id)) ≡ true)
                ⊎ (strip (or_empty r.run.bound_worker_id) ≡ w))))
unfolding may_take
may_take_iff w r =
    let preferred = strip (or_empty r.batch.preferred_worker_id) in
    let bound = strip (or_empty r.run.bound_worker_id) in
    (
      tests-to (is_empty preferred) (preferred == w) (is_empty bound) (bound == w)
          (eq_iff preferred w).0 (eq_iff bound w).0,
      tests-from (is_empty preferred) (preferred == w) (is_empty bound) (bound == w)
          (eq_iff preferred w).1 (eq_iff bound w).1,
    )
