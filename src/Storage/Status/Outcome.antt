-- ===== src/Storage/Status/Outcome.antt =====
-- What the status of a run (storage/store.py) without its rerun says of its primary batches.
use agent_eval_orchestrator.Prelude.{
  suc, ◌+◌, ◌<◌, String, ◌≡◌, ◌↔◌, refl, inl, inr, Bool, true, false, ◌||◌, ◌&&◌, List, [], ◌∷◌,
  arith, length, all, any, count, all_of_count, count_of_all, any_of_count, count_of_any, subst,
  sym, Bool-cases, ltb, nat_eq, ◌==◌, eq_iff, if◌then◌else◌,
}
use agent_eval_orchestrator.Storage.Schema.{Batch}
use agent_eval_orchestrator.Storage.Status.{
  StatusCounts, no_counts, count_status, count_statuses, sum_counts,
  overall_status_from_batch_counts, has_batches, run_status,
}

abbrev pub has_status : String → Batch → Bool
has_status status b = b.status == status

-- The statuses that the dictionary has a key for.
abbrev pub is_counted : String → Bool
is_counted s =
    s == "queued"
    || (s == "pending_sync"
        || (s == "sync_failed"
            || (s == "running" || (s == "succeeded" || (s == "failed" || s == "stopped")))))

-- The loop adds to each count the number of batches with its status.
count_statuses-counts :
    (c : StatusCounts) (bs : List Batch)
    → ((count_statuses c bs).queued ≡ c.queued + count (has_status "queued") bs)
      × ((count_statuses c bs).pending_sync ≡ c.pending_sync + count (has_status "pending_sync") bs)
      × ((count_statuses c bs).sync_failed ≡ c.sync_failed + count (has_status "sync_failed") bs)
      × ((count_statuses c bs).running ≡ c.running + count (has_status "running") bs)
      × ((count_statuses c bs).succeeded ≡ c.succeeded + count (has_status "succeeded") bs)
      × ((count_statuses c bs).failed ≡ c.failed + count (has_status "failed") bs)
unfolding count_statuses
count_statuses-counts c [] = omega arith
count_statuses-counts c (b ∷ bs) =
    let (q, p, y, r, s, f) = count_statuses-counts (count_status b.status c) bs in
    unfold count_status in
    (ground arith, ground arith, ground arith, ground arith, ground arith, ground arith)

abbrev CountsOne : String → Type 0
CountsOne s = (c : StatusCounts) → sum_counts (count_status s c) ≡ suc (sum_counts c)

either_status :
    (s status : String) (rest : Bool)
    → ((s == status) || rest) ≡ true
    → CountsOne status
    → (rest ≡ true → CountsOne s)
    → CountsOne s
either_status s status rest h this others = elim (Bool-cases (s == status)) [
  | inl e ↦ subst CountsOne (sym ((eq_iff s status).0 e)) this
  | inr e ↦ others (ground arith)
]

-- A counted status raises the sum by one.
count_status-sum : (s : String) → is_counted s ≡ true → CountsOne s
unfolding count_status
count_status-sum s h =
    either_status s "queued" _ h (λ c. omega arith)
      λ h.
        either_status s "pending_sync" _ h (λ c. omega arith)
          λ h.
            either_status s "sync_failed" _ h (λ c. omega arith)
              λ h.
                either_status s "running" _ h (λ c. omega arith)
                  λ h.
                    either_status s "succeeded" _ h (λ c. omega arith)
                      λ h.
                        either_status s "failed" _ h (λ c. omega arith)
                          λ h. subst CountsOne (sym ((eq_iff s "stopped").0 h)) (λ c. omega arith)

count_statuses-sum :
    (c : StatusCounts) (bs : List Batch)
    → all (λ b. is_counted b.status) bs ≡ true
    → sum_counts (count_statuses c bs) ≡ sum_counts c + length bs
unfolding count_statuses
count_statuses-sum c [] h = omega arith
count_statuses-sum c (b ∷ bs) h =
    let (this, rest) = and_parts (is_counted b.status) (all (λ x. is_counted x.status) bs) h in
    omega (
      arith,
      count_statuses-sum (count_status b.status c) bs rest,
      count_status-sum b.status this c,
    )
  where
    and_parts : (a b : Bool) → (a && b) ≡ true → (a ≡ true) × (b ≡ true)
    and_parts a b h = ground arith

abbrev ladder : (r p f q d h : Bool) → String
ladder r p f q d h =
    if r
    then "running"
    else if p
    then "syncing"
    else if f
    then "failed"
    else if q
    then "queued"
    else if d
    then "finished"
    else if h
    then "mixed"
    else "idle"

ladder-finished :
    (r p f q d h : Bool)
    → (ladder r p f q d h == "finished") ≡ true
    → (r ≡ false) × (p ≡ false) × (f ≡ false) × (q ≡ false) × (d ≡ true)
ladder-finished true p f q d h e = cc
ladder-finished false true f q d h e = cc
ladder-finished false false true q d h e = cc
ladder-finished false false false true d h e = cc
ladder-finished false false false false true h e = (refl, refl, refl, refl, refl)
ladder-finished false false false false false true e = cc
ladder-finished false false false false false false e = cc

ladder-running : (r p f q d h : Bool) → (ladder r p f q d h == "running") ≡ true → r ≡ true
ladder-running true p f q d h e = refl
ladder-running false true f q d h e = cc
ladder-running false false true q d h e = cc
ladder-running false false false true d h e = cc
ladder-running false false false false true h e = cc
ladder-running false false false false false true e = cc
ladder-running false false false false false false e = cc

overall-finished :
    (c : StatusCounts) (h : Bool)
    → overall_status_from_batch_counts c h ≡ "finished"
    → (c.succeeded ≡ sum_counts c) × (0 < c.succeeded)
unfolding overall_status_from_batch_counts
overall-finished c h e =
    let (r, p, f, q, d) =
      ladder-finished (ltb 0 c.running) (ltb 0 c.pending_sync)
        (ltb 0 c.failed || ltb 0 c.sync_failed) (ltb 0 c.queued)
        (ltb 0 c.succeeded && nat_eq (sum_counts c) c.succeeded) h
        ((eq_iff (overall_status_from_batch_counts c h) "finished").1 e) in
    (ground arith, ground arith)

overall_of_succeeded :
    (c : StatusCounts) (h : Bool)
    → c.succeeded ≡ sum_counts c
    → 0 < c.succeeded
    → overall_status_from_batch_counts c h ≡ "finished"
unfolding overall_status_from_batch_counts
overall_of_succeeded c h e pos = ground arith

overall-running :
    (c : StatusCounts) (h : Bool)
    → (overall_status_from_batch_counts c h ≡ "running") ↔ (0 < c.running)
unfolding overall_status_from_batch_counts
overall-running c h = (
  λ e.
      (let r : ltb 0 c.running ≡ true =
          ladder-running (ltb 0 c.running) (ltb 0 c.pending_sync)
            (ltb 0 c.failed || ltb 0 c.sync_failed) (ltb 0 c.queued)
            (ltb 0 c.succeeded && nat_eq (sum_counts c) c.succeeded) h
            ((eq_iff (overall_status_from_batch_counts c h) "running").1 e) in
        ground arith),
  λ e. ground arith,
)

-- The same without the status of a rerun.
pub run_status-finished :
    (bs : List Batch)
    → all (λ b. is_counted b.status) bs ≡ true
    → (run_status bs ≡ "finished")
      ↔ ((has_batches bs ≡ true) × (all (has_status "succeeded") bs ≡ true))
unfolding run_status
run_status-finished bs known =
    let counts = count_statuses-counts no_counts bs in
    let sum = count_statuses-sum no_counts bs known in
    let c = count_statuses no_counts bs in
    (
      λ e.
          (let (same, pos) = overall-finished c (has_batches bs) e in
            let full : count (has_status "succeeded") bs ≡ length bs = omega (arith, counts.4) in
            (nonempty bs (omega (arith, counts.4)), all_of_count (has_status "succeeded") bs full)),
      λ t.
          (let full = count_of_all (has_status "succeeded") bs t.1 in
            let some_batch = length_pos bs t.0 in
            overall_of_succeeded c (has_batches bs) (omega (arith, counts.4))
              (omega (arith, counts.4))),
    )
  where
    nonempty : (xs : List Batch) → 0 < length xs → has_batches xs ≡ true
    nonempty [] h = elim h [ ]
    nonempty (x ∷ xs) h = refl

    length_pos : (xs : List Batch) → has_batches xs ≡ true → 0 < length xs
    length_pos [] h = cc
    length_pos (x ∷ xs) h = omega arith

-- Running, without the status of a rerun.
pub run_status-running :
    (bs : List Batch) → (run_status bs ≡ "running") ↔ (any (has_status "running") bs ≡ true)
unfolding run_status
run_status-running bs =
    let counts = count_statuses-counts no_counts bs in
    let here = overall-running (count_statuses no_counts bs) (has_batches bs) in
    (
      λ e. (let pos = here.0 e in any_of_count (has_status "running") bs (omega (arith, counts.3))),
      λ e. here.1 (let pos = count_of_any (has_status "running") bs e in omega (arith, counts.3)),
    )
