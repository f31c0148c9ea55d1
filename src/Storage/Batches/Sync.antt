-- ===== src/Storage/Batches/Sync.antt =====
-- The two outcomes of a worker's asset sync for its waiting batches (storage/store.py).
use agent_eval_orchestrator.Prelude.{
  String, ◌≡◌, ◌≤◌, refl, ap, inl, inr, true, false, List, [], ◌∷◌, arith, count, Option-cases,
  ◌==◌, eq_iff,
}
use agent_eval_orchestrator.Table
use agent_eval_orchestrator.Storage.Schema.{Batch, Store}
use agent_eval_orchestrator.Storage.Batches.{
  awaits_sync, set_sync_status, promote_worker_batches_to_queued, mark_worker_batches_sync_failed,
}

abbrev set_status : String → Batch → Batch
set_status status b = record b { status = status }

settled :
    (run_id w status : String) (b : Batch)
    → (status == "pending_sync") ≡ false
    → awaits_sync run_id w (set_status status b) ≡ false
unfolding awaits_sync
settled run_id w status b ne = ground arith

none_waits :
    (s : Store) (run_id w status : String)
    → (status == "pending_sync") ≡ false
    → count (awaits_sync run_id w) (set_sync_status s run_id w status).0.batches ≡ 0
unfolding set_sync_status
none_waits s run_id w status ne =
    Table.count-update_where_self (awaits_sync run_id w) (set_status status) s.batches
      (λ b h. settled run_id w status b ne)

-- Neither outcome leaves a worker with more batches that wait, or its own worker with any.
pub promote-none :
    (s : Store) (run_id w : String)
    → count (awaits_sync run_id w) (promote_worker_batches_to_queued s run_id w).0.batches ≡ 0
unfolding promote_worker_batches_to_queued
promote-none s run_id w = none_waits s run_id w "queued" refl

pub mark-none :
    (s : Store) (run_id w : String)
    → count (awaits_sync run_id w) (mark_worker_batches_sync_failed s run_id w).0.batches ≡ 0
unfolding mark_worker_batches_sync_failed
mark-none s run_id w = none_waits s run_id w "sync_failed" refl

set-le :
    (s : Store) (run_id w v status : String)
    → (status == "pending_sync") ≡ false
    → count (awaits_sync run_id v) (set_sync_status s run_id w status).0.batches
      ≤ count (awaits_sync run_id v) s.batches
unfolding set_sync_status
set-le s run_id w v status ne =
    Table.count-update_where-le (awaits_sync run_id w) (awaits_sync run_id v) (set_status status)
      s.batches (λ b. settled run_id v status b ne)

pub promote-le :
    (s : Store) (run_id w v : String)
    → count (awaits_sync run_id v) (promote_worker_batches_to_queued s run_id w).0.batches
      ≤ count (awaits_sync run_id v) s.batches
unfolding promote_worker_batches_to_queued
promote-le s run_id w v = set-le s run_id w v "queued" refl

pub mark-le :
    (s : Store) (run_id w v : String)
    → count (awaits_sync run_id v) (mark_worker_batches_sync_failed s run_id w).0.batches
      ≤ count (awaits_sync run_id v) s.batches
unfolding mark_worker_batches_sync_failed
mark-le s run_id w v = set-le s run_id w v "sync_failed" refl

again :
    (s : Store) (run_id w status : String)
    → count (awaits_sync run_id w) s.batches ≡ 0
    → set_sync_status s run_id w status ≡ (s, 0)
unfolding set_sync_status
again s run_id w status h =
    ground (arith, Table.update_where_none (awaits_sync run_id w) (set_status status) s.batches h)

-- After a worker's batches are promoted none of them waits, and a later failure of that sync
-- changes nothing: the first outcome stands.
pub mark_sync_failed-promote :
    (s : Store) (run_id w : String)
    → mark_worker_batches_sync_failed (promote_worker_batches_to_queued s run_id w).0 run_id w
      ≡ ((promote_worker_batches_to_queued s run_id w).0, 0)
unfolding mark_worker_batches_sync_failed promote_worker_batches_to_queued
mark_sync_failed-promote s run_id w =
    again (set_sync_status s run_id w "queued").0 run_id w "sync_failed"
      (none_waits s run_id w "queued" refl)

other_worker :
    (run_id v w : String) (b : Batch)
    → (v == w) ≡ false
    → awaits_sync run_id v b ≡ true
    → awaits_sync run_id w b ≡ false
unfolding awaits_sync
other_worker run_id v w b ne h = elim (Option-cases b.preferred_worker_id) [
  | inl e ↦ ground arith
  | inr (p, e) ↦ ground (arith, eq_iff p v, eq_iff p w, eq_iff v w)
]

-- One round of the loop for a batch of one worker does not depend on the other's.
awaits-apart :
    (run_id v w status : String) (b : Batch)
    → (v == w) ≡ false
    → awaits_sync run_id v b ≡ true
    → awaits_sync run_id w (set_status status b) ≡ false
unfolding awaits_sync
awaits-apart run_id v w status b ne h = elim (Option-cases b.preferred_worker_id) [
  | inl e ↦ ground arith
  | inr (p, e) ↦ ground (arith, eq_iff p v, eq_iff p w, eq_iff v w)
]

update_apart :
    (run_id v w x y : String) (bs : List Batch)
    → (v == w) ≡ false
    → (w == v) ≡ false
    → Table.update_where
        (awaits_sync run_id v)
        (set_status x)
        (Table.update_where (awaits_sync run_id w) (set_status y) bs)
      ≡ Table.update_where
          (awaits_sync run_id w)
          (set_status y)
          (Table.update_where (awaits_sync run_id v) (set_status x) bs)
update_apart run_id v w x y [] vw wv = refl
update_apart run_id v w x y (b ∷ bs) vw wv = ground (
  arith,
  other_worker run_id v w b vw,
  awaits-apart run_id v w x b vw,
  awaits-apart run_id w v y b wv,
  update_apart run_id v w x y bs vw wv,
)

-- The syncs of two workers may end in either order: one promotes, the other fails, and the state
-- is the same.
pub promote-mark_comm :
    (s : Store) (run_id v w : String)
    → (v == w) ≡ false
    → (promote_worker_batches_to_queued (mark_worker_batches_sync_failed s run_id w).0 run_id v).0
      ≡ (mark_worker_batches_sync_failed (promote_worker_batches_to_queued s run_id v).0 run_id w).0
unfolding mark_worker_batches_sync_failed promote_worker_batches_to_queued set_sync_status
promote-mark_comm s run_id v w ne =
    ap (λ (l : List Batch). record s { batches = l })
      (update_apart run_id v w "queued" "sync_failed" s.batches ne
        (ground (arith, eq_iff v w, eq_iff w v)))
