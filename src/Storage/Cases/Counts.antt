-- ===== src/Storage/Cases/Counts.antt =====
-- The counts of _recompute_batch_summary in storage/store.py.
use agent_eval_orchestrator.Prelude.{
  ℕ, suc, ◌+◌, String, ◌≡◌, refl, ap, ◌∙◌, Bool, true, false, not, ◌&&◌, ◌||◌, List, [], ◌∷◌, arith,
  count, ◌==◌, eq_iff, if◌then◌else◌,
}
use agent_eval_orchestrator.Text.{truthy}
use agent_eval_orchestrator.Storage.Schema.{CaseRun}
use agent_eval_orchestrator.Storage.Cases.{
  case_is_errored, case_is_failed, case_succeeded, case_is_open, recompute_batch_summary,
}

by_flags :
    (succeeded failed errored text : Bool) (a b d e : ℕ)
    → (succeeded ≡ true → failed ≡ false)
    → (succeeded ≡ true → errored ≡ false)
    → (failed ≡ true → errored ≡ false)
    → (if succeeded then suc a else a)
        + (if failed && not text then suc b else b)
        + (if (if errored then true else failed && text) then suc d else d)
        + (if not (succeeded || (failed && not text) || (if errored then true else failed && text))
            then suc e
            else e)
      ≡ suc (a + b + d + e)
by_flags succeeded failed errored text a b d e p q r = ground arith

other_status :
    (status x y : String) → (x == y) ≡ false → (status == x) ≡ true → (status == y) ≡ false
other_status status x y ne h = ground (arith, eq_iff status x, eq_iff status y, eq_iff x y)

-- A summary counts every row once: as succeeded, failed or errored, or as none of these.
pub recompute_batch_summary-total :
    (cases : List CaseRun)
    → (recompute_batch_summary cases).succeeded
        + (recompute_batch_summary cases).failed
        + (recompute_batch_summary cases).errored
        + count case_is_open cases
      ≡ (recompute_batch_summary cases).total
unfolding recompute_batch_summary
recompute_batch_summary-total [] = refl
recompute_batch_summary-total (c ∷ cases) =
    by_flags (c.status == "succeeded") (c.status == "failed") (c.status == "errored")
      (truthy c.error_text) (count case_succeeded cases) (count case_is_failed cases)
      (count case_is_errored cases) (count case_is_open cases)
      (other_status c.status "succeeded" "failed" refl)
      (other_status c.status "succeeded" "errored" refl)
      (other_status c.status "failed" "errored" refl)
    ∙ ap suc (recompute_batch_summary-total cases)
