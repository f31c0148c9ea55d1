-- ===== src/Controller/AssetSyncer/Soundness.antt =====
-- What holds however the threads of a sync job are interleaved (controller/asset_syncer.py).
use agent_eval_orchestrator.Prelude.{
  ℕ, String, ◌≡◌, ◌≤◌, ◌⊎◌, refl, sym, subst, ap, ◌∙◌, Bool, true, false, inl, inr, Option, none,
  some, List, [], arith, count, Bool-cases, Option-cases, ◌==◌, eq_iff,
}
use agent_eval_orchestrator.Storage.Schema.{Store, Batch, WorkerSteps, Result, ok, err}
use agent_eval_orchestrator.Storage.Templates.{
  get_task_template, update_task_template_executor_config,
}
use agent_eval_orchestrator.Storage.Batches.{awaits_sync}
use agent_eval_orchestrator.Storage.Batches.Sync.{promote-none, mark-none, promote-le, mark-le}
use agent_eval_orchestrator.Storage.Jobs.{get_asset_sync_job}
use agent_eval_orchestrator.Controller.AssetSyncer.Threads.{
  Plan, Pc, entry, syncing_cases, cases_synced, syncing_assets, assets_synced, configuring,
  promoting, failing, marking, reporting, ended_well, ended_badly, Sync, set_pc, write_steps,
  configured, copied, advance, thread_step, spawn, IsQuiet, Turn, thread, others, Reach, start,
  later, raised_text,
}
use agent_eval_orchestrator.Controller.AssetSyncer.Steps.{initial-Shows}
use agent_eval_orchestrator.Controller.AssetSyncer.Shown.{IsShown, advance-IsShown}
use agent_eval_orchestrator.Controller.AssetSyncer.Blame.{IsBlamed, advance-IsBlamed, if_lem}
use agent_eval_orchestrator.Controller.AssetSyncer.Entries.{
  entry_workers, entry_workers-initial, advance-workers,
}

-- The worker's batches had their outcome.
abbrev pub is_settled : Pc → Bool
is_settled (reporting text) = true
is_settled ended_well = true
is_settled ended_badly = true
is_settled _ = false

batches-write_steps :
    (plan : Plan) (now : ℕ) (current : Option String) (steps : List WorkerSteps) (s : Store)
    → (write_steps plan now current steps s).batches ≡ s.batches
unfolding write_steps
batches-write_steps plan now current steps s =
    elim (Option-cases (get_asset_sync_job s plan.job_id)) [
      | inl e ↦ rw (e, write_steps) refl
      | inr (j, e) ↦ rw (e, write_steps) refl
    ]

batches-update_config :
    (s s' : Store) (plan : Plan) (w : String) (now : ℕ)
    → update_task_template_executor_config s plan.template_id (plan.patch w) [] now ≡ ok s'
    → s'.batches ≡ s.batches
unfolding update_task_template_executor_config
batches-update_config s s' plan w now h =
    elim (Option-cases (get_task_template s plan.template_id)) [
      | inl e ↦ ground arith
      | inr (t, e) ↦ ground arith
    ]

-- The batches after a step of a thread, from their count.
module _ (plan : Plan) (now : ℕ) (w : String) (raised : Option String) (st : Sync) where
  same_batches :
      {bs : List Batch}
      → bs ≡ st.store.batches
      → (v : String)
      → count (awaits_sync plan.run_id v) bs ≤ count (awaits_sync plan.run_id v) st.store.batches
  same_batches e v = rw e (omega arith)

  configured-IsQuiet :
      (r : Result Store)
      → update_task_template_executor_config st.store plan.template_id (plan.patch w) [] now ≡ r
      → IsQuiet plan.run_id st.store (configured plan now st w r).store
  configured-IsQuiet (ok s) e = same_batches (batches-update_config st.store s plan w now e)
  configured-IsQuiet (err x) e = same_batches refl

  copied-store : (next : Pc) (o : Option String) → (copied plan now st w next o).store ≡ st.store
  copied-store next none = refl
  copied-store next (some text) = refl

  pub advance-IsQuiet :
      (p : Pc) → IsQuiet plan.run_id st.store (advance plan now w raised st p).store
  unfolding advance
  advance-IsQuiet entry = same_batches (batches-write_steps plan now _ _ st.store)
  advance-IsQuiet syncing_cases =
      same_batches (ap (λ (s : Store). s.batches) (copied-store cases_synced raised))
  advance-IsQuiet cases_synced = elim (Bool-cases plan.include_assets) [
    | inl e ↦ same_batches (rw e (batches-write_steps plan now _ _ st.store))
    | inr e ↦ same_batches (rw e refl)
  ]
  advance-IsQuiet syncing_assets =
      same_batches (ap (λ (s : Store). s.batches) (copied-store assets_synced raised))
  advance-IsQuiet assets_synced = same_batches (batches-write_steps plan now _ _ st.store)
  advance-IsQuiet configuring =
      configured-IsQuiet
        (update_task_template_executor_config st.store plan.template_id (plan.patch w) [] now) refl
  advance-IsQuiet promoting = promote-le st.store plan.run_id w
  advance-IsQuiet (failing text) = same_batches (batches-write_steps plan now _ _ st.store)
  advance-IsQuiet (marking text) = mark-le st.store plan.run_id w
  advance-IsQuiet (reporting text) = same_batches refl
  advance-IsQuiet ended_well = same_batches refl
  advance-IsQuiet ended_badly = same_batches refl

-- Where a thread has had its outcome, none of its worker's batches waits.
abbrev pub IsSettled : Plan → Sync → Type 0
IsSettled plan st =
    (w : String)
    → is_settled (st.pc w) ≡ true
    → count (awaits_sync plan.run_id w) st.store.batches ≡ 0

module _ (plan : Plan) (now : ℕ) (w : String) (raised : Option String) (st : Sync) where
  IsSettled-goto :
      (p p' : Pc) (bs : List Batch)
      → st.pc w ≡ p
      → ((is_settled p' ≡ true)
          → (is_settled p ≡ true) ⊎ (count (awaits_sync plan.run_id w) bs ≡ 0))
      → ((v : String)
          → count (awaits_sync plan.run_id v) bs
            ≤ count (awaits_sync plan.run_id v) st.store.batches)
      → IsSettled plan st
      → (v : String) → is_settled (set_pc st.pc w p' v) ≡ true
      → count (awaits_sync plan.run_id v) bs ≡ 0
  IsSettled-goto p p' bs at now_settled quiet h v q = elim (Bool-cases (v == w)) [
    | inr e ↦ let old = h v (ground (arith, e)) in omega (arith, old, quiet v)
    | inl e ↦
        let same = (eq_iff v w).0 e in
        elim (now_settled (ground (arith, e))) [
          | inr zero_now ↦ subst (λ x. count (awaits_sync plan.run_id x) bs ≡ 0) (sym same) zero_now
          | inl was ↦
              let old = h v (ap is_settled (ap st.pc same ∙ at) ∙ was) in
              omega (arith, old, quiet v)
        ]
  ]

  -- To a place where the outcome is not reached.
  IsSettled-on :
      (p p' : Pc) (bs : List Batch)
      → st.pc w ≡ p
      → is_settled p' ≡ false
      → ((v : String)
          → count (awaits_sync plan.run_id v) bs
            ≤ count (awaits_sync plan.run_id v) st.store.batches)
      → IsSettled plan st
      → (v : String) → is_settled (set_pc st.pc w p' v) ≡ true
      → count (awaits_sync plan.run_id v) bs ≡ 0
  IsSettled-on p p' bs at out = IsSettled-goto p p' bs at (λ q. absurd (ground (arith, q, out)))

  copied-IsSettled :
      (p next : Pc) (o : Option String)
      → st.pc w ≡ p
      → is_settled next ≡ false
      → IsSettled plan st
      → IsSettled plan (copied plan now st w next o)
  copied-IsSettled p next none at out = IsSettled-on p next _ at out (λ v. omega arith)
  copied-IsSettled p next (some text) at out =
      IsSettled-on p (failing text) _ at refl (λ v. omega arith)

  configured-IsSettled :
      (r : Result Store)
      → update_task_template_executor_config st.store plan.template_id (plan.patch w) [] now ≡ r
      → st.pc w ≡ configuring
      → IsSettled plan st
      → IsSettled plan (configured plan now st w r)
  configured-IsSettled (ok s) e at =
      IsSettled-on configuring promoting _ at refl
        (same_batches plan now w raised st (batches-update_config st.store s plan w now e))
  configured-IsSettled (err x) e at =
      IsSettled-on configuring (failing (raised_text x)) _ at refl (λ v. omega arith)

  advance-IsSettled :
      (p : Pc)
      → st.pc w ≡ p
      → IsQuiet plan.run_id st.store (advance plan now w raised st p).store
      → IsSettled plan st
      → IsSettled plan (advance plan now w raised st p)
  unfolding advance
  advance-IsSettled entry at quiet h = IsSettled-on entry syncing_cases _ at refl quiet h
  advance-IsSettled syncing_cases at quiet h =
      copied-IsSettled syncing_cases cases_synced raised at refl h
  advance-IsSettled cases_synced at quiet h =
      if_lem (IsSettled plan) plan.include_assets _ _
        (IsSettled-on cases_synced syncing_assets _ at refl
          (same_batches plan now w raised st (batches-write_steps plan now _ _ st.store)) h)
        (IsSettled-on cases_synced configuring _ at refl (λ v. omega arith) h)
  advance-IsSettled syncing_assets at quiet h =
      copied-IsSettled syncing_assets assets_synced raised at refl h
  advance-IsSettled assets_synced at quiet h =
      IsSettled-on assets_synced configuring _ at refl quiet h
  advance-IsSettled configuring at quiet h =
      configured-IsSettled
        (update_task_template_executor_config st.store plan.template_id (plan.patch w) [] now) refl
        at h
  advance-IsSettled promoting at quiet h =
      IsSettled-goto promoting ended_well _ at (λ q. inr (promote-none st.store plan.run_id w))
        quiet h
  advance-IsSettled (failing text) at quiet h =
      IsSettled-on (failing text) (marking text) _ at refl quiet h
  advance-IsSettled (marking text) at quiet h =
      IsSettled-goto (marking text) (reporting text) _ at
        (λ q. inr (mark-none st.store plan.run_id w)) quiet h
  advance-IsSettled (reporting text) at quiet h =
      IsSettled-goto (reporting text) ended_badly _ at (λ q. inl refl) quiet h
  advance-IsSettled ended_well at quiet h = h
  advance-IsSettled ended_badly at quiet h = h

-- The invariant of the job.
pub record IsSound (plan : Plan) (st : Sync) : Type 0 where
  pub shown : IsShown plan.include_assets st
  pub settled : IsSettled plan st
  pub errors : IsBlamed plan st
  pub workers : entry_workers st.steps ≡ plan.worker_ids

Turn-IsSound : (plan : Plan) {st st' : Sync} → Turn plan st st' → IsSound plan st → IsSound plan st'
unfolding thread_step
Turn-IsSound plan {st} (thread w now raised listed) h = record {
  shown = advance-IsShown plan now w raised st (st.pc w) refl h.shown;
  settled =
      advance-IsSettled plan now w raised st (st.pc w) refl
        (advance-IsQuiet plan now w raised st (st.pc w)) h.settled;
  errors = advance-IsBlamed plan now w raised st (st.pc w) listed refl h.errors;
  workers = advance-workers plan now w raised st (st.pc w) ∙ h.workers;
}
Turn-IsSound plan {st} (others s quiet) h = record {
  shown = h.shown;
  settled = λ w q. let old = h.settled w q in omega (arith, old, quiet w);
  errors = record { reported = h.errors.reported; blamed = h.errors.blamed };
  workers = h.workers;
}

spawn-IsSound : (plan : Plan) (s : Store) → IsSound plan (spawn plan s)
unfolding spawn
spawn-IsSound plan s = record {
  shown = initial-Shows plan.worker_ids plan.include_assets;
  settled = λ w q. absurd (cc q);
  errors = record { reported = λ w q. absurd (cc q); blamed = λ q. absurd (cc q) };
  workers = entry_workers-initial plan.worker_ids plan.include_assets;
}

-- In every state that the threads of a sync job and the rest of the program reach in any
-- interleaving, in which nothing gives a worker further batches of the run to wait for: each entry
-- of the steps shows where its worker's thread stands, there is one for each listed worker in their
-- order; no batch waits for a worker whose thread has set its batches to queued or to failed; a
-- thread that ended in its except clause has reported an error, and where there is an error some
-- listed thread ended so.
pub Reach-IsSound : (plan : Plan) (s : Store) (st : Sync) → Reach plan s st → IsSound plan st
Reach-IsSound plan s _ start = spawn-IsSound plan s
Reach-IsSound plan s _ (later r t) = Turn-IsSound plan t (Reach-IsSound plan s _ r)
