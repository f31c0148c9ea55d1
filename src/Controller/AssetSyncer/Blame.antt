-- ===== src/Controller/AssetSyncer/Blame.antt =====
-- The errors of a sync job name the threads that failed (controller/asset_syncer.py).
use agent_eval_orchestrator.Prelude.{
  ℕ, String, ◌<>◌, ◌≡◌, refl, ap, ◌∙◌, Bool, true, false, inl, inr, Option, none, some, List, [],
  ◌∷◌, ◌++◌, arith, Bool-cases, ◌==◌, eq_iff, eq_refl, if◌then◌else◌,
}
use agent_eval_orchestrator.Storage.Schema.{Store, WorkerSteps, Result, ok, err}
use agent_eval_orchestrator.Storage.Templates.{update_task_template_executor_config}
use agent_eval_orchestrator.Controller.AssetSyncer.Threads.{
  Plan, Pc, entry, syncing_cases, cases_synced, syncing_assets, assets_synced, configuring,
  promoting, failing, marking, reporting, ended_well, ended_badly, Sync, set_pc, configured, copied,
  advance, is_listed, raised_text,
}

-- The thread failed; there is no error.
abbrev pub is_bad : Pc → Bool
is_bad ended_badly = true
is_bad _ = false

abbrev pub has_none : List String → Bool
has_none [] = true
has_none (e ∷ errors) = false

has_none-append : (es : List String) (e : String) → has_none (es ++ e ∷ []) ≡ false
has_none-append [] e = refl
has_none-append (x ∷ es) e = refl

pub if_lem : (P : Sync → Type 0) (b : Bool) (x y : Sync) → P x → P y → P (if b then x else y)
if_lem P true x y p q = p
if_lem P false x y p q = q

-- The errors and the threads after a step.
pub record IsBlamed (plan : Plan) (st : Sync) : Type 0 where
  pub reported : (w : String) → is_bad (st.pc w) ≡ true → has_none st.errors ≡ false
  pub blamed :
      has_none st.errors ≡ false
      → (w : String) × (is_listed plan w ≡ true) × (is_bad (st.pc w) ≡ true)

module _ (plan : Plan) (now : ℕ) (w : String) (raised : Option String) (st : Sync) where
  -- The thread moves from one place to another, neither its end in the except clause.
  IsBlamed-goto :
      (p p' : Pc) (s : Store) (steps : List WorkerSteps)
      → st.pc w ≡ p
      → is_bad p ≡ false
      → is_bad p' ≡ false
      → IsBlamed plan st
      → IsBlamed plan
          (record { store = s; steps = steps; errors = st.errors; pc = set_pc st.pc w p' })
  IsBlamed-goto p p' s steps at b b' h = record {
    reported = λ v q. elim (Bool-cases (v == w)) [
      | inl e ↦ absurd (ground (arith, e, b'))
      | inr e ↦ h.reported v (ground (arith, e))
    ];
    blamed = λ q.
        let (v, listed, bad) = h.blamed q in
        elim (Bool-cases (v == w)) [
          | inl e ↦
              let same : st.pc v ≡ p = ap st.pc ((eq_iff v w).0 e) ∙ at in
              absurd (ground (arith, same, bad, b))
          | inr e ↦ (v, listed, rw e bad)
        ];
  }

  copied-IsBlamed :
      (p next : Pc) (o : Option String)
      → st.pc w ≡ p
      → is_bad p ≡ false
      → is_bad next ≡ false
      → IsBlamed plan st
      → IsBlamed plan (copied plan now st w next o)
  copied-IsBlamed p next none at b b' h = IsBlamed-goto p next st.store st.steps at b b' h
  copied-IsBlamed p next (some text) at b b' h =
      IsBlamed-goto p (failing text) st.store st.steps at b refl h

  configured-IsBlamed :
      (r : Result Store)
      → st.pc w ≡ configuring
      → IsBlamed plan st
      → IsBlamed plan (configured plan now st w r)
  configured-IsBlamed (ok s) at h = IsBlamed-goto configuring promoting s st.steps at refl refl h
  configured-IsBlamed (err e) at h =
      IsBlamed-goto configuring (failing (raised_text e)) st.store st.steps at refl refl h

  IsBlamed-report :
      (text : String)
      → is_listed plan w ≡ true
      → IsBlamed plan (record st {
        errors = st.errors ++ (w <> ": " <> text) ∷ [];
        pc = set_pc st.pc w ended_badly;
      })
  IsBlamed-report text listed = record {
    reported = λ v q. has_none-append st.errors (w <> ": " <> text);
    blamed = λ q. (w, listed, rw (eq_refl w) refl);
  }

  pub advance-IsBlamed :
      (p : Pc)
      → is_listed plan w ≡ true
      → st.pc w ≡ p
      → IsBlamed plan st
      → IsBlamed plan (advance plan now w raised st p)
  unfolding advance
  advance-IsBlamed entry listed at h = IsBlamed-goto entry syncing_cases _ _ at refl refl h
  advance-IsBlamed syncing_cases listed at h =
      copied-IsBlamed syncing_cases cases_synced raised at refl refl h
  advance-IsBlamed cases_synced listed at h =
      if_lem (IsBlamed plan) plan.include_assets _ _
        (IsBlamed-goto cases_synced syncing_assets _ _ at refl refl h)
        (IsBlamed-goto cases_synced configuring _ _ at refl refl h)
  advance-IsBlamed syncing_assets listed at h =
      copied-IsBlamed syncing_assets assets_synced raised at refl refl h
  advance-IsBlamed assets_synced listed at h =
      IsBlamed-goto assets_synced configuring _ _ at refl refl h
  advance-IsBlamed configuring listed at h =
      configured-IsBlamed
        (update_task_template_executor_config st.store plan.template_id (plan.patch w) [] now) at h
  advance-IsBlamed promoting listed at h = IsBlamed-goto promoting ended_well _ _ at refl refl h
  advance-IsBlamed (failing text) listed at h =
      IsBlamed-goto (failing text) (marking text) _ _ at refl refl h
  advance-IsBlamed (marking text) listed at h =
      IsBlamed-goto (marking text) (reporting text) _ _ at refl refl h
  advance-IsBlamed (reporting text) listed at h = IsBlamed-report text listed
  advance-IsBlamed ended_well listed at h = h
  advance-IsBlamed ended_badly listed at h = h
