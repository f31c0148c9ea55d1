-- ===== src/Controller/AssetSyncer/Ends.antt =====
-- The threads of a sync job end (controller/asset_syncer.py).
use agent_eval_orchestrator.Prelude.{
  ℕ, String, ◌≡◌, ◌≤◌, ◌-◌, refl, ap, ◌∙◌, true, inl, inr, Bool-cases, Option, none, some, List, [],
  ◌∷◌, arith, All, count, ◌==◌, eq_iff, if◌then◌else◌,
}
use agent_eval_orchestrator.Storage.Schema.{Store, Result, ok, err}
use agent_eval_orchestrator.Storage.Templates.{update_task_template_executor_config}
use agent_eval_orchestrator.Controller.AssetSyncer.Threads.{
  Plan, Pc, entry, syncing_cases, cases_synced, syncing_assets, assets_synced, configuring,
  promoting, failing, marking, reporting, ended_well, ended_badly, Sync, set_pc, configured, copied,
  advance, thread_step, raised_text, spawn, is_listed, Reach, start, later, thread,
}
use agent_eval_orchestrator.Controller.AssetSyncer.Blame.{if_lem}
use agent_eval_orchestrator.Controller.AssetSyncer.JobEnd.{
  has_ended, AllEnded, IsJoined, Reach-IsJoined,
}

-- How many steps a thread has left at most.
abbrev rank : Pc → ℕ
rank entry = 9
rank syncing_cases = 8
rank cases_synced = 7
rank syncing_assets = 6
rank assets_synced = 5
rank configuring = 4
rank (failing text) = 3
rank (marking text) = 2
rank (reporting text) = 1
rank promoting = 1
rank ended_well = 0
rank ended_badly = 0

rank_le : (p : Pc) → rank p ≤ 9
rank_le entry = omega arith
rank_le syncing_cases = omega arith
rank_le cases_synced = omega arith
rank_le syncing_assets = omega arith
rank_le assets_synced = omega arith
rank_le configuring = omega arith
rank_le (failing text) = omega arith
rank_le (marking text) = omega arith
rank_le (reporting text) = omega arith
rank_le promoting = omega arith
rank_le ended_well = omega arith
rank_le ended_badly = omega arith

ended_of_rank : (p : Pc) → rank p ≤ 0 → has_ended p ≡ true
ended_of_rank entry h = absurd (omega (arith, h))
ended_of_rank syncing_cases h = absurd (omega (arith, h))
ended_of_rank cases_synced h = absurd (omega (arith, h))
ended_of_rank syncing_assets h = absurd (omega (arith, h))
ended_of_rank assets_synced h = absurd (omega (arith, h))
ended_of_rank configuring h = absurd (omega (arith, h))
ended_of_rank (failing text) h = absurd (omega (arith, h))
ended_of_rank (marking text) h = absurd (omega (arith, h))
ended_of_rank (reporting text) h = absurd (omega (arith, h))
ended_of_rank promoting h = absurd (omega (arith, h))
ended_of_rank ended_well h = refl
ended_of_rank ended_badly h = refl

module _ (plan : Plan) (now : ℕ) (v : String) (raised : Option String) (st : Sync) where
  -- A step of the thread of `v`, seen from the thread of `w`.
  abbrev Lower : String → Sync → Type 0
  Lower w st' = rank (st'.pc w) ≤ rank (st.pc w) - (if w == v then 1 else 0)

  goto-Lower :
      (w : String) (p p' : Pc)
      → st.pc v ≡ p
      → rank p' ≤ rank p - 1
      → rank (set_pc st.pc v p' w) ≤ rank (st.pc w) - (if w == v then 1 else 0)
  goto-Lower w p p' at h = elim (Bool-cases (w == v)) [
    | inr e ↦ rw e (omega arith)
    | inl e ↦
        let here : rank (st.pc w) ≡ rank p = ap rank (ap st.pc ((eq_iff w v).0 e) ∙ at) in
        rw e (omega (arith, h, here))
  ]

  copied-Lower :
      (w : String) (p next : Pc) (o : Option String)
      → st.pc v ≡ p
      → rank next ≤ rank p - 1
      → 3 ≤ rank p - 1
      → Lower w (copied plan now st v next o)
  copied-Lower w p next none at h k = goto-Lower w p next at h
  copied-Lower w p next (some text) at h k = goto-Lower w p (failing text) at k

  configured-Lower :
      (w : String) (r : Result Store) → st.pc v ≡ configuring → Lower w (configured plan now st v r)
  configured-Lower w (ok s) at = goto-Lower w configuring promoting at (omega arith)
  configured-Lower w (err e) at =
      goto-Lower w configuring (failing (raised_text e)) at (omega arith)

  stays-Lower : (w : String) (p : Pc) → st.pc v ≡ p → rank p ≡ 0 → Lower w st
  stays-Lower w p at z = elim (Bool-cases (w == v)) [
    | inr e ↦ rw e (omega arith)
    | inl e ↦
        let here : rank (st.pc w) ≡ rank p = ap rank (ap st.pc ((eq_iff w v).0 e) ∙ at) in
        rw e (omega (arith, z, here))
  ]

  advance-Lower : (w : String) (p : Pc) → st.pc v ≡ p → Lower w (advance plan now v raised st p)
  unfolding advance
  advance-Lower w entry at = goto-Lower w entry syncing_cases at (omega arith)
  advance-Lower w syncing_cases at =
      copied-Lower w syncing_cases cases_synced raised at (omega arith) (omega arith)
  advance-Lower w cases_synced at =
      if_lem (Lower w) plan.include_assets _ _
        (goto-Lower w cases_synced syncing_assets at (omega arith))
        (goto-Lower w cases_synced configuring at (omega arith))
  advance-Lower w syncing_assets at =
      copied-Lower w syncing_assets assets_synced raised at (omega arith) (omega arith)
  advance-Lower w assets_synced at = goto-Lower w assets_synced configuring at (omega arith)
  advance-Lower w configuring at =
      configured-Lower w
        (update_task_template_executor_config st.store plan.template_id (plan.patch v) [] now) at
  advance-Lower w promoting at = goto-Lower w promoting ended_well at (omega arith)
  advance-Lower w (failing text) at = goto-Lower w (failing text) (marking text) at (omega arith)
  advance-Lower w (marking text) at = goto-Lower w (marking text) (reporting text) at (omega arith)
  advance-Lower w (reporting text) at = goto-Lower w (reporting text) ended_badly at (omega arith)
  advance-Lower w ended_well at = stays-Lower w ended_well at refl
  advance-Lower w ended_badly at = stays-Lower w ended_badly at refl

-- A turn: the worker whose thread gets it, the time, and what a copy raises then.
abbrev pub ThreadTurn : Type 0
ThreadTurn = String × ℕ × Option String

-- The threads' turns one after the other.
unfoldable pub take_turns : Plan → List ThreadTurn → Sync → Sync
unfolding thread_step
take_turns plan [] st = st
take_turns plan ((v, now, raised) ∷ turns) st =
    take_turns plan turns (thread_step plan now v raised st)

abbrev pub turns_of : String → List ThreadTurn → ℕ
turns_of w = count (λ (t : ThreadTurn). w == t.0)

turns-Lower :
    (plan : Plan) (turns : List ThreadTurn) (st : Sync) (w : String)
    → rank ((take_turns plan turns st).pc w) ≤ rank (st.pc w) - turns_of w turns
unfolding take_turns thread_step
turns-Lower plan [] st w = omega arith
turns-Lower plan ((v, now, raised) ∷ turns) st w =
    let here = advance-Lower plan now v raised st w (st.pc v) refl in
    let rest = turns-Lower plan turns (advance plan now v raised st (st.pc v)) w in
    elim (Bool-cases (w == v)) [
      | inl e ↦ ground (arith, e, here, rest)
      | inr e ↦ ground (arith, e, here, rest)
    ]

take_turns-has_ended :
    (plan : Plan) (turns : List ThreadTurn) (st : Sync) (w : String)
    → 9 ≤ turns_of w turns
    → has_ended ((take_turns plan turns st).pc w) ≡ true
take_turns-has_ended plan turns st w h =
    ended_of_rank ((take_turns plan turns st).pc w)
      (omega (arith, h, turns-Lower plan turns st w, rank_le (st.pc w)))

take_turns-Reach :
    (plan : Plan) (turns : List ThreadTurn) (s : Store) (st : Sync)
    → All (λ (t : ThreadTurn). is_listed plan t.0 ≡ true) turns
    → Reach plan s st
    → Reach plan s (take_turns plan turns st)
unfolding take_turns
take_turns-Reach plan [] s st listed reach = reach
take_turns-Reach plan ((v, now, raised) ∷ turns) s st listed reach =
    take_turns-Reach plan turns s (thread_step plan now v raised st) listed.1
      (later reach (thread v now raised listed.0))

-- The threads of a sync job reach their end in every order of turns in which each listed worker's
-- thread gets nine, whatever the copies raise. Then the steps are those of the listed workers in
-- their order, each shown as failed where its thread ended in its except clause and as succeeded
-- where not; no batch of a listed worker waits for its sync; where no thread reported an error every
-- listed thread ended well, and otherwise one ended in its except clause.
pub take_turns-IsJoined :
    (plan : Plan) (s : Store) (turns : List ThreadTurn)
    → All (λ (t : ThreadTurn). is_listed plan t.0 ≡ true) turns
    → ((w : String) → is_listed plan w ≡ true → 9 ≤ turns_of w turns)
    → AllEnded plan (take_turns plan turns (spawn plan s))
      × IsJoined plan (take_turns plan turns (spawn plan s))
take_turns-IsJoined plan s turns listed enough =
    let ended : AllEnded plan (take_turns plan turns (spawn plan s)) =
      λ w h. take_turns-has_ended plan turns (spawn plan s) w (enough w h) in
    let reach = take_turns-Reach plan turns s (spawn plan s) listed start in
    (ended, Reach-IsJoined plan s (take_turns plan turns (spawn plan s)) reach ended)
