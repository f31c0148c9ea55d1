-- ===== src/Storage/Status/Shown.antt =====
-- What the shown status of a run (storage/store.py) says of its rerun and its primary batches.
use agent_eval_orchestrator.Prelude.{
  String, ◌≡◌, ◌↔◌, ◌⊎◌, refl, inl, inr, Bool, true, false, ◌||◌, ◌&&◌, List, all, any, subst, sym,
  Bool-cases, ◌==◌, eq_iff, if◌then◌else◌,
}
use agent_eval_orchestrator.Storage.Schema.{Batch, Run}
use agent_eval_orchestrator.Storage.Status.{has_batches, run_status, shown_status}
use agent_eval_orchestrator.Text.{truthy}
use agent_eval_orchestrator.Storage.Runs.{rerun_status_of}
use agent_eval_orchestrator.Storage.Status.Outcome.{
  has_status, is_counted, run_status-finished, run_status-running,
}

-- The run is derived from another, and its rerun has this status.
abbrev pub is_derived_with : String → Run → Bool
is_derived_with status run = truthy run.parent_run_id && rerun_status_of run == status

overridden : (t : Bool) (rs rest : String) → String
overridden t rs rest = if t && (rs == "syncing" || rs == "running") then rs else rest

abbrev RunningIff : Bool → String → String → Type 0
RunningIff t rs rest =
    (overridden t rs rest ≡ "running")
    ↔ (((t && rs == "running") ≡ true) ⊎ (((t && rs == "syncing") ≡ false) × (rest ≡ "running")))

abbrev FinishedIff : Bool → String → String → Type 0
FinishedIff t rs rest =
    (overridden t rs rest ≡ "finished")
    ↔ (((t && rs == "running") ≡ false) × ((t && rs == "syncing") ≡ false) × (rest ≡ "finished"))

overridden-running : (t : Bool) (rs rest : String) → RunningIff t rs rest
unfolding overridden
overridden-running false rs rest =
    (λ e. inr (refl, e), λ d. elim d [ inl e ↦ absurd cc | inr q ↦ q.1 ])
overridden-running true rs rest = elim (Bool-cases (rs == "running")) [
  | inl e ↦
      subst (λ x. RunningIff true x rest) (sym ((eq_iff rs "running").0 e))
        (λ h. inl refl, λ d. refl)
  | inr e ↦ elim (Bool-cases (rs == "syncing")) [
    | inl f ↦
        subst (λ x. RunningIff true x rest) (sym ((eq_iff rs "syncing").0 f))
          (
            λ h. (let t = (eq_iff "syncing" "running").1 h in absurd cc),
            λ d. elim d [ inl q ↦ absurd cc | inr q ↦ (let z = q.0 in absurd cc) ],
          )
    | inr f ↦ rw (e, f) (λ h. inr (refl, h), λ d. elim d [ inl q ↦ absurd cc | inr q ↦ q.1 ])
  ]
]

overridden-finished : (t : Bool) (rs rest : String) → FinishedIff t rs rest
unfolding overridden
overridden-finished false rs rest = (λ e. (refl, refl, e), λ q. q.2)
overridden-finished true rs rest = elim (Bool-cases (rs == "running")) [
  | inl e ↦
      subst (λ x. FinishedIff true x rest) (sym ((eq_iff rs "running").0 e))
        (
          λ h. (let t = (eq_iff "running" "finished").1 h in absurd cc),
          λ q. (let z = q.0 in absurd cc),
        )
  | inr e ↦ elim (Bool-cases (rs == "syncing")) [
    | inl f ↦
        subst (λ x. FinishedIff true x rest) (sym ((eq_iff rs "syncing").0 f))
          (
            λ h. (let t = (eq_iff "syncing" "finished").1 h in absurd cc),
            λ q. (let z = q.1 in absurd cc),
          )
    | inr f ↦ rw (e, f) (λ h. (refl, refl, h), λ q. q.2)
  ]
]

-- Of primary batches whose statuses are all counted, a run is shown as finished exactly where it is
-- no derived run whose rerun is syncing or running, there is a batch, and every batch succeeded.
pub shown_status-finished :
    (run : Run) (bs : List Batch)
    → all (λ b. is_counted b.status) bs ≡ true
    → (shown_status run bs ≡ "finished") ↔ (
        (is_derived_with "running" run ≡ false)
        × (is_derived_with "syncing" run ≡ false)
        × (has_batches bs ≡ true)
        × (all (has_status "succeeded") bs ≡ true))
unfolding shown_status overridden
shown_status-finished run bs known =
    let this = run_status-finished bs known in
    let here =
      overridden-finished (truthy run.parent_run_id) (rerun_status_of run) (run_status bs) in
    (
      λ e. (let (r, y, f) = here.0 e in let (h, a) = this.0 f in (r, y, h, a)),
      λ (r, y, h, a). here.1 (r, y, this.1 (h, a)),
    )

-- A run is shown as running exactly where it is a derived run whose rerun is running, or is no
-- derived run whose rerun is syncing and one of its primary batches is running.
pub shown_status-running :
    (run : Run) (bs : List Batch)
    → (shown_status run bs ≡ "running") ↔ (
        (is_derived_with "running" run ≡ true)
        ⊎ ((is_derived_with "syncing" run ≡ false) × (any (has_status "running") bs ≡ true)))
unfolding shown_status overridden
shown_status-running run bs =
    let this = run_status-running bs in
    let here =
      overridden-running (truthy run.parent_run_id) (rerun_status_of run) (run_status bs) in
    (
      λ e. elim (here.0 e) [ inl r ↦ inl r | inr q ↦ inr (q.0, this.0 q.1) ],
      λ d. elim d [ inl r ↦ here.1 (inl r) | inr q ↦ here.1 (inr (q.0, this.1 q.1)) ],
    )
