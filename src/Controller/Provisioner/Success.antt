-- ===== src/Controller/Provisioner/Success.antt =====
-- A provisioning job in which nothing was raised (controller/provisioner.py).
use agent_eval_orchestrator.Prelude.{
  ℕ, String, ◌≡◌, refl, sym, subst, ◌⊎◌, inl, inr, Bool, true, false, not, none, List, [], ◌∷◌,
  ◌++◌, All, filter, ◌==◌, if◌then◌else◌,
}
use agent_eval_orchestrator.Controller.StepRunner.{State, Act, Item, run}
use agent_eval_orchestrator.Controller.StepRunner.Progress.{
  IsSucceeded, runs, run_items-IsSucceeded,
}
use agent_eval_orchestrator.Controller.Provisioner.{
  step_label, fresh_step_ids, join_step_ids, initial_steps_for_mode, provision_items,
  save_provision_step,
}
use agent_eval_orchestrator.Controller.Provisioner.Outcome.{provision_run}

abbrev ids_for : Bool → String → List String
ids_for fresh connection_mode =
    let ids = if fresh then fresh_step_ids else join_step_ids in
    if connection_mode == "direct" then filter (λ id. not (id == "establish_tunnel")) ids else ids

abbrev items_for : Bool → String → List Item
items_for fresh connection_mode =
    run "validate_ssh"
    ∷ ((if fresh then run "bootstrap" ∷ [] else [])
        ++ run "verify_layout"
          ∷ ((if connection_mode == "tunnel" then run "establish_tunnel" ∷ [] else [])
              ++ run "start_daemon" ∷ run "wait_register" ∷ []))

listed-direct :
    (fresh : Bool) → All (λ id. runs id (items_for fresh "direct") ≡ true) (ids_for fresh "direct")
listed-direct true = (refl, (refl, (refl, (refl, (refl, tt)))))
listed-direct false = (refl, (refl, (refl, (refl, tt))))

listed-tunnel :
    (fresh : Bool) → All (λ id. runs id (items_for fresh "tunnel") ≡ true) (ids_for fresh "tunnel")
listed-tunnel true = (refl, (refl, (refl, (refl, (refl, (refl, tt))))))
listed-tunnel false = (refl, (refl, (refl, (refl, (refl, tt)))))

listed :
    (mode connection_mode : String)
    → ((connection_mode ≡ "direct") ⊎ (connection_mode ≡ "tunnel"))
    → All
        (λ id. runs id (provision_items mode connection_mode) ≡ true)
        (ids_for (mode == "fresh") connection_mode)
unfolding provision_items
listed mode connection_mode (inl e) =
    subst
      (λ c.
        All (λ id. runs id (items_for (mode == "fresh") c) ≡ true) (ids_for (mode == "fresh") c))
      (sym e) (listed-direct (mode == "fresh"))
listed mode connection_mode (inr e) =
    subst
      (λ c.
        All (λ id. runs id (items_for (mode == "fresh") c) ≡ true) (ids_for (mode == "fresh") c))
      (sym e) (listed-tunnel (mode == "fresh"))

-- In the two connection modes, a job in which nothing was raised has run every step that it
-- listed: all of them are shown as succeeded.
pub provision_run-IsSucceeded :
    (act : Act) (job_id mode connection_mode : String) (now : ℕ) (st : State)
    → ((connection_mode ≡ "direct") ⊎ (connection_mode ≡ "tunnel"))
    → (provision_run act job_id mode connection_mode now st).raised ≡ none
    → All IsSucceeded (provision_run act job_id mode connection_mode now st).steps
unfolding initial_steps_for_mode
provision_run-IsSucceeded act job_id mode connection_mode now st known ok =
    run_items-IsSucceeded (save_provision_step job_id now) act job_id "provision job cancelled"
      step_label (ids_for (mode == "fresh") connection_mode) (provision_items mode connection_mode)
      _ (listed mode connection_mode known) ok
