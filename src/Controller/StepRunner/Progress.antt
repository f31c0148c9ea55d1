-- ===== src/Controller/StepRunner/Progress.antt =====
-- What the steps of a job say after its statements (controller/provisioner.py and
-- controller/worker_updater.py).
use agent_eval_orchestrator.Prelude.{
  String, ◌≡◌, refl, ◌⊎◌, inl, inr, Bool, true, false, ◌||◌, none, List, [], ◌∷◌, arith, All,
  Bool-cases, Option-cases, ◌==◌, eq_iff,
}
use agent_eval_orchestrator.Storage.Schema.{Step, Store}
use agent_eval_orchestrator.Controller.StepRunner.{
  set_step_status, pending_steps, State, Act, Item, run, require, run_step, run_items,
}

set_twice :
    (steps : List Step) (id : String)
    → set_step_status (set_step_status steps id "running") id "succeeded"
      ≡ set_step_status steps id "succeeded"
unfolding set_step_status
set_twice [] id = refl
set_twice (x ∷ xs) id = ground (arith, set_twice xs id, eq_iff x.id id)

-- A step that is done or waiting; none is shown as running or failed.
abbrev pub IsSettled : Step → Type 0
IsSettled s = (s.status ≡ "pending") ⊎ (s.status ≡ "succeeded")

set-IsSettled :
    (steps : List Step) (id : String)
    → All IsSettled steps
    → All IsSettled (set_step_status steps id "succeeded")
unfolding set_step_status
set-IsSettled [] id h = tt
set-IsSettled (x ∷ xs) id h = elim (Bool-cases (x.id == id)) [
  | inl e ↦ rw e (inr refl, set-IsSettled xs id h.1)
  | inr e ↦ rw e (h.0, set-IsSettled xs id h.1)
]

pub pending-IsSettled :
    (label : String → String) (ids : List String) → All IsSettled (pending_steps label ids)
unfolding pending_steps
pending-IsSettled label [] = tt
pending-IsSettled label (id ∷ ids) = (inl refl, pending-IsSettled label ids)

-- Done, or still to come among these statements.
abbrev pub runs : String → List Item → Bool
runs id [] = false
runs id (run x ∷ items) = x == id || runs id items
runs id (require ok text ∷ items) = runs id items

abbrev IsPlanned : List Item → Step → Type 0
IsPlanned items s = (s.status ≡ "succeeded") ⊎ (runs s.id items ≡ true)

abbrev pub IsSucceeded : Step → Type 0
IsSucceeded s = s.status ≡ "succeeded"

set-IsPlanned :
    (steps : List Step) (id : String) (items : List Item)
    → All (IsPlanned (run id ∷ items)) steps
    → All (IsPlanned items) (set_step_status steps id "succeeded")
unfolding set_step_status
set-IsPlanned [] id items h = tt
set-IsPlanned (x ∷ xs) id items h = elim (Bool-cases (x.id == id)) [
  | inl e ↦ rw e (inl refl, set-IsPlanned xs id items h.1)
  | inr e ↦ rw e (still e h.0, set-IsPlanned xs id items h.1)
]
  where
    still : (x.id == id) ≡ false → IsPlanned (run id ∷ items) x → IsPlanned items x
    still ne (inl d) = inl d
    still ne (inr d) = elim (Bool-cases (id == x.id)) [
      | inl q ↦ absurd (ground (arith, eq_iff id x.id, eq_iff x.id id))
      | inr q ↦ inr (ground arith)
    ]

IsPlanned-start :
    (label : String → String) (ids : List String) (items : List Item)
    → All (λ id. runs id items ≡ true) ids
    → All (IsPlanned items) (pending_steps label ids)
unfolding pending_steps
IsPlanned-start label [] items h = tt
IsPlanned-start label (id ∷ ids) items h = (inr h.0, IsPlanned-start label ids items h.1)

IsPlanned-end : (steps : List Step) → All (IsPlanned []) steps → All IsSucceeded steps
IsPlanned-end [] h = tt
IsPlanned-end (x ∷ xs) (inl d, h) = (d, IsPlanned-end xs h)
IsPlanned-end (x ∷ xs) (inr d, h) = cc

module _ (save : Store → String → List Step → Store) (act : Act)
    (job_id cancelled_text : String) where
  -- Whatever the actions do and wherever they stop: of a job whose steps were done or waiting no
  -- step is shown as running or failed at the end, the one that raised among them.
  pub run_items-IsSettled :
      (items : List Item) (steps : List Step) (st : State)
      → All IsSettled steps
      → All IsSettled (run_items save act job_id cancelled_text items steps st).steps
  unfolding run_items
  run_items-IsSettled [] steps st h = h
  run_items-IsSettled (require ok text ∷ items) steps st h = elim (Bool-cases ok) [
    | inl e ↦ rw e (run_items-IsSettled items steps st h)
    | inr e ↦ rw e h
  ]
  run_items-IsSettled (run id ∷ items) steps st h =
      let next = run_step save act job_id cancelled_text steps id st in
      elim (Option-cases next.1) [
        | inr (text, e) ↦ rw (e, run_items) h
        | inl e ↦
            rw (e, run_items)
              (run_items-IsSettled items
                (set_step_status (set_step_status steps id "running") id "succeeded") next.0
                (rw (set_twice steps id) (set-IsSettled steps id h)))
      ]

  planned_done :
      (items : List Item) (steps : List Step) (st : State)
      → (run_items save act job_id cancelled_text items steps st).raised ≡ none
      → All (IsPlanned items) steps
      → All IsSucceeded (run_items save act job_id cancelled_text items steps st).steps
  unfolding run_items
  planned_done [] steps st ok h = IsPlanned-end steps h
  planned_done (require b text ∷ items) steps st ok h = elim (Bool-cases b) [
    | inl e ↦ rw e (planned_done items steps st (rw e at ok) h)
    | inr e ↦ ground arith
  ]
  planned_done (run id ∷ items) steps st ok h =
      let next = run_step save act job_id cancelled_text steps id st in
      elim (Option-cases next.1) [
        | inr (text, e) ↦ ground arith
        | inl e ↦
            rw (e, run_items)
              (planned_done items
                (set_step_status (set_step_status steps id "running") id "succeeded") next.0
                (rw (e, run_items) at ok)
                (rw (set_twice steps id) (set-IsPlanned steps id items h)))
      ]

  -- If nothing raised, and each step of the list is among the statements, all steps succeeded.
  pub run_items-IsSucceeded :
      (label : String → String) (ids : List String) (items : List Item) (st : State)
      → All (λ id. runs id items ≡ true) ids
      → (run_items save act job_id cancelled_text items (pending_steps label ids) st).raised ≡ none
      → All IsSucceeded
          (run_items save act job_id cancelled_text items (pending_steps label ids) st).steps
  run_items-IsSucceeded label ids items st among ok =
      planned_done items (pending_steps label ids) st ok (IsPlanned-start label ids items among)
