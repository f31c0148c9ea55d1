-- ===== src/Storage/Workers/Lifecycle.antt =====
-- The life of a worker's row (storage/store.py): registered, shown, disabled, deleted.
use agent_eval_orchestrator.Prelude.{
  ℕ, String, ◌≡◌, refl, sym, ap, subst, ◌∙◌, inl, inr, true, false, none, some, List, [], arith,
  filter, Bool-cases, ◌==◌, eq_iff, eq_refl, if◌then◌else◌,
}
use agent_eval_orchestrator.Table
use agent_eval_orchestrator.Text.{is_empty}
use agent_eval_orchestrator.Storage.Schema.{ProvisionJob, WorkerUpdateJob, Worker, Store}
use agent_eval_orchestrator.Storage.Templates.{get_task_template}
use agent_eval_orchestrator.Storage.Runs.{get_run}
use agent_eval_orchestrator.Storage.Claim.{
  worker_key, find_worker, join_row, queued_rows, choose, is_disabled, chosen_row,
}
use agent_eval_orchestrator.Storage.Workers.{
  Registration, Settings, update_worker, registered, next_provision_status, register_worker,
  delete_worker, update_worker_settings, shown_worker_status,
}

find_worker-update :
    (s : Store) (id j : String) (f : Worker → Worker) (w : Worker)
    → ((x : Worker) → worker_key (f x) ≡ worker_key x)
    → find_worker s j ≡ some w
    → find_worker (update_worker s id f) j ≡ (if id == j then some (f w) else some w)
unfolding find_worker
find_worker-update s id j f w keeps h =
    ground (arith, Table.find-update worker_key j id f s.workers keeps)

-- A worker that registers again is found with the reported columns; its settings, its note, its
-- tags and its connection stay.
pub find_worker-register :
    (s : Store) (r : Registration) (now : ℕ) (old : Worker)
    → find_worker s r.worker_id ≡ some old
    → find_worker (register_worker s r now) r.worker_id ≡ some (registered r now old old)
unfolding register_worker registered
find_worker-register s r now old h =
    rw (h, register_worker)
      (ground (
        arith,
        find_worker-update s r.worker_id r.worker_id (registered r now old) old (λ x. refl) h,
        eq_refl r.worker_id,
      ))

shown_of_provision :
    (timeout now : ℕ) (w : Worker) (status : String)
    → w.provision_status ≡ status
    → (status == "provisioning") ≡ false
    → (status == "failed") ≡ false
    → (is_empty status) ≡ false
    → w.status ≡ "online"
    → w.last_heartbeat_at ≡ some now
    → shown_worker_status timeout now w ≡ "online"
unfolding shown_worker_status
shown_of_provision timeout now w status p a b c on beat = ground (
  arith,
  eq_iff w.provision_status "provisioning",
  eq_iff w.provision_status "failed",
  eq_iff w.status "removed",
  eq_iff w.status "",
)

next_ok :
    (p : String)
    → (p == "failed") ≡ false
    → ((next_provision_status p == "provisioning") ≡ false)
      × ((next_provision_status p == "failed") ≡ false)
      × (is_empty (next_provision_status p) ≡ false)
next_ok p h = elim (Bool-cases (p == "")) [
  | inl e ↦
      subst
        (λ x.
          ((next_provision_status x == "provisioning") ≡ false)
          × ((next_provision_status x == "failed") ≡ false)
          × (is_empty (next_provision_status x) ≡ false))
        (sym ((eq_iff p "").0 e)) (refl, refl, refl)
  | inr e ↦ elim (Bool-cases (p == "provisioning")) [
    | inl q ↦
        subst
          (λ x.
            ((next_provision_status x == "provisioning") ≡ false)
            × ((next_provision_status x == "failed") ≡ false)
            × (is_empty (next_provision_status x) ≡ false))
          (sym ((eq_iff p "provisioning").0 q)) (refl, refl, refl)
    | inr q ↦ rw (e, q) (q, h, e)
  ]
]

-- A worker that registers as online is shown as online at that time, also where it was being
-- provisioned; only a worker whose provisioning failed is not.
pub register-online :
    (s : Store) (r : Registration) (now timeout : ℕ) (old : Worker)
    → find_worker s r.worker_id ≡ some old
    → (old.provision_status == "failed") ≡ false
    → r.status ≡ "online"
    → (w : Worker) × (find_worker (register_worker s r now) r.worker_id ≡ some w)
      × (shown_worker_status timeout now w ≡ "online")
unfolding registered
register-online s r now timeout old h ne on =
    let (a, b, c) = next_ok old.provision_status ne in
    (
      registered r now old old,
      find_worker-register s r now old h,
      shown_of_provision timeout now (registered r now old old)
          (next_provision_status old.provision_status) refl a b c on refl,
    )

-- After a worker is deleted it is not found, none of its provisioning or update jobs is left, every
-- other worker is found as before, and no batch and no run changes.
pub delete_worker-gone :
    (s : Store) (id : String) (old : Worker)
    → find_worker s id ≡ some old
    → ((delete_worker s id).1 ≡ true)
      × (find_worker (delete_worker s id).0 id ≡ none)
      × (filter (λ j. j.worker_id == id) (delete_worker s id).0.provision_jobs ≡ [])
      × (filter (λ j. j.worker_id == id) (delete_worker s id).0.worker_update_jobs ≡ [])
      × ((j : String) → (id == j) ≡ false → find_worker (delete_worker s id).0 j ≡ find_worker s j)
      × ((delete_worker s id).0.batches ≡ s.batches)
      × ((delete_worker s id).0.runs ≡ s.runs)
unfolding delete_worker
delete_worker-gone s id old h =
    rw (h, delete_worker)
      (
        refl,
        unfold find_worker in
            ground (arith, Table.find-delete worker_key id id s.workers, eq_refl id),
        Table.filter-delete_where_self (λ (j : ProvisionJob). j.worker_id == id) s.provision_jobs,
        Table.filter-delete_where_self (λ (j : WorkerUpdateJob). j.worker_id == id)
            s.worker_update_jobs,
        (λ j ne. unfold find_worker in ground (arith, Table.find-delete worker_key j id s.workers)),
        refl,
        refl,
      )

abbrev pub disable : Settings
disable = record {
  display_name = none;
  slots_total = none;
  allocation_weight = none;
  enabled = some false;
  note = none;
  tags = none;
}

chosen-enabled :
    (s : Store) (id : String) (w : Worker)
    → find_worker s id ≡ some w
    → is_disabled w ≡ false
    → chosen_row s id ≡ choose id (queued_rows s)
unfolding chosen_row
chosen-enabled s id w h on = rw (h, on, chosen_row)

rows_same : (s : Store) (ws : List Worker) → queued_rows (record s { workers = ws }) ≡ queued_rows s
unfolding queued_rows join_row get_run get_task_template
rows_same s ws = refl

enabled_one : (w : Worker) → w.enabled ≡ 1 → is_disabled w ≡ false
unfolding is_disabled
enabled_one w h = ground arith

zero_enabled :
    (now : ℕ) (w : Worker) → is_disabled (record w { enabled = 0; updated_at = now }) ≡ false
unfolding is_disabled
zero_enabled now w = refl

-- Setting a worker to disabled does not keep batches from it: a claim takes the same row as before.
pub chosen_row-disable :
    (s : Store) (id : String) (now : ℕ) (w : Worker)
    → find_worker s id ≡ some w
    → w.enabled ≡ 1
    → chosen_row (update_worker_settings s id now disable).0 id ≡ chosen_row s id
chosen_row-disable s id now w h on =
    let off : Worker → Worker = λ x. record x { enabled = 0; updated_at = now } in
    let after = update_worker s id off in
    let step : (update_worker_settings s id now disable).0 ≡ after =
      unfold update_worker_settings in rw (h, update_worker_settings) refl in
    let found : find_worker after id ≡ some (off w) =
      ground (arith, find_worker-update s id id off w (λ x. refl) h, eq_refl id) in
    ap (λ x. chosen_row x id) step
    ∙ chosen-enabled after id (off w) found (zero_enabled now w)
    ∙ ap (choose id) (rows_same s after.workers)
    ∙ sym (chosen-enabled s id w h (enabled_one w on))
