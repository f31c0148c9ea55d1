-- ===== src/Storage/Workers.antt =====
-- storage/store.py: the workers.
pub mod Lifecycle
use agent_eval_orchestrator.Prelude.{
  ℕ, ◌-◌, String, Bool, true, false, not, ◌&&◌, ◌||◌, Option, none, some, List, [], count, coalesce,
  ltb, is_some, ◌==◌, if◌then◌else◌,
}
use agent_eval_orchestrator.Table
use agent_eval_orchestrator.Text.{strip, or_empty, is_empty, or_else}
use agent_eval_orchestrator.Json
use agent_eval_orchestrator.Json.{Fields, end}
use agent_eval_orchestrator.Storage.Schema.{
  Batch, Run, Worker, Store, integrity_error, Result, ok, err,
}
use agent_eval_orchestrator.Storage.Runs.{get_run}
use agent_eval_orchestrator.Storage.Claim.{worker_key, find_worker}

abbrev pub update_worker : Store → String → (Worker → Worker) → Store
update_worker s worker_id f = record s { workers = Table.update worker_key worker_id f s.workers }

-- The arguments of register_worker.
pub record Registration : Type 0 where
  pub worker_id : String
  pub display_name : String
  pub host : String
  pub slots_total : ℕ
  pub slots_used : ℕ
  pub capabilities : Fields
  pub status : String

-- The INSERT of a worker that is not in the table; the columns that it leaves out get the defaults
-- of the schema and its migrations.
unfoldable pub new_worker : Registration → ℕ → Worker
new_worker r now = record {
  worker_id = r.worker_id;
  display_name = r.display_name;
  host = r.host;
  slots_total = r.slots_total;
  slots_used = r.slots_used;
  capabilities = r.capabilities;
  status = r.status;
  enabled = 1;
  note = "";
  tags = [];
  allocation_weight = "1.0";
  ssh_host_alias = "";
  ssh_bootstrap_host_alias = none;
  tunnel_remote_port = none;
  provision_status = "none";
  last_provision_error = none;
  connection_mode = "direct";
  controller_internal_ip = none;
  last_heartbeat_at = some now;
  created_at = now;
  updated_at = now;
}

abbrev next_provision_status : String → String
next_provision_status status =
    let known = or_else status "none" in if known == "provisioning" then "ready" else known

-- The UPDATE of a worker that is in the table, `old`.
unfoldable pub registered : Registration → ℕ → Worker → Worker → Worker
registered r now old w = record w {
  display_name = r.display_name;
  host = r.host;
  slots_total = r.slots_total;
  slots_used = r.slots_used;
  capabilities = Json.update r.capabilities old.capabilities;
  status = r.status;
  provision_status = next_provision_status old.provision_status;
  last_heartbeat_at = some now;
  updated_at = now;
}

-- register_worker: the database after it. A new row cannot clash: its key was just looked up.
unfoldable pub register_worker : Store → Registration → ℕ → Store
register_worker s r now = elim (find_worker s r.worker_id) [
  | some old ↦ update_worker s r.worker_id (registered r now old)
  | none ↦ elim (Table.insert worker_key (new_worker r now) s.workers) [
    | none ↦ s
    | some rows ↦ record s { workers = rows }
  ]
]

unfoldable pub worker_exists : Store → String → Bool
worker_exists s worker_id = is_some (find_worker s worker_id)

-- delete_worker
unfoldable pub delete_worker : Store → String → Store × Bool
delete_worker s worker_id = elim (find_worker s worker_id) [
  | none ↦ (s, false)
  | some w ↦ (
    record s {
      worker_update_jobs = Table.delete_where (λ j. j.worker_id == worker_id) s.worker_update_jobs;
      provision_jobs = Table.delete_where (λ j. j.worker_id == worker_id) s.provision_jobs;
      workers = Table.delete worker_key worker_id s.workers;
    },
    true,
  )
]

-- create_provisioning_worker: the key comes from the request, so the INSERT may fail.
unfoldable pub create_provisioning_worker :
    Store
    → (worker_id display_name : String) (slots_total : ℕ) (ssh_host_alias : String)
    → (ssh_bootstrap_host_alias : Option String) (connection_mode : String)
    → (controller_internal_ip : Option String) (tunnel_remote_port : Option ℕ) (now : ℕ)
    → Result (Store × Worker)
create_provisioning_worker s worker_id display_name slots_total alias bootstrap mode ip port now =
    let row : Worker = record {
      worker_id = worker_id;
      display_name = display_name;
      host = "";
      slots_total = slots_total;
      slots_used = 0;
      capabilities = end;
      status = "unavailable";
      enabled = 1;
      note = "";
      tags = [];
      allocation_weight = "1.0";
      ssh_host_alias = alias;
      ssh_bootstrap_host_alias = bootstrap;
      tunnel_remote_port = port;
      provision_status = "provisioning";
      last_provision_error = none;
      connection_mode = mode;
      controller_internal_ip = ip;
      last_heartbeat_at = none;
      created_at = now;
      updated_at = now;
    } in
    elim (Table.insert worker_key row s.workers) [
      | none ↦ err (integrity_error "workers.worker_id")
      | some rows ↦ ok (record s { workers = rows }, row)
    ]

unfoldable pub update_worker_host : Store → (worker_id host : String) (now : ℕ) → Store
update_worker_host s worker_id host now =
    update_worker s worker_id (λ w. record w { host = host; updated_at = now })

unfoldable pub set_worker_provision_status :
    Store
    → (worker_id provision_status : String) (last_provision_error : Option String) (now : ℕ) → Store
set_worker_provision_status s worker_id provision_status last_provision_error now =
    update_worker s worker_id (λ w. record w {
      provision_status = provision_status;
      last_provision_error = last_provision_error;
      updated_at = now;
    })

-- The arguments of update_worker_settings; `none` is None, and leaves its column.
pub record Settings : Type 0 where
  pub display_name : Option String
  pub slots_total : Option ℕ
  pub allocation_weight : Option String
  pub enabled : Option Bool
  pub note : Option String
  pub tags : Option (List String)

abbrev or_old {ℓ} : {A : Type ℓ} → Option A → A → A
or_old none old = old
or_old (some a) old = a

abbrev flag : Option Bool → Option ℕ
flag none = none
flag (some true) = some 1
flag (some false) = some 0

-- update_worker_settings
unfoldable pub update_worker_settings :
    Store → (worker_id : String) (now : ℕ) → Settings → Store × Option Worker
update_worker_settings s worker_id now t = elim (find_worker s worker_id) [
  | none ↦ (s, none)
  | some old ↦
      let s' = update_worker s worker_id (λ w. record w {
        display_name = or_old t.display_name w.display_name;
        slots_total = or_old t.slots_total w.slots_total;
        allocation_weight = or_old t.allocation_weight w.allocation_weight;
        enabled = or_old (flag t.enabled) w.enabled;
        note = or_old t.note w.note;
        tags = or_old t.tags w.tags;
        updated_at = now;
      }) in
      (s', find_worker s' worker_id)
]

-- `batch.get("assigned_worker_id") or batch.get("preferred_worker_id") or ""`
abbrev first_worker : Batch → String
first_worker b = or_else (or_empty b.assigned_worker_id) (or_empty b.preferred_worker_id)

-- _batch_target_worker_id
unfoldable pub batch_target_worker_id : Batch → Option Run → String
batch_target_worker_id b run =
    let target = strip (first_worker b) in
    if is_empty target
    then elim run [ none ↦ target | some r ↦ strip (or_empty r.bound_worker_id) ]
    else target

abbrev pub is_active_on : Store → String → String → Batch → Bool
is_active_on s worker_id status b =
    batch_target_worker_id b (get_run s b.run_id) == worker_id && b.status == status

-- worker_has_active_batches: runningCount and queuedCount.
unfoldable pub worker_has_active_batches : Store → String → ℕ × ℕ
worker_has_active_batches s worker_id = (
  count (is_active_on s worker_id "running") s.batches,
  count (is_active_on s worker_id "queued") s.batches,
)

-- The status that _decorate_worker shows; times are in seconds, and a worker is unavailable where
-- it has sent no heartbeat for longer than the timeout.
unfoldable pub shown_worker_status : ℕ → ℕ → Worker → String
shown_worker_status timeout now w =
    let provision = or_else w.provision_status "none" in
    let status = or_else w.status "online" in
    if provision == "provisioning"
    then "provisioning"
    else if provision == "failed"
    then "provision_failed"
    else if status == "removed"
    then status
    else elim w.last_heartbeat_at [
      | none ↦ "unavailable"
      | some last ↦ if ltb timeout (now - last) then "unavailable" else "online"
    ]
