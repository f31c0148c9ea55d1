-- ===== src/Tests/Data.antt =====
-- The rows and calls that the tests run on.
use agent_eval_orchestrator.Prelude.{
  ℕ, zero, suc, String, ◌≡◌, ◌<◌, refl, ap, ◌∙◌, false, inl, inr, Bool-cases, Option, none, some,
  [], ◌∷◌, arith, ◌==◌, eq_iff,
}
use agent_eval_orchestrator.Json.{text, Fields, end, field}
use agent_eval_orchestrator.Storage.Schema.{Template, Run, Batch, CaseRun, Worker, Store, empty}
use agent_eval_orchestrator.Storage.Cases.{CasePayload}

abbrev pub template_a : Template
template_a = record {
  template_id = "t1";
  owner = "ann";
  name = "bench";
  dataset_ref = "/data/bench";
  executor_kind = "harbor";
  executor_config = end;
  model_profile_ref = none;
  note = "";
  created_at = 1;
  updated_at = 1;
}

abbrev pub run_a : Run
run_a = record {
  run_id = "r1";
  template_id = "t1";
  owner = "ann";
  display_name = "bench";
  bound_worker_id = none;
  latest_batch_id = some "b2";
  parent_run_id = none;
  sync_status = "";
  sync_job_id = none;
  sync_manifest = end;
  rerun_status = "running";
  rerun_job_id = some "j1";
  created_at = 2;
  updated_at = 2;
}

abbrev pub new_batch : (batch_id status kind : String) → Option String → ℕ → Batch
new_batch batch_id status kind preferred now = record {
  batch_id = batch_id;
  run_id = "r1";
  owner = "ann";
  status = status;
  current_step = none;
  preferred_worker_id = preferred;
  assigned_worker_id = none;
  executor_kind = "harbor";
  executor_metadata = end;
  selected_case_ids = [];
  batch_options = end;
  summary = end;
  artifact_index = end;
  batch_root = "/runtime/archives/r1";
  created_at = now;
  started_at = none;
  finished_at = none;
  error_text = none;
  parent_batch_id = none;
  batch_kind = kind;
}

abbrev pub worker_a : Worker
worker_a = record {
  worker_id = "w1";
  display_name = "first";
  host = "h1";
  slots_total = 2;
  slots_used = 0;
  capabilities = end;
  status = "online";
  enabled = 1;
  note = "";
  tags = [];
  allocation_weight = "1.0";
  ssh_host_alias = "";
  ssh_bootstrap_host_alias = none;
  tunnel_remote_port = none;
  provision_status = "provisioning";
  last_provision_error = none;
  connection_mode = "direct";
  controller_internal_ip = none;
  last_heartbeat_at = some 3;
  created_at = 3;
  updated_at = 3;
}

abbrev pub worker_b : Worker
worker_b = record worker_a { worker_id = "w2"; display_name = "second"; host = "h2" }

abbrev pub trial : String → Fields
trial name = field "trialDir" (text name) end

abbrev pub new_case : (case_run_id batch_id case_id status : String) → CaseRun
new_case case_run_id batch_id case_id status = record {
  case_run_id = case_run_id;
  batch_id = batch_id;
  case_id = case_id;
  status = status;
  score = none;
  metrics = end;
  artifact_index = trial case_id;
  error_text = none;
  created_at = 5;
  updated_at = 5;
}

abbrev pub case_report : (case_id status : String) → CasePayload
case_report case_id status = record {
  case_id = case_id;
  status = some status;
  score = none;
  metrics = end;
  error_type = none;
  artifact_index = trial case_id;
  error_text = none;
  trial_name = none;
}

-- One run with a younger batch in front of an older one, a finished one, and two workers.
abbrev pub two_queued : Store
two_queued = record empty {
  templates = template_a ∷ [];
  runs = run_a ∷ [];
  batches =
      new_batch "b2" "queued" "primary" none 20
      ∷ new_batch "b1" "queued" "primary" (some "w1") 10
      ∷ new_batch "b0" "succeeded" "primary" none 5
      ∷ [];
  case_runs = new_case "c1" "b0" "x" "succeeded" ∷ new_case "c2" "b0" "y" "failed" ∷ [];
  workers = worker_a ∷ worker_b ∷ [];
}

-- Ids that are not in use.
abbrev pub fresh_ids : ℕ → String
fresh_ids zero = "n0"
fresh_ids (suc zero) = "n1"
fresh_ids (suc (suc zero)) = "n2"
fresh_ids (suc (suc (suc n))) = "n3"

abbrev pub later_ids : ℕ → String
later_ids zero = "m0"
later_ids (suc zero) = "m1"
later_ids (suc (suc n)) = "m2"

-- Ids of growing length.
size : String → ℕ
size String.[] = 0
size (String.◌∷◌ c s) = suc (size s)

longer : String → String
longer String.[] = "x"
longer (String.◌∷◌ c s) = String.◌∷◌ c (String.◌∷◌ c s)

size-longer : (s : String) → size (longer s) ≡ suc (size s)
unfolding size longer
size-longer String.[] = refl
size-longer (String.◌∷◌ c s) = refl

unfoldable pub tally : ℕ → String
unfolding longer
tally zero = ""
tally (suc n) = longer (tally n)

size-tally : (n : ℕ) → size (tally n) ≡ n
unfolding tally size
size-tally zero = refl
size-tally (suc n) = size-longer (tally n) ∙ ap (λ (m : ℕ). suc m) (size-tally n)

pub tally-distinct : (i j : ℕ) → i < j → (tally i == tally j) ≡ false
tally-distinct i j h = elim (Bool-cases (tally i == tally j)) [
  | inl e ↦
      let same = ap size ((eq_iff (tally i) (tally j)).0 e) in
      absurd (omega (arith, h, same, size-tally i, size-tally j))
  | inr e ↦ e
]
