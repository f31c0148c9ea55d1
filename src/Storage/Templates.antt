-- ===== src/Storage/Templates.antt =====
-- storage/store.py: task templates.
use agent_eval_orchestrator.Prelude.{
  ℕ, String, ◌<>◌, Bool, true, false, Option, none, some, List, any, ◌==◌, if◌then◌else◌,
}
use agent_eval_orchestrator.Table
use agent_eval_orchestrator.Text.{or_empty, or_else}
use agent_eval_orchestrator.Json
use agent_eval_orchestrator.Json.{Value, obj, Fields, end, field}
use agent_eval_orchestrator.Storage.Schema.{
  Template, Store, runtime_error, integrity_error, Result, ok, err, ◌>>=◌, or_raise,
}

abbrev pub template_key : Template → String
template_key t = t.template_id

-- get_task_template
unfoldable pub get_task_template : Store → String → Option Template
unfolding Table.find
get_task_template s template_id = Table.find template_key template_id s.templates

-- create_task_template, with the id that new_id("tpl") gives and the time.
unfoldable pub create_task_template :
    Store
    → (template_id : String) (now : ℕ)
    → (owner name dataset_ref executor_kind : String) (executor_config : Fields)
    → (model_profile_ref : Option String) (note : String) → Result (Store × Template)
unfolding Table.insert
create_task_template s template_id now owner name dataset_ref kind config profile note =
    let row : Template = record {
      template_id = template_id;
      owner = owner;
      name = name;
      dataset_ref = dataset_ref;
      executor_kind = kind;
      executor_config = config;
      model_profile_ref = profile;
      note = note;
      created_at = now;
      updated_at = now;
    } in
    elim (Table.insert template_key row s.templates) [
      | none ↦ err (integrity_error "task_templates.template_id")
      | some rows ↦ ok (record s { templates = rows }, row)
    ]

-- clone_task_template
unfoldable pub clone_task_template :
    Store
    → (template_id new_template_id : String) (now : ℕ)
    → (name : Option String) (executor_config : Option Fields) (dataset_ref : Option String)
    → Result (Store × Template)
unfolding get_task_template create_task_template
clone_task_template s template_id new_id now name config dataset_ref = do
  template ← or_raise (get_task_template s template_id) (runtime_error "template not found")
  create_task_template s new_id now template.owner
      (or_else (or_empty name) (template.name <> " rerun"))
      (or_else (or_empty dataset_ref) template.dataset_ref) template.executor_kind
      (elim config [ some c ↦ c | none ↦ template.executor_config ]) template.model_profile_ref
      template.note

abbrev is_obj : Option Value → Bool
is_obj (some (obj d)) = true
is_obj _ = false

-- One round of the loop over the patch: a dictionary under a key that is not replaced is merged
-- into the dictionary that is there; any other value takes the place of the old one.
abbrev pub merged : Option Value → Value → Value
merged (some (obj old)) (obj new) = obj (Json.update new old)
merged _ value = value

unfoldable pub merge_key : List String → String → Value → Fields → Fields
unfolding Json.get Json.put Json.update
merge_key replace_keys key value config =
    if any (λ k. k == key) replace_keys
    then Json.put key value config
    else Json.put key (merged (Json.get key config) value) config

unfoldable pub merge_config : List String → Fields → Fields → Fields
unfolding merge_key
merge_config replace_keys end config = config
merge_config replace_keys (field key value patch) config =
    merge_config replace_keys patch (merge_key replace_keys key value config)

-- update_task_template_executor_config
unfoldable pub update_task_template_executor_config :
    Store
    → (template_id : String) (patch : Fields) (replace_keys : List String) (now : ℕ) → Result Store
unfolding get_task_template merge_config
update_task_template_executor_config s template_id patch replace_keys now = do
  template ← or_raise (get_task_template s template_id) (runtime_error "template not found")
  ok (record s {
    templates =
        Table.update template_key template_id
          (λ t. record t {
            executor_config = merge_config replace_keys patch template.executor_config;
            updated_at = now;
          })
          s.templates;
  })

-- update_task_template_dataset_ref
unfoldable pub update_task_template_dataset_ref :
    Store → (template_id dataset_ref : String) (now : ℕ) → Result Store
unfolding get_task_template
update_task_template_dataset_ref s template_id dataset_ref now = do
  template ← or_raise (get_task_template s template_id) (runtime_error "template not found")
  ok (record s {
    templates =
        Table.update template_key template_id
          (λ t. record t { dataset_ref = dataset_ref; updated_at = now }) s.templates;
  })
