-- ===== src/Controller/AssetSyncer/Patches.antt =====
-- The patches that the threads make to the template's configuration (controller/asset_syncer.py).
use agent_eval_orchestrator.Prelude.{
  String, ◌<>◌, ◌≡◌, refl, ap, ◌∙◌, ◌&&◌, Bool, inl, inr, Option, none, some, List, [], arith,
  Bool-cases, ◌==◌, eq_iff, if◌then◌else◌,
}
use agent_eval_orchestrator.Json
use agent_eval_orchestrator.Json.{
  Fields, Value, text, obj, int, arr, boolean, literal, null, field, end, get, dict_of, get-put,
}
use agent_eval_orchestrator.Storage.Templates.{merge_key, merged, merge_config}
use agent_eval_orchestrator.Core.WorkerPaths.{PurePath, to_path, path_text}
use agent_eval_orchestrator.Core.BindMounts.{build_sync_bind_mounts}
use agent_eval_orchestrator.Controller.AssetSyncer.{
  one_field, BindTarget, worker_asset_paths, executor_patch,
}

-- What the template has for a worker under a key.
abbrev pub of_worker : (key v : String) → Fields → Option Value
of_worker key v config = get v (dict_of (get key config))

-- A dictionary of one worker, merged into what stands there.
merged-get :
    (w : String) (x : Value) (o : Option Value) (v : String)
    → get v (dict_of (some (merged o (obj (one_field w x)))))
      ≡ (if w == v then some x else get v (dict_of o))
unfolding get Json.update
merged-get w x none v = refl
merged-get w x (some (obj d)) v = get-put v w x d
merged-get w x (some (text t)) v = refl
merged-get w x (some (int t)) v = refl
merged-get w x (some (arr t)) v = refl
merged-get w x (some (boolean t)) v = refl
merged-get w x (some (literal t)) v = refl
merged-get w x (some null) v = refl

-- One round of the merge: the worker's value is set under that key, all else is as it was.
merge_key-of_worker :
    (key w : String) (x : Value) (config : Fields) (k v : String)
    → of_worker k v (merge_key [] key (obj (one_field w x)) config)
      ≡ (if key == k && w == v then some x else of_worker k v config)
unfolding merge_key
merge_key-of_worker key w x config k v = elim (Bool-cases (key == k)) [
  | inl e ↦
      let same : key ≡ k = (eq_iff key k).0 e in
      ap (λ (o : Option Value). get v (dict_of o))
        (get-put k key (merged (get key config) (obj (one_field w x))) config)
      ∙ rw e (
          merged-get w x (get key config) v
          ∙ ap (λ (c : String). if w == v then some x else get v (dict_of (get c config))) same)
  | inr e ↦
      ap (λ (o : Option Value). get v (dict_of o))
        (get-put k key (merged (get key config) (obj (one_field w x))) config)
      ∙ rw e refl
]

-- What a patch of run_job writes of its worker.
abbrev pub patched : (dataset paths mounts : Value) → String → Option Value
patched dataset paths mounts k =
    if "mountsByWorker" == k
    then some mounts
    else if "assetPathsByWorker" == k
    then some paths
    else if "datasetPathByWorker" == k
    then some dataset
    else none

by_key :
    (a b c own : Bool) (x y z : Value) (o : Option Value)
    → (if a && own then some x else if b && own then some y else if c && own then some z else o) ≡ (
        if own
        then elim (if a then some x else if b then some y else if c then some z else none) [
          | some x ↦ some x
          | none ↦ o
        ]
        else o)
by_key a b c own x y z o = ground arith

-- The thread of one worker sets that worker's dataset, asset paths and mounts, and leaves what the
-- template has for it under any other key, and all that it has for any other worker.
pub merge_config-executor_patch :
    (expanduser : PurePath → PurePath) (w root uv_binary : String) (assets : List BindTarget)
    (config : Fields) (k v : String)
    → of_worker k v (merge_config [] (executor_patch expanduser w root uv_binary assets) config) ≡ (
        if w == v
        then elim (patched
            (text (path_text (to_path root) <> "/dataset"))
            (obj (worker_asset_paths root assets end))
            (build_sync_bind_mounts expanduser uv_binary (path_text (to_path root)))
            k) [ some x ↦ some x | none ↦ of_worker k v config ]
        else of_worker k v config)
unfolding merge_config executor_patch
merge_config-executor_patch expanduser w root uv_binary assets config k v =
    let here = path_text (to_path root) in
    let dataset = text (here <> "/dataset") in
    let paths = obj (worker_asset_paths root assets end) in
    let mounts = build_sync_bind_mounts expanduser uv_binary here in
    let c1 = merge_key [] "datasetPathByWorker" (obj (one_field w dataset)) config in
    let c2 = merge_key [] "assetPathsByWorker" (obj (one_field w paths)) c1 in
    let m1 = merge_key-of_worker "datasetPathByWorker" w dataset config k v in
    let m2 = merge_key-of_worker "assetPathsByWorker" w paths c1 k v in
    let m3 = merge_key-of_worker "mountsByWorker" w mounts c2 k v in
    m3
    ∙ ap (λ (o : Option Value). if "mountsByWorker" == k && w == v then some mounts else o)
        (m2
          ∙ ap (λ (o : Option Value). if "assetPathsByWorker" == k && w == v then some paths else o)
              m1)
    ∙ by_key ("mountsByWorker" == k) ("assetPathsByWorker" == k) ("datasetPathByWorker" == k)
        (w == v) mounts paths dataset (of_worker k v config)
