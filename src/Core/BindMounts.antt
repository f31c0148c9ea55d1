-- ===== src/Core/BindMounts.antt =====
-- core/worker_paths.py: the bind mounts of a Harbor environment, as the JSON values that are stored.
use agent_eval_orchestrator.Prelude.{String, ◌<>◌, true}
use agent_eval_orchestrator.Json.{Value, text, boolean, obj, arr, element, no_more, end, field}
use agent_eval_orchestrator.Core.WorkerPaths.{PurePath, to_path, path_text}

abbrev bind : (source target : String) → Value
bind source target = obj (
    field "type" (text "bind") (
      field "source" (text source)
        (field "target" (text target) (field "read_only" (boolean true) end))))

abbrev three : Value → Value → Value → Value
three a b c = arr (element a (element b (element c no_more)))

module _ (expanduser : PurePath → PurePath) where
  abbrev expanded_text : String → String
  expanded_text s = path_text (expanduser (to_path s))

  unfoldable pub build_harbor_bind_mounts :
      (uv_binary harbor_repo bitfun_config_dir : String) → Value
  unfolding to_path path_text
  build_harbor_bind_mounts uv_binary harbor_repo bitfun_config_dir =
      three (bind uv_binary "/usr/local/bin/uv")
        (bind (expanded_text harbor_repo <> "/BitFun/target/release/bitfun-cli")
          "/usr/local/bin/bitfun-cli")
        (bind (expanded_text bitfun_config_dir <> "/config") "/root/.config/bitfun/config")

  unfoldable pub build_sync_bind_mounts : (uv_binary sync_root : String) → Value
  unfolding to_path path_text
  build_sync_bind_mounts uv_binary sync_root =
      let root = expanded_text sync_root in
      three (bind uv_binary "/usr/local/bin/uv")
        (bind (root <> "/bitfun/bitfun-cli") "/usr/local/bin/bitfun-cli")
        (bind (root <> "/bitfun/config") "/root/.config/bitfun/config")
