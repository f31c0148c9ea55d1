-- ===== src/Tests/Harbor.antt =====
-- Bind assets of a configuration with two files of one name and a directory.
use agent_eval_orchestrator.Prelude.{String, ◌≡◌, refl, [], ◌∷◌, if◌then◌else◌, ◌==◌}
use agent_eval_orchestrator.Json.{Fields, text, obj, arr, field, end, element, no_more}
use agent_eval_orchestrator.Core.WorkerPaths.{PurePath, path_text}
use agent_eval_orchestrator.Controller.HarborYaml.{
  System, PathKind, file, directory, found, discover_bind_assets,
}
use agent_eval_orchestrator.Controller.HarborYaml.Assets.{
  IsDiscovered, discover_bind_assets-IsDiscovered,
}
use agent_eval_orchestrator.Tests.Data.{tally, tally-distinct}

abbrev kind_at : PurePath → PathKind
kind_at p = if path_text p == "/srv/data" then directory else file

abbrev controller : System
controller = record { expanduser = λ p. p; resolve = λ p. p; kind_of = kind_at; decimal = tally }

abbrev bind_mount : String → Fields
bind_mount source = field "type" (text "bind") (field "source" (text source) end)

abbrev config : Fields
config =
    field "environment"
      (obj (
        field "mounts"
          (arr (
            element (obj (bind_mount "/etc/a/key.json")) (
              element (obj (bind_mount "/srv/data")) (
                element (obj (bind_mount "/etc/b/key.json"))
                  (element (obj (bind_mount "/srv/data")) no_more)))))
          end))
      end

discover_test :
    discover_bind_assets controller config
    ≡ found (
        record { source = "/etc/a/key.json"; kind = "file"; target_name = "key.json" }
        ∷ record { source = "/srv/data"; kind = "directory"; target_name = "data" }
        ∷ record { source = "/etc/b/key.json"; kind = "file"; target_name = "key.json-xx" }
        ∷ [])
unfolding discover_bind_assets tally path_text
discover_test = refl

discover_bind_assets-IsDiscovered_example :
    IsDiscovered [] [] (discover_bind_assets controller config)
discover_bind_assets-IsDiscovered_example =
    discover_bind_assets-IsDiscovered controller tally-distinct config
