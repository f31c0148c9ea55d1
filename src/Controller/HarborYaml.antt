-- ===== src/Controller/HarborYaml.antt =====
-- controller/harbor_yaml.py: discover_bind_assets, on a configuration that yaml.safe_load gave. The
-- file system is a parameter.
pub mod AssetNames
pub mod Assets
use agent_eval_orchestrator.Prelude.{
  ℕ, zero, suc, String, ◌<>◌, Bool, true, false, not, Option, none, some, List, [], ◌∷◌, ◌++◌, any,
  length, ◌==◌, if◌then◌else◌,
}
use agent_eval_orchestrator.Text.{strip, is_empty, or_else}
use agent_eval_orchestrator.Json.{
  Fields, Value, Elements, obj, arr, element, no_more, field, end, get, text_of,
}
use agent_eval_orchestrator.Core.Ids.{sanitize_name}
use agent_eval_orchestrator.Core.WorkerPaths.{PurePath, to_path, path_text, name_of}

pub data PathKind : Type 0 where
  missing : PathKind
  file : PathKind
  directory : PathKind
  special : PathKind

-- What is asked of the file system and of str(n).
pub record System : Type 0 where
  pub expanduser : PurePath → PurePath
  pub resolve : PurePath → PurePath
  pub kind_of : PurePath → PathKind
  pub decimal : ℕ → String

pub record BindAsset : Type 0 where
  pub source : String
  pub kind : String
  pub target_name : String

-- What a function of the file comes to: a HarborYamlError with its message, or a result. The fuel
-- of a loop is out at `unended`.
pub data Found (T : Type 0) : Type 0 where
  found : T → Found T
  wrong : String → Found T
  unended : Found T

-- The mappings of environment.mounts.
unfoldable pub mappings : Elements → List Fields
mappings no_more = []
mappings (element (obj d) rest) = d ∷ mappings rest
mappings (element _ rest) = mappings rest

unfoldable pub environment_mounts : Fields → List Fields
unfolding get mappings
environment_mounts config = elim (get "environment" config) [
  | some (obj environment) ↦ elim (get "mounts" environment) [
    | some (arr mounts) ↦ mappings mounts
    | _ ↦ []
  ]
  | _ ↦ []
]

abbrev pub is_used : List String → String → Bool
is_used names name = any (λ n. n == name) names

abbrev pub prepend : BindAsset → Found (List BindAsset) → Found (List BindAsset)
prepend asset (found assets) = found (asset ∷ assets)
prepend asset (wrong message) = wrong message
prepend asset unended = unended

module _ (sys : System) where
  -- The names that the loop of _stable_asset_name tries, by their number.
  abbrev pub candidate : String → ℕ → String
  candidate base zero = base
  candidate base (suc k) = base <> "-" <> sys.decimal (suc (suc k))

  -- `while name in used_names`, from the candidate of that number on.
  unfoldable pub free_name : (fuel : ℕ) → List String → String → ℕ → Option String
  free_name zero used base k = none
  free_name (suc fuel) used base k =
      let rest = free_name fuel used base (suc k) in
      if is_used used (candidate base k) then rest else some (candidate base k)

  -- _stable_asset_name; a sanitised name is never empty.
  unfoldable pub stable_asset_name : PurePath → List String → Option String
  unfolding free_name sanitize_name name_of
  stable_asset_name source used =
      free_name (suc (length used)) used (sanitize_name (or_else (name_of source) "asset")) 0

  abbrev pub mount_error : ℕ → String → String
  mount_error index text = "environment.mounts[" <> sys.decimal index <> "].source " <> text

  -- What a bind mount's source is, resolved and with its kind.
  unfoldable pub bind_source : ℕ → (raw : String) → Found (PurePath × String)
  unfolding to_path path_text
  bind_source index raw =
      if is_empty raw
      then wrong (mount_error index "is required for bind mounts")
      else let source = sys.expanduser (to_path raw) in
        if not source.absolute
        then wrong (mount_error index ("must be an absolute path: " <> raw))
        else let resolved = sys.resolve source in
          elim (sys.kind_of resolved) [
            | missing ↦
                wrong (mount_error index ("not found on controller: " <> path_text resolved))
            | special ↦
                wrong (mount_error index ("must be a file or directory: " <> path_text resolved))
            | file ↦ found (resolved, "file")
            | directory ↦ found (resolved, "directory")
          ]

  -- The loop over the mounts.
  unfoldable pub bind_assets : ℕ → (seen used : List String) → List Fields → Found (List BindAsset)
  unfolding strip get bind_source stable_asset_name path_text
  bind_assets index seen used [] = found []
  bind_assets index seen used (mount ∷ mounts) =
      let skipped = bind_assets (suc index) seen used mounts in
      if not (strip (text_of (get "type" mount)) == "bind")
      then skipped
      else elim (bind_source index (strip (text_of (get "source" mount)))) [
        | wrong message ↦ wrong message
        | unended ↦ unended
        | found (resolved, kind) ↦
            let key = path_text resolved in
            if is_used seen key then skipped else elim (stable_asset_name resolved used) [
              | none ↦ unended
              | some name ↦
                  prepend (record { source = key; kind = kind; target_name = name })
                    (bind_assets (suc index) (key ∷ seen) (name ∷ used) mounts)
            ]
      ]

  unfoldable pub discover_bind_assets : Fields → Found (List BindAsset)
  unfolding environment_mounts bind_assets
  discover_bind_assets config = bind_assets 0 [] [] (environment_mounts config)
