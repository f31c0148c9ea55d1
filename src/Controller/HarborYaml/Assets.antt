-- ===== src/Controller/HarborYaml/Assets.antt =====
-- discover_bind_assets as a whole (controller/harbor_yaml.py).
use agent_eval_orchestrator.Prelude.{
  ℕ, suc, String, ◌<>◌, ◌≡◌, ◌<◌, refl, Bool, true, false, not, ◌⊎◌, inl, inr, Bool-cases, none,
  some, List, [], ◌∷◌, map, ◌==◌, if◌then◌else◌,
}
use agent_eval_orchestrator.Json.{Fields, get, text_of}
use agent_eval_orchestrator.Text.{strip, is_empty}
use agent_eval_orchestrator.Core.WorkerPaths.{PurePath, to_path, path_text}
use agent_eval_orchestrator.Controller.HarborYaml.{
  System, BindAsset, Found, found, wrong, unended, is_used, stable_asset_name, prepend, mount_error,
  bind_source, PathKind, missing, file, directory, special, bind_assets, environment_mounts,
  discover_bind_assets,
}
use agent_eval_orchestrator.Controller.HarborYaml.AssetNames.{stable_asset_name-some}

-- No name of a list occurs again in it, or in the names before.
abbrev pub AreFresh : List String → List String → Type 0
AreFresh before [] = Unit
AreFresh before (name ∷ names) = (is_used before name ≡ false) × AreFresh (name ∷ before) names

-- What the loop comes to: an error, or assets with fresh sources and names.
abbrev pub IsDiscovered : (seen used : List String) → Found (List BindAsset) → Type 0
IsDiscovered seen used o =
    ((message : String) × (o ≡ wrong message))
    ⊎ ((assets : List BindAsset) × (o ≡ found assets)
        × AreFresh seen (map (λ (a : BindAsset). a.source) assets)
        × AreFresh used (map (λ (a : BindAsset). a.target_name) assets))

prepend-IsDiscovered :
    (seen used : List String) (asset : BindAsset) (o : Found (List BindAsset))
    → is_used seen asset.source ≡ false
    → is_used used asset.target_name ≡ false
    → IsDiscovered (asset.source ∷ seen) (asset.target_name ∷ used) o
    → IsDiscovered seen used (prepend asset o)
prepend-IsDiscovered seen used asset o new free (inl (message, e)) = inl (message, rw e refl)
prepend-IsDiscovered seen used asset o new free (inr (assets, e, sources, names)) =
    inr (asset ∷ assets, rw e refl, (new, sources), (free, names))

abbrev has_ended : {T : Type 0} → Found T → Bool
has_ended unended = false
has_ended _ = true

module _ (sys : System)
    (distinct : (i j : ℕ) → i < j → (sys.decimal i == sys.decimal j) ≡ false) where
  kind-has_ended :
      (index : ℕ) (resolved : PurePath) (k : PathKind)
      → has_ended (elim k as (λ _. Found (PurePath × String)) [
        | missing ↦
            wrong (mount_error sys index ("not found on controller: " <> path_text resolved))
        | special ↦
            wrong (mount_error sys index ("must be a file or directory: " <> path_text resolved))
        | file ↦ found (resolved, "file")
        | directory ↦ found (resolved, "directory")
      ])
        ≡ true
  kind-has_ended index resolved missing = refl
  kind-has_ended index resolved special = refl
  kind-has_ended index resolved file = refl
  kind-has_ended index resolved directory = refl

  bind_source-has_ended : (index : ℕ) (raw : String) → has_ended (bind_source sys index raw) ≡ true
  unfolding bind_source
  bind_source-has_ended index raw =
      let resolved = sys.resolve (sys.expanduser (to_path raw)) in
      elim (Bool-cases (is_empty raw)) [
        | inl e ↦ rw e refl
        | inr e ↦ elim (Bool-cases (not (sys.expanduser (to_path raw)).absolute)) [
          | inl a ↦ rw (e, a) refl
          | inr a ↦ rw (e, a) (kind-has_ended index resolved (sys.kind_of resolved))
        ]
      ]

  -- A mount that is one of a new source.
  new_source :
      (seen used : List String) (resolved : PurePath) (kind : String)
      (later : (name : String) → Found (List BindAsset))
      → is_used seen (path_text resolved) ≡ false
      → ((name : String) → IsDiscovered (path_text resolved ∷ seen) (name ∷ used) (later name))
      → IsDiscovered seen used
          (elim (stable_asset_name sys resolved used) as (λ _. Found (List BindAsset)) [
            | none ↦ unended
            | some name ↦
                prepend
                  (record { source = path_text resolved; kind = kind; target_name = name })
                  (later name)
          ])
  new_source seen used resolved kind later new rest =
      let (name, e, free) = stable_asset_name-some sys distinct resolved used in
      rw e (
        prepend-IsDiscovered seen used
          (record { source = path_text resolved; kind = kind; target_name = name }) (later name) new
          free (rest name))

  by_source :
      (seen used : List String) (skipped : Found (List BindAsset))
      (later : PurePath → (name : String) → Found (List BindAsset)) (o : Found (PurePath × String))
      → has_ended o ≡ true
      → IsDiscovered seen used skipped
      → ((p : PurePath) (name : String)
          → IsDiscovered (path_text p ∷ seen) (name ∷ used) (later p name))
      → IsDiscovered seen used (elim o as (λ _. Found (List BindAsset)) [
        | wrong message ↦ wrong message
        | unended ↦ unended
        | found (resolved, kind) ↦
            if is_used seen (path_text resolved)
            then skipped
            else elim (stable_asset_name sys resolved used) [
              | none ↦ unended
              | some name ↦
                  prepend
                    (record { source = path_text resolved; kind = kind; target_name = name })
                    (later resolved name)
            ]
      ])
  by_source seen used skipped later (wrong message) h skip rest = inl (message, refl)
  by_source seen used skipped later unended h skip rest = absurd (cc h)
  by_source seen used skipped later (found (resolved, kind)) h skip rest =
      elim (Bool-cases (is_used seen (path_text resolved))) [
        | inl e ↦ rw e skip
        | inr e ↦ rw e (new_source seen used resolved kind (later resolved) e (rest resolved))
      ]

  bind_assets-IsDiscovered :
      (index : ℕ) (seen used : List String) (mounts : List Fields)
      → IsDiscovered seen used (bind_assets sys index seen used mounts)
  unfolding bind_assets
  bind_assets-IsDiscovered index seen used [] = inr ([], refl, tt, tt)
  bind_assets-IsDiscovered index seen used (mount ∷ mounts) =
      let skip = bind_assets-IsDiscovered (suc index) seen used mounts in
      elim (Bool-cases (not (strip (text_of (get "type" mount)) == "bind"))) [
        | inl e ↦ rw e skip
        | inr e ↦ rw e (
            by_source seen used (bind_assets sys (suc index) seen used mounts)
              (λ p name. bind_assets sys (suc index) (path_text p ∷ seen) (name ∷ used) mounts)
              (bind_source sys index (strip (text_of (get "source" mount))))
              (bind_source-has_ended index (strip (text_of (get "source" mount)))) skip
              (λ p name.
                bind_assets-IsDiscovered (suc index) (path_text p ∷ seen) (name ∷ used) mounts))
      ]

-- Where the texts of different numbers differ, the search for bind assets ends, on whatever
-- configuration and file system: with an error, or with assets no two of which have one source or
-- one target name.
pub discover_bind_assets-IsDiscovered :
    (sys : System)
    → ((i j : ℕ) → i < j → (sys.decimal i == sys.decimal j) ≡ false)
    → (config : Fields) → IsDiscovered [] [] (discover_bind_assets sys config)
unfolding discover_bind_assets
discover_bind_assets-IsDiscovered sys distinct config =
    bind_assets-IsDiscovered sys distinct 0 [] [] (environment_mounts config)
