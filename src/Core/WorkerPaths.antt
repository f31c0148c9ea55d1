-- ===== src/Core/WorkerPaths.antt =====
-- core/worker_paths.py: the directories of a worker, from its shared root. A pathlib path is its
-- root and its components; expanduser reads the environment and is a parameter.
use agent_eval_orchestrator.Prelude.{
  String, ◌<>◌, Bool, true, false, not, ◌&&◌, ◌||◌, Option, none, some, List, [], ◌∷◌, ◌++◌, filter,
  ◌==◌, if◌then◌else◌,
}
use agent_eval_orchestrator.Text.{strip, split, is_empty}

pub record PurePath : Type 0 where
  pub absolute : Bool
  pub components : List String

starts_with_slash : String → Bool
unfolding split
starts_with_slash s = elim (split b'/' s) [ [] ↦ false | w ∷ ws ↦ is_empty w && not (is_empty s) ]

-- Path(s)
unfoldable pub to_path : String → PurePath
unfolding split starts_with_slash
to_path s = record {
  absolute = starts_with_slash s;
  components = filter (λ w. not (is_empty w || w == ".")) (split b'/' s);
}

last_of : String → List String → String
last_of name [] = name
last_of name (w ∷ ws) = last_of w ws

without_last : List String → List String
without_last [] = []
without_last (w ∷ []) = []
without_last (w ∷ v ∷ ws) = w ∷ without_last (v ∷ ws)

-- p.name, p.parent, and p / name / ... for names that are components.
unfoldable pub name_of : PurePath → String
unfolding last_of
name_of p = last_of "" p.components

unfoldable pub parent_of : PurePath → PurePath
unfolding without_last
parent_of p = record p { components = without_last p.components }

abbrev pub child : PurePath → List String → PurePath
child p names = record p { components = p.components ++ names }

join_components : List String → String
join_components [] = ""
join_components (w ∷ []) = w
join_components (w ∷ v ∷ ws) = w <> "/" <> join_components (v ∷ ws)

-- str(p)
unfoldable pub path_text : PurePath → String
unfolding join_components
path_text p =
    if p.absolute
    then "/" <> join_components p.components
    else elim p.components [ [] ↦ "." | w ∷ ws ↦ join_components (w ∷ ws) ]

module _ (expanduser : PurePath → PurePath) where
  unfoldable pub repo_root_from_shared_root : String → Option PurePath
  unfolding to_path path_text name_of parent_of strip
  repo_root_from_shared_root shared_root =
      let shared_path = expanduser (to_path shared_root) in
      if is_empty (strip (path_text shared_path))
      then none
      else some (if name_of shared_path == "runtime" then parent_of shared_path else shared_path)

  unfoldable pub workspace_root_from_shared_root : String → Option PurePath
  unfolding repo_root_from_shared_root
  workspace_root_from_shared_root shared_root = elim (repo_root_from_shared_root shared_root) [
    | none ↦ none
    | some repo_root ↦ some (parent_of repo_root)
  ]

  -- len(parts) >= 3 and parts[1] == "home", where the root is the first part.
  abbrev is_user_home : Bool → List String → Bool
  is_user_home true (home ∷ user ∷ rest) = home == "home"
  is_user_home false (first ∷ home ∷ user ∷ rest) = home == "home"
  is_user_home _ _ = false

  unfoldable pub user_home_from_shared_root : String → Option PurePath
  unfolding workspace_root_from_shared_root
  user_home_from_shared_root shared_root = elim (workspace_root_from_shared_root shared_root) [
    | none ↦ none
    | some workspace ↦
        if not (name_of workspace == "worker")
        then none
        else let home = parent_of workspace in
          if is_user_home home.absolute home.components then some home else none
  ]

  unfoldable pub default_harbor_repo_from_shared_root : String → Option PurePath
  unfolding workspace_root_from_shared_root
  default_harbor_repo_from_shared_root shared_root =
      elim (workspace_root_from_shared_root shared_root) [
        | none ↦ none
        | some workspace ↦ some (child workspace ("harbor" ∷ []))
      ]

  unfoldable pub default_uv_binary_from_shared_root : String → Option PurePath
  unfolding user_home_from_shared_root workspace_root_from_shared_root
  default_uv_binary_from_shared_root shared_root = elim (user_home_from_shared_root shared_root) [
    | some home ↦ some (child home (".local" ∷ "bin" ∷ "uv" ∷ []))
    | none ↦ elim (workspace_root_from_shared_root shared_root) [
      | none ↦ none
      | some workspace ↦ some (child workspace (".local" ∷ "bin" ∷ "uv" ∷ []))
    ]
  ]
