-- ===== src/Text.antt =====
-- What the program uses of Python's str and of pathlib, over the native texts.
use Prim.Native.Char.{code}
use mathlib.Core.List.{List, [], ◌∷◌}
use agent_eval_orchestrator.Prelude.{
  ℕ, String, Bool, false, not, ◌<>◌, ◌&&◌, ◌||◌, Option, none, some, leb, nat_eq, ◌==◌,
  if◌then◌else◌,
}

-- str.isspace of one character.
unfoldable pub is_space : ℕ → Bool
is_space c =
    (leb 9 c && leb c 13)
    || (leb 28 c && leb c 32)
    || nat_eq c 133
    || nat_eq c 160
    || nat_eq c 5760
    || (leb 8192 c && leb c 8202)
    || nat_eq c 8232
    || nat_eq c 8233
    || nat_eq c 8239
    || nat_eq c 8287
    || nat_eq c 12288

-- str.lstrip(chars) and str.rstrip(chars), for a test on characters.
unfoldable pub lstrip : (ℕ → Bool) → String → String
lstrip p String.[] = ""
lstrip p (String.◌∷◌ c s) = let rest = lstrip p s in if p (code c) then rest else String.◌∷◌ c s

unfoldable pub rstrip : (ℕ → Bool) → String → String
rstrip p String.[] = ""
rstrip p (String.◌∷◌ c s) =
    let rest = rstrip p s in if rest == "" && p (code c) then "" else String.◌∷◌ c rest

unfoldable pub strip : String → String
unfolding lstrip rstrip is_space
strip s = rstrip is_space (lstrip is_space s)

-- `x or ""` for a nullable text, and the truth of such a value.
abbrev pub or_empty : Option String → String
or_empty none = ""
or_empty (some s) = s

abbrev pub is_empty : String → Bool
is_empty s = s == ""

abbrev pub truthy : Option String → Bool
truthy o = not (is_empty (or_empty o))

-- `a or b` for texts.
abbrev pub or_else : String → String → String
or_else a b = if is_empty a then b else a

-- str.split(sep) for one character.
unfoldable pub split : ℕ → String → List String
split sep String.[] = "" ∷ []
split sep (String.◌∷◌ c s) = elim (split sep s) [
  | [] ↦ []
  | w ∷ ws ↦ if nat_eq (code c) sep then "" ∷ w ∷ ws else String.◌∷◌ c w ∷ ws
]

last_component : String → List String → String
last_component name [] = name
last_component name (w ∷ ws) = last_component (if is_empty w || w == "." then name else w) ws

-- Path(s).name: the last component, where "" and "." are no components.
unfoldable pub path_name : String → String
unfolding split last_component
path_name s = last_component "" (split b'/' s)

abbrev underscore_next : String → Bool
underscore_next String.[] = false
underscore_next (String.◌∷◌ c s) = nat_eq (code c) b'_'

-- s.rsplit("__", 1)[0], and `none` where s holds no "__".
unfoldable pub before_last_dunder : String → Option String
before_last_dunder String.[] = none
before_last_dunder (String.◌∷◌ c s) = elim (before_last_dunder s) [
  | some before ↦ some (String.◌∷◌ c before)
  | none ↦ if nat_eq (code c) b'_' && underscore_next s then some "" else none
]

-- sep.join(words).
unfoldable pub joined : String → List String → String
joined sep [] = ""
joined sep (w ∷ []) = w
joined sep (w ∷ v ∷ ws) = w <> sep <> joined sep (v ∷ ws)
