-- ===== src/Core/Ids.antt =====
-- core/ids.py: sanitize_name. The other functions read the clock or draw random ids; their results
-- are arguments of the operations that use them.
pub mod Names
use Prim.Native.Char.{code}
use agent_eval_orchestrator.Prelude.{
  ℕ, String, Bool, true, false, ◌&&◌, ◌||◌, leb, nat_eq, if◌then◌else◌,
}
use agent_eval_orchestrator.Text.{lstrip, rstrip, strip, is_empty}

-- [A-Za-z0-9._-]
unfoldable pub is_name_char : ℕ → Bool
is_name_char c =
    (leb b'A' c && leb c b'Z')
    || (leb b'a' c && leb c b'z')
    || (leb b'0' c && leb c b'9')
    || nat_eq c b'.'
    || nat_eq c b'_'
    || nat_eq c b'-'

-- re.sub(r"[^A-Za-z0-9._-]+", "-", s): a run of other characters becomes one dash. The flag says
-- that the character before was such.
unfoldable pub dash_runs : Bool → String → String
unfolding is_name_char
dash_runs in_run String.[] = ""
dash_runs in_run (String.◌∷◌ c s) =
    let kept = dash_runs false s in
    let dropped = dash_runs true s in
    if is_name_char (code c)
    then String.◌∷◌ c kept
    else if in_run
    then dropped
    else String.◌∷◌ "-" dropped

-- The characters of strip(".-_").
unfoldable pub is_edge : ℕ → Bool
is_edge c = nat_eq c b'.' || nat_eq c b'-' || nat_eq c b'_'

-- sanitize_name
unfoldable pub sanitize_name : String → String
unfolding strip dash_runs is_edge lstrip rstrip
sanitize_name value =
    let cleaned = rstrip is_edge (lstrip is_edge (dash_runs false (strip value))) in
    if is_empty cleaned then "unknown" else cleaned
