-- ===== src/Core/Layout.antt =====
-- storage/layout.py: the directories under the shared root. A path is its text; `/` joins as
-- pathlib does for a name that is relative.
use agent_eval_orchestrator.Prelude.{String, ◌<>◌}
use agent_eval_orchestrator.Core.Ids.{sanitize_name}

abbrev pub join : String → String → String
join dir name = dir <> "/" <> name

unfoldable pub archives_dir : String → String
archives_dir root = join root "archives"

-- Layout.run_dir
unfoldable pub run_dir : String → String → String → String
unfolding archives_dir
run_dir root owner run_id =
    join (join (join (archives_dir root) (sanitize_name owner)) "runs") (sanitize_name run_id)

-- Layout.batch_dir
unfoldable pub batch_dir : String → String → String → String → String
unfolding run_dir
batch_dir root owner run_id batch_id =
    join (join (run_dir root owner run_id) "batches") (sanitize_name batch_id)
