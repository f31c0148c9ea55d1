-- ===== src/Tests/Names.antt =====
-- Names of directories.
use agent_eval_orchestrator.Prelude.{◌≡◌, refl}
use agent_eval_orchestrator.Core.Ids.{sanitize_name}
use agent_eval_orchestrator.Core.Ids.Names.{IsFileName, sanitize_name-IsFileName}

sanitize_name_test : sanitize_name " ../etc/my task! " ≡ "etc-my-task"
unfolding sanitize_name
sanitize_name_test = refl

sanitize_name-IsFileName_example : IsFileName (sanitize_name "../etc/passwd")
sanitize_name-IsFileName_example = sanitize_name-IsFileName "../etc/passwd"
