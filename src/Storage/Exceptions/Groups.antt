-- ===== src/Storage/Exceptions/Groups.antt =====
-- The groups of errored cases by worker (storage/store.py).
use agent_eval_orchestrator.Prelude.{String, List, [], ◌∷◌, ◌==◌, if◌then◌else◌}
use agent_eval_orchestrator.Storage.Exceptions.{ExceptionItem, Grouped}

-- grouped.get(w, [])
abbrev pub group_of : String → Grouped → List ExceptionItem
group_of w [] = []
group_of w ((v, items) ∷ groups) = let rest = group_of w groups in if v == w then items else rest
