-- ===== src/Scheduling/Triage/Classes.antt =====
-- Which classes classify_issue_class of core/triage.py can find, and what triage then refuses.
use tandem_agents.Prelude.{String, Bool, str_eq, any}
use tandem_agents.Scheduling.Triage.{default_allowed_classes}

-- One of the four classes of the default list.
is_known : String → Bool
unfolding any
is_known c = any (str_eq c) default_allowed_classes
