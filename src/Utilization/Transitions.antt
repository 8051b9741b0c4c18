-- ===== src/Utilization/Transitions.antt =====
-- What the writes on an agent do to the times that are reported of it.
use smart_dialerss.Prelude.{nat_eq}
use smart_dialerss.Enums.{agent_state_eq}
