-- ===== src/Utilization.antt =====
-- app/metrics/utilization.py: the times of an agent up to a moment. The ratios, which are floats, stay
-- the pair of their terms; none stands for a denominator of 0.
pub mod Transitions
use smart_dialerss.Prelude.{
  ℕ, ◌+◌, ◌-◌, Bool, List, [], ◌∷◌, Option, none, some, Eq, nat_eq, ◌==◌, contains, length,
  if◌then◌else◌,
}
use smart_dialerss.Enums.{AgentState, agent_state_eq}
use smart_dialerss.Models.{Agent}

-- UTILIZATION_DENOMINATOR_STATES
abbrev pub utilization_denominator_states : List AgentState
utilization_denominator_states =
    AgentState.available ∷ AgentState.reserved ∷ AgentState.dialing ∷ AgentState.connected
    ∷ AgentState.wrap_up ∷ []

pub record AgentUtilization : Type 0 where
  pub agent_id : ℕ
  pub connected_time_ms : ℕ
  pub productive_time_ms : ℕ
  pub counted_time_ms : ℕ
  pub talk_utilization : Option (ℕ × ℕ)
  pub productive_utilization : Option (ℕ × ℕ)

pub record CampaignUtilization : Type 0 where
  pub connected_time_ms : ℕ
  pub productive_time_ms : ℕ
  pub counted_time_ms : ℕ
  pub talk_utilization : Option (ℕ × ℕ)
  pub productive_utilization : Option (ℕ × ℕ)
  pub agents_counted : ℕ

unfoldable pub ratio : ℕ → ℕ → Option (ℕ × ℕ)
ratio numerator denominator = if denominator == 0 then none else some (numerator, denominator)

unfoldable pub elapsed_in_current_state_ms : Agent → ℕ → ℕ
elapsed_in_current_state_ms agent now =
    if contains agent.state utilization_denominator_states then now - agent.state_changed_at else 0

-- The connected, the productive and the counted time
unfoldable pub live_totals : Agent → ℕ → ℕ × ℕ × ℕ
unfolding elapsed_in_current_state_ms
live_totals agent now =
    let elapsed = elapsed_in_current_state_ms agent now in
    let counted = agent.busy_time_ms + agent.available_time_ms + elapsed in
    let connected =
      if agent.state == AgentState.connected
      then agent.connected_time_ms + elapsed
      else agent.connected_time_ms in
    let wrap_up =
      if agent.state == AgentState.wrap_up
      then agent.wrap_up_time_ms + elapsed
      else agent.wrap_up_time_ms in
    (connected, connected + wrap_up, counted)

unfoldable pub agent_utilization : Agent → ℕ → AgentUtilization
unfolding live_totals ratio
agent_utilization agent now =
    let (connected, productive, counted) = live_totals agent now in
    record {
      agent_id = agent.id;
      connected_time_ms = connected;
      productive_time_ms = productive;
      counted_time_ms = counted;
      talk_utilization = ratio connected counted;
      productive_utilization = ratio productive counted;
    }

abbrev pub add_totals : ℕ × ℕ × ℕ → ℕ × ℕ × ℕ → ℕ × ℕ × ℕ
add_totals (a, b, c) (a', b', c') = (a + a', b + b', c + c')

unfoldable pub sum_totals : List Agent → ℕ → ℕ × ℕ × ℕ
unfolding live_totals
sum_totals [] now = (0, 0, 0)
sum_totals (agent ∷ agents) now = add_totals (live_totals agent now) (sum_totals agents now)

unfoldable pub campaign_utilization : List Agent → ℕ → CampaignUtilization
unfolding sum_totals ratio
campaign_utilization agents moment =
    let (connected, productive, counted) = sum_totals agents moment in
    record {
      connected_time_ms = connected;
      productive_time_ms = productive;
      counted_time_ms = counted;
      talk_utilization = ratio connected counted;
      productive_utilization = ratio productive counted;
      agents_counted = length agents;
    }
