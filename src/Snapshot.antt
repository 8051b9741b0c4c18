-- ===== src/Snapshot.antt =====
-- app/pacing/metrics_snapshot.py. The driver raises nothing here.
use smart_dialerss.Prelude.{ℕ, ◌+◌, ◌-◌, ◌*◌, Option, none, some, nat_eq, ◌==◌, if◌then◌else◌}
use smart_dialerss.Enums.{AgentState, CallState}
use smart_dialerss.AgentRepo.{count_connected_longer_than}
use smart_dialerss.AgentRepo as Agents
use smart_dialerss.CallRepo.{
  outcome_counts_between, average_talk_time_seconds, average_setup_time_ms,
}
use smart_dialerss.CallRepo as Calls
use smart_dialerss.CampaignRepo.{StoredCampaign}
use smart_dialerss.Database.{Collections, Db}
use smart_dialerss.Floats.{Floats}
use smart_dialerss.ProviderHealth.{HealthManager, get_health, health_factor}
use smart_dialerss.SafetyModels.{SafetySettings}
use smart_dialerss.Pacing.{PacingSnapshot, observed_answer_rate}

module _ (floats : Floats) where
  open floats use {F, of_nat, gt, round_mul}

  -- `_previous_available.get(campaign_id, available_agents)`
  abbrev pub previous_or : Option ℕ → ℕ → ℕ
  previous_or none available_agents = available_agents
  previous_or (some previous) available_agents = previous

  -- The dict that the builder keeps and the health manager that it shares with others
  pub record Builder : Type 0 where
    pub previous_available : ℕ → Option ℕ
    pub health : HealthManager floats

  module _ (c : Collections) where
    unfoldable pub long_connected : Db c → ℕ → ℕ → F → ℕ
    long_connected db now campaign_id avg_talk_time =
        if gt avg_talk_time (of_nat 0)
        then count_connected_longer_than c.agents db.agents campaign_id
            (now - round_mul avg_talk_time 1000)
        else 0

    -- `now` is the date, `time` and `later` are the readings of the monotonic clock for the provider's
    -- health and for its factor.
    unfoldable pub build_snapshot :
        SafetySettings floats
        → Db c
        → Builder
        → ℕ
        → ℕ
        → ℕ
        → StoredCampaign floats
        → PacingSnapshot floats × Builder
    unfolding long_connected
    build_snapshot settings db b now time later stored =
        let campaign = stored.campaign in
        let agent_counts = Agents.count_by_state c.agents db.agents campaign.id in
        let call_counts = Calls.count_by_state c.calls db.calls campaign.id in
        let avg_talk_time = average_talk_time_seconds c.calls floats db.calls campaign.id in
        let window = round_mul settings.answer_rate_window_seconds 1000 in
        let recent = outcome_counts_between c.calls db.calls campaign.id (now - window) now in
        let previous =
          outcome_counts_between c.calls db.calls campaign.id (now - window * 2) (now - window) in
        let available_agents = agent_counts AgentState.available in
        let (health, health') =
          get_health floats settings.health b.health time campaign.provider_name in
        let (factor, health'') =
          health_factor floats settings.health health' later campaign.provider_name in
        (
          record {
            campaign_id = campaign.id;
            mode = campaign.dialing_mode;
            available_agents = available_agents;
            reserved_agents = agent_counts AgentState.reserved;
            dialing_agents = agent_counts AgentState.dialing;
            connected_agents = agent_counts AgentState.connected;
            wrap_up_agents = agent_counts AgentState.wrap_up;
            long_connected_agents = long_connected db now campaign.id avg_talk_time;
            previous_available_agents =
                previous_or (b.previous_available campaign.id) available_agents;
            ringing_calls = call_counts CallState.ringing;
            initiated_calls = call_counts CallState.initiated;
            active_calls = call_counts CallState.ringing + call_counts CallState.initiated;
            recent_answer_rate = observed_answer_rate floats recent.answered recent.total;
            previous_answer_rate = observed_answer_rate floats previous.answered previous.total;
            baseline_answer_rate = stored.baseline_answer_rate;
            avg_talk_time_seconds = avg_talk_time;
            avg_setup_time_ms = average_setup_time_ms c.calls floats db.calls campaign.id;
            provider_status = health.status;
            health_factor = factor;
            captured_at = now;
          },
          record {
            previous_available =
                λ k. if campaign.id == k then some available_agents else b.previous_available k;
            health = health'';
          },
        )
