-- ===== src/Dialers/Tick.antt =====
-- What a tick allocates.
use smart_dialerss.Prelude.{ℕ, ◌-◌, ◌≤◌, ◌≡◌, refl, Option, none, some, arith}
use mathlib.Core.Path.{subst}
use smart_dialerss.Enums.{AgentState}
use smart_dialerss.AgentRepo as Agents
use smart_dialerss.CallRepo as Calls
use smart_dialerss.CampaignRepo.{StoredCampaign}
use smart_dialerss.Database.{Collections, Db}
use smart_dialerss.Floats.{Floats}
use smart_dialerss.SafetyModels.{SafetyDecision}
use smart_dialerss.Safety.{active_call_states, sum_counts}
use smart_dialerss.Safety.Capacity.{evaluate-fits}
use smart_dialerss.Pacing.{PacingSnapshot, compute_request}
use smart_dialerss.Pacing.Requests.{compute_request-bounds}
use smart_dialerss.Allocator.{AllocationResult}
use smart_dialerss.Allocator.Counts.{Accounts, allocate-Accounts}
use smart_dialerss.Dialers.{
  Dialer, DialerSettings, TickResult, TickWorld, Engine, tick, tick_result, engine_config,
}

module _ (floats : Floats) (c : Collections) (settings : DialerSettings floats) where
  tick_result_lem :
      (requested : ℕ) (decision : SafetyDecision floats) (o : Option AllocationResult)
      (r : TickResult floats) (P : TickResult floats → Type 0)
      → tick_result floats c requested decision o ≡ some r
      → ((a : AllocationResult)
          → o ≡ some a
          → P (record { requested = requested; decision = decision; allocation = a }))
      → P r
  tick_result_lem requested decision none r P h k = ground arith
  tick_result_lem requested decision (some a) r P h k = subst P (cc) (k a refl)

  within_limit :
      (dialer : Dialer) (snapshot : PacingSnapshot floats)
      → (compute_request floats snapshot (engine_config floats dialer settings)).requested
        ≤ settings.max_request_per_tick
  unfolding engine_config
  within_limit Dialer.progressive_dialer snapshot = (compute_request-bounds floats snapshot _).0
  within_limit Dialer.predictive_dialer snapshot = (compute_request-bounds floats snapshot _).0

  -- The attempts of a tick are no more than the number that was approved, and the allocation accounts for
  -- each; what was approved is no more than what was requested, than the available agents less the
  -- reserved ones, and than what the active calls leave of the concurrency; no more is requested than the
  -- limit of a tick.
  abbrev pub Limits : Db c → StoredCampaign floats → TickResult floats → Type 0
  Limits db campaign r =
      let id = campaign.campaign.id in
      Accounts r.decision.approved r.allocation
      × (r.decision.approved ≤ r.requested)
      × (r.requested ≤ settings.max_request_per_tick)
      × (r.decision.approved
          ≤ Agents.count_by_state c.agents db.agents id AgentState.available
            - Agents.count_by_state c.agents db.agents id AgentState.reserved)
      × (r.decision.approved
          ≤ campaign.campaign.max_concurrent_calls
            - sum_counts (Calls.count_by_state c.calls db.calls id) active_call_states)

  -- Every tick that is not ended by an exception keeps to the limits, by the counts in the database when
  -- it was evaluated, whichever dialer makes it and whatever other processes write between its steps.
  pub tick-Limits :
      (dialer : Dialer) (e : Engine floats c) (w : TickWorld floats c)
      (campaign : StoredCampaign floats) (worker_id : ℕ) (r : TickResult floats)
      → (tick floats c settings dialer e w campaign worker_id).0 ≡ some r
      → Limits (w.before_evaluation e.db) campaign r
  unfolding tick
  tick-Limits dialer e w campaign worker_id r h =
      tick_result_lem _ _ _ r (Limits (w.before_evaluation e.db) campaign) h (λ a ran.
        let (low, agents, calls) =
          evaluate-fits floats c settings.safety (w.before_evaluation e.db) _ _ _ _ _
            campaign.campaign _ in
        (
          allocate-Accounts floats c settings.dial _ w.each campaign.campaign _ worker_id a ran,
          low,
          within_limit dialer _,
          agents,
          calls,
        ))
