-- ===== src/Examples/Running.antt =====
-- The theorems on the whole program at concrete inputs.
use smart_dialerss.Prelude.{ℕ, ◌≡◌, ◌<◌, true, is_some, List, [], ◌∷◌, refl, some, none, arith}
use smart_dialerss.Enums.{AgentState}
use smart_dialerss.Models.{Agent, build_idempotency_key, Call}
use smart_dialerss.Store.Memory.{memory, read, update, lookup_where, scan, first}
use smart_dialerss.Dialers.{tick}
use smart_dialerss.Worker.{CampaignWorld}
use smart_dialerss.System.{Action, ticks, receives, recovers, asks, act_all}
use smart_dialerss.System.Calls.{act_all-Follows}
use smart_dialerss.CallRepo.Reach.{Reaches-refl}
use smart_dialerss.CallRepo.Progress.{Follows}
use smart_dialerss.Examples.Calls.{ringing-IsWellFormed}
use smart_dialerss.Examples.{
  under_way, ringing_call, cancelled_event, ringing_event, in_memory, agents_in_memory, free_agent,
  idle, fractions, clock,
}
use smart_dialerss.Examples.Dialing.{monitors}
use smart_dialerss.Examples.Ticking.{dialer_settings, stored_campaign, ticking}
use smart_dialerss.System.Agents.{act_all-recoverable}
use smart_dialerss.AgentRepo.Reach.{Reaches-refl as unwritten}
use smart_dialerss.AgentRepo.Leases.{IsLeased}
use smart_dialerss.AgentRepo.{release_expired_agent_lease}
use smart_dialerss.AgentSm as AgentSm
use smart_dialerss.CallSm as CallSm
use smart_dialerss.AgentRepo as Agents
use smart_dialerss.BorrowerRepo as Borrowers
use smart_dialerss.CallRepo as Calls
use smart_dialerss.Safety as Safety
use smart_dialerss.Allocator as Allocator
use smart_dialerss.Dial as Dial
use smart_dialerss.Reservation as Reservation
use smart_dialerss.Snapshot as Snapshot
use smart_dialerss.ProviderHealth as ProviderHealth
use smart_dialerss.Availability as Availability
use smart_dialerss.Pacing as Pacing
use smart_dialerss.Dialers as Dialers
use smart_dialerss.Worker as Worker
use smart_dialerss.System as System
use smart_dialerss.Api as Api

abbrev campaign_world : CampaignWorld fractions in_memory dialer_settings
campaign_world = record { tick_world = ticking; found_at = 20000; clock = clock }

-- A tick of the campaign, the end of the call, an event that is late, a run of recovery, and a pause of the
-- agent
abbrev actions : List (Action fractions in_memory dialer_settings)
actions =
    ticks (λ _. none) monitors campaign_world stored_campaign 5
    ∷ receives clock cancelled_event
    ∷ receives clock ringing_event
    ∷ recovers (λ provider id. none) 400000 clock
    ∷ asks "" none (λ s. s) clock 1 "pause"
    ∷ []

act_all-Follows_example :
    (d : Call) × ((in_memory).calls.find_one
        (act_all fractions in_memory dialer_settings under_way actions).calls
        3
      ≡ some d)
    × Follows ringing_call d
unfolding memory read
act_all-Follows_example =
    act_all-Follows fractions in_memory dialer_settings actions under_way 3 ringing_call
      (
        (
          λ db. Reaches-refl (in_memory).calls db.calls,
          λ db. Reaches-refl (in_memory).calls db.calls,
          λ n db. Reaches-refl (in_memory).calls db.calls,
        ),
        (tt, (tt, (tt, (tt, tt)))),
      )
      refl ringing-IsWellFormed

-- A tick that dials the free borrower for the free agent, and the agent's request for a pause, which is refused
abbrev dial_and_pause : List (Action fractions in_memory dialer_settings)
dial_and_pause =
    ticks (λ _. none) monitors campaign_world stored_campaign 5
    ∷ asks "" none (λ s. s) clock 1 "pause"
    ∷ []

abbrev dialled_agent : Agent
dialled_agent = record free_agent {
  state = AgentState.dialing;
  state_version = 2;
  reserved_by = some 5;
  reserved_at = some 1000;
  lease_expires_at = some 31000;
  current_call_id = some 40;
  state_changed_at = 1002;
  busy_time_ms = 2;
}

idle-IsLeased :
    (j : ℕ) (a : Agent) → (in_memory).agents.find_one (idle).agents j ≡ some a → IsLeased a
unfolding memory read
idle-IsLeased j a h = ground arith

dialled :
    (in_memory).agents.find_one
      (act_all fractions in_memory dialer_settings idle dial_and_pause).agents
      1
    ≡ some dialled_agent
unfolding System.act_all System.act Worker.tick_campaign Worker.release_finished_wrap_ups
    Worker.find_finished_wrap_ups Worker.release_each Agents.find_expired_wrap_ups
    Api.post_agent_action Api.require_api_key Api.agent_action Api.agent_actions Api.act
    Api.after_transition Agents.find_by_id memory read update lookup_where scan first
    Allocator.allocate Allocator.rounds Allocator.attempt Allocator.after_reserve Dial.dial
    Dial.dial_new Dial.dial_call Dial.dial_initiated Dial.start_dialing Dial.after_originate
    Reservation.reserve_pair Reservation.claim_agent Reservation.claim_agents
    Reservation.claim_borrower Reservation.claim_borrowers Reservation.with_agent
    Reservation.with_borrower Agents.find_claimable_agents Agents.candidate_window
    Agents.try_reserve_agent Agents.can_reserve Agents.reserve Agents.build_lease_fields
    Agents.transition_agent Agents.can_move Agents.move Agents.bind_call
    Agents.time_accounting_updates AgentSm.validate_transition Borrowers.find_claimable_borrowers
    Borrowers.is_claimable Borrowers.try_reserve_borrower Borrowers.reserve Calls.create_call
    Calls.new_call Calls.derive Calls.transition_call Calls.can_advance Calls.advance
    Calls.attach_provider_call_id Calls.attach CallSm.is_terminal CallSm.rank build_idempotency_key
    Dialers.tick Snapshot.build_snapshot Pacing.compute_request Pacing.compute Pacing.request_for
    Pacing.free_capacity Safety.evaluate Safety.read_capacity Safety.decide Safety.snapshot_age_ms
    Safety.judge Safety.failure_rate Snapshot.long_connected Dialers.engine_config
    Pacing.effective_answer_rate Pacing.blended_answer_rate Pacing.clamp Pacing.in_flight
    Pacing.volatility_factor_of Pacing.is_volatile Pacing.observed_answer_rate Agents.count_by_state
    Calls.count_by_state ProviderHealth.get_health ProviderHealth.health_factor
    Calls.outcome_counts_between Calls.average_talk_time_seconds Agents.count_expired_leases
    AgentSm.allowed_sources Availability.record_and_detect
dialled = refl

act_all-recoverable_example :
    (is_some (dialled_agent).reserved_by ≡ true)
    × (is_some (dialled_agent).lease_expires_at ≡ true)
    × ((deadline : ℕ) × ((dialled_agent).lease_expires_at ≡ some deadline)
        × ((now : ℕ)
            → deadline < now
            → (b : Agent) × ((release_expired_agent_lease agents_in_memory
                  (act_all fractions in_memory dialer_settings idle dial_and_pause).agents
                  dialled_agent
                  now).0
                ≡ some b)
              × (b.state ≡ AgentState.available)
              × (b.reserved_by ≡ none)))
act_all-recoverable_example =
    act_all-recoverable fractions in_memory dialer_settings dial_and_pause idle
      (
        (
          λ db. unwritten (in_memory).agents db.agents,
          λ db. unwritten (in_memory).agents db.agents,
          λ n db. unwritten (in_memory).agents db.agents,
        ),
        (λ s. unwritten (in_memory).agents s, tt),
      )
      idle-IsLeased dialled_agent dialled refl
