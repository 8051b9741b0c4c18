-- ===== src/Examples/Ticking.antt =====
-- The theorems on pacing, the dialers and the dialer worker at concrete inputs.
use smart_dialerss.Prelude.{ℕ, ◌≡◌, [], ◌∷◌, ◌-◌, refl, ap, false, Option, some, none, arith, All}
use smart_dialerss.Enums.{AgentState, DialingMode, ProviderHealthStatus, SafetyVerdict}
use smart_dialerss.AgentSm as AgentSm
use smart_dialerss.CallSm as CallSm
use smart_dialerss.Models.{Agent, build_idempotency_key, seconds}
use smart_dialerss.AgentRepo as Agents
use smart_dialerss.BorrowerRepo as Borrowers
use smart_dialerss.CallRepo as Calls
use smart_dialerss.CampaignRepo.{StoredCampaign}
use smart_dialerss.Database.{Db}
use smart_dialerss.Store.Memory.{memory, read, update, lookup_where, scan, first}
use Prim.Native.String.{String}
use smart_dialerss.SafetyModels.{SafetyConstraintResult}
use smart_dialerss.Safety as Safety
use smart_dialerss.Allocator as Allocator
use smart_dialerss.Dial as Dial
use smart_dialerss.Dial.{Originated}
use smart_dialerss.Reservation as Reservation
use smart_dialerss.Snapshot as Snapshot
use smart_dialerss.ProviderHealth as ProviderHealth
use smart_dialerss.Availability as Availability
use smart_dialerss.Pacing as Pacing
use smart_dialerss.Pacing.{
  PacingSnapshot, PacingEngineConfig, compute_request, free_capacity, effective_answer_rate,
  in_flight, is_volatile,
}
use smart_dialerss.Pacing.Requests.{FloatLaws}
use smart_dialerss.Dialers.{
  Dialer, DialerSettings, TickWorld, Engine, TickResult, tick, engine_config,
}
use smart_dialerss.Dialers as Dialers
use smart_dialerss.Dialers.Progressive.{compute_request-progressive}
use smart_dialerss.Dialers.Tick.{Limits, tick-Limits}
use smart_dialerss.Worker.{find_finished_wrap_ups, release_finished_wrap_ups}
use smart_dialerss.Worker.WrapUps.{IsReleased, IsKept, release_finished_wrap_ups-releases}
use smart_dialerss.Examples.{
  in_memory, agents_in_memory, agents_of, free_agent, campaign, idle, fractions, clock,
}
use smart_dialerss.Examples.Dialing.{safety, monitors}
use smart_dialerss.Examples.Allocating.{dialing, quiet}

abbrev one_over : ℕ → ℕ × ℕ
one_over n = (n, 1)

difference :
    (m n : ℕ)
    → (fractions).floor (
        (fractions).fmax
          ((fractions).of_nat 0)
          ((fractions).sub ((fractions).of_nat m) ((fractions).of_nat n)))
      ≡ m - n
difference m n = ground arith

laws : FloatLaws fractions
laws = record {
  mul_one = λ n. ap one_over (omega arith);
  add_nothing = λ m n. ap one_over (omega arith);
  quotient_one = λ n. ap (λ k. some (one_over k)) (omega arith);
  floor_exact = λ n h. omega arith;
  floor_difference = λ m n h k. difference m n;
}

abbrev pub dialer_settings : DialerSettings fractions
dialer_settings = record {
  soon_free_weight = (1, 2);
  safety_margin = (17, 20);
  min_answer_rate = (1, 20);
  max_answer_rate = (19, 20);
  volatility_threshold = (3, 20);
  volatility_factor = (3, 5);
  max_request_per_tick = 50;
  safety = safety;
  dial = dialing;
}

abbrev snapshot : PacingSnapshot fractions
snapshot = record {
  campaign_id = 7;
  mode = DialingMode.progressive;
  available_agents = 9;
  reserved_agents = 1;
  dialing_agents = 2;
  connected_agents = 3;
  wrap_up_agents = 4;
  long_connected_agents = 1;
  previous_available_agents = 8;
  ringing_calls = 2;
  initiated_calls = 1;
  active_calls = 3;
  recent_answer_rate = none;
  previous_answer_rate = none;
  baseline_answer_rate = (2, 5);
  avg_talk_time_seconds = (30, 1);
  avg_setup_time_ms = (400, 1);
  provider_status = ProviderHealthStatus.healthy;
  health_factor = (1, 1);
  captured_at = 1000;
}

compute_request-progressive_example :
    (compute_request fractions snapshot
      (engine_config fractions Dialer.progressive_dialer dialer_settings)).requested
    ≡ 5
unfolding in_flight is_volatile
compute_request-progressive_example =
    compute_request-progressive fractions laws dialer_settings snapshot refl refl (omega arith)
      (omega arith)

abbrev wrapped_agent : Agent
wrapped_agent = record free_agent { state = AgentState.wrap_up; state_changed_at = 100 }

abbrev wrapped : Db in_memory
unfolding memory
wrapped = record idle { agents = agents_of wrapped_agent }

release_finished_wrap_ups-releases_example :
    let s' = release_finished_wrap_ups agents_in_memory (wrapped).agents 20000 clock 10 7 in
    All
      (λ (d : Agent).
        IsReleased 7
          (20000 - seconds 10)
          ((agents_in_memory).find_one (wrapped).agents d.id)
          ((agents_in_memory).find_one s' d.id))
      (find_finished_wrap_ups agents_in_memory (wrapped).agents 20000 10 7)
    × ((j : ℕ)
        → IsKept 7
            (20000 - seconds 10)
            ((agents_in_memory).find_one (wrapped).agents j)
            ((agents_in_memory).find_one s' j))
release_finished_wrap_ups-releases_example =
    release_finished_wrap_ups-releases agents_in_memory (wrapped).agents 20000 clock 10 7

abbrev pub stored_campaign : StoredCampaign fractions
stored_campaign = record { campaign = campaign; baseline_answer_rate = (2, 5) }

abbrev engine : Engine fractions in_memory
engine = record { db = idle; previous_available = λ _. none; monitors = monitors }

abbrev pub ticking : TickWorld fractions in_memory
ticking = record {
  now = 1000;
  time = 50;
  later = 50;
  evaluated_at = 1001;
  evaluated_time = 51;
  aged_at = 1001;
  fails = false;
  before_evaluation = λ db. db;
  before_allocation = λ db. db;
  each = λ n. quiet (Originated.accepted 50 800);
}

abbrev constraint : String → ℕ → Option (ℕ × ℕ) → SafetyConstraintResult fractions
constraint name limit value = record { name = name; limit = limit; value = value; binding = false }

-- One call is requested, approved and placed.
abbrev ticked : TickResult fractions
ticked = record {
  requested = 1;
  decision = record {
    requested = 1;
    approved = 1;
    verdict = SafetyVerdict.approved;
    constraints =
        constraint "agent_capacity" 1 (some (1, 1))
        ∷ constraint "campaign_concurrency" 10 (some (0, 1))
        ∷ constraint "ringing_ceiling" 2 (some (0, 1))
        ∷ constraint "provider_health" 1 none
        ∷ constraint "progressive_mode_cap" 1 (some (1, 1))
        ∷ constraint "stale_state" 1 (some (0, 1))
        ∷ constraint "availability_drop" 1 (some (0, 1))
        ∷ constraint "failure_rate" 1 (some (0, 1))
        ∷ [];
    binding_constraint = none;
    snapshot_age = 1;
    fallback_reason = none;
  };
  allocation = record { attempted = 1; allocated = 1; failed = 0; contended = 0 };
}

tick-Limits_example : Limits fractions in_memory dialer_settings idle stored_campaign ticked
unfolding memory read update lookup_where scan first Allocator.allocate Allocator.rounds
    Allocator.attempt Allocator.after_reserve Dial.dial Dial.dial_new Dial.dial_call
    Dial.dial_initiated Dial.start_dialing Dial.after_originate Reservation.reserve_pair
    Reservation.claim_agent Reservation.claim_agents Reservation.claim_borrower
    Reservation.claim_borrowers Reservation.with_agent Reservation.with_borrower
    Agents.find_claimable_agents Agents.candidate_window Agents.try_reserve_agent Agents.can_reserve
    Agents.reserve Agents.build_lease_fields Agents.transition_agent Agents.can_move Agents.move
    Agents.bind_call Agents.time_accounting_updates AgentSm.validate_transition
    Borrowers.find_claimable_borrowers Borrowers.is_claimable Borrowers.try_reserve_borrower
    Borrowers.reserve Calls.create_call Calls.new_call Calls.derive Calls.transition_call
    Calls.can_advance Calls.advance Calls.attach_provider_call_id Calls.attach CallSm.is_terminal
    CallSm.rank build_idempotency_key Dialers.tick Snapshot.build_snapshot Pacing.compute_request
    Pacing.compute Pacing.request_for Pacing.free_capacity Safety.evaluate Safety.read_capacity
    Safety.decide Safety.snapshot_age_ms Safety.judge Safety.failure_rate Snapshot.long_connected
    Dialers.engine_config Pacing.effective_answer_rate Pacing.blended_answer_rate Pacing.clamp
    Pacing.in_flight Pacing.volatility_factor_of Pacing.is_volatile Pacing.observed_answer_rate
    Agents.count_by_state Calls.count_by_state ProviderHealth.get_health
    ProviderHealth.health_factor Calls.outcome_counts_between Calls.average_talk_time_seconds
    Agents.count_expired_leases AgentSm.allowed_sources Availability.record_and_detect
tick-Limits_example =
    tick-Limits fractions in_memory dialer_settings Dialer.predictive_dialer engine ticking
      stored_campaign 5 ticked refl
