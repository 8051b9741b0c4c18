-- ===== src/Safety.antt =====
-- app/safety/safety_controller.py: the reading of the capacity, the decision and the evaluation.
-- Storing the decision, whose failure the controller ignores, is left out.
pub mod Bounds
pub mod Verdict
pub mod Capacity
use Prim.Native.String.{String}
use smart_dialerss.Prelude.{
  ℕ, ◌+◌, ◌-◌, Bool, true, false, ◌&&◌, ◌||◌, List, [], ◌∷◌, Option, none, some, Eq, nat_eq, ◌==◌,
  ltb, is_some, if◌then◌else◌,
}
use smart_dialerss.Enums.{AgentState, CallState, SafetyVerdict}
use smart_dialerss.Models.{Campaign}
use smart_dialerss.AgentRepo.{count_expired_leases}
use smart_dialerss.AgentRepo as Agents
use smart_dialerss.CallRepo.{OutcomeCounts, outcome_counts_between}
use smart_dialerss.CallRepo as Calls
use smart_dialerss.Database.{Collections, Db}
use smart_dialerss.Floats.{Floats}
use smart_dialerss.Availability.{AvailabilityDrop, Tracker, record_and_detect}
use smart_dialerss.ProviderHealth.{HealthManager, get_health}
use smart_dialerss.SafetyModels.{
  PacingRequest, SafetySettings, CapacityReading, SafetyDecision, should_fallback_to_progressive,
}
use smart_dialerss.Constraints.{build_constraints, mark_binding, binding_name, approve}

-- ACTIVE_CALL_STATES
abbrev pub active_call_states : List CallState
active_call_states =
    CallState.reserved ∷ CallState.initiated ∷ CallState.ringing ∷ CallState.answered
    ∷ CallState.connected ∷ []

abbrev pub sum_counts : (CallState → ℕ) → List CallState → ℕ
sum_counts counts [] = 0
sum_counts counts (state ∷ states) = counts state + sum_counts counts states

unfoldable pub judge : ℕ → ℕ → Option String → SafetyVerdict
judge requested approved fallback_reason =
    if requested == 0
    then SafetyVerdict.approved
    else if is_some fallback_reason && ltb 0 approved
    then SafetyVerdict.fallback_progressive
    else if approved == 0
    then SafetyVerdict.rejected
    else if ltb approved requested
    then SafetyVerdict.reduced
    else SafetyVerdict.approved

unfoldable pub snapshot_age_ms : ℕ → PacingRequest → ℕ
snapshot_age_ms now request = now - request.snapshot_captured_at

module _ (floats : Floats) where
  open floats use {F, of_nat, div, mul, gt, int_mul, round_mul}

  -- 0 calls if there is no outcome yet, else the share that the system failed
  unfoldable pub failure_rate : OutcomeCounts → F
  failure_rate outcomes =
      if outcomes.total == 0 then of_nat 0 else div outcomes.system_failed outcomes.total

  abbrev drop_ratio_of : Option (AvailabilityDrop floats) → F
  drop_ratio_of none = of_nat 0
  drop_ratio_of (some drop) = drop.drop_ratio

  -- `_evaluate` from the reading and the drop on
  unfoldable pub decide :
      SafetySettings floats
      → Campaign
      → PacingRequest
      → CapacityReading floats
      → ℕ
      → F
      → SafetyDecision floats
  unfolding should_fallback_to_progressive build_constraints mark_binding binding_name approve judge
  decide settings campaign request reading age availability_drop_ratio =
      let snapshot_is_stale =
        gt (of_nat age) (mul settings.max_snapshot_age_seconds (of_nat 1000))
        || ltb 0 reading.expired_leases in
      let ringing_ceiling = int_mul settings.max_ringing_ratio reading.available_agents in
      let fallback = should_fallback_to_progressive floats (record {
        provider_status = reading.provider_status;
        availability_drop_ratio = availability_drop_ratio;
        availability_drop_threshold = settings.availability_drop_threshold;
        ringing_calls = reading.ringing_calls;
        ringing_ceiling = ringing_ceiling;
        call_failure_rate = reading.call_failure_rate;
        failure_rate_threshold = settings.high_failure_rate_threshold;
        snapshot_is_stale = snapshot_is_stale;
      }) in
      let constraints =
        build_constraints floats settings campaign request reading reading.available_agents
          ringing_ceiling snapshot_is_stale availability_drop_ratio in
      let approved = approve floats request.requested constraints in
      let marked = mark_binding floats constraints approved request.requested in
      record {
        requested = request.requested;
        approved = approved;
        verdict = judge request.requested approved fallback;
        constraints = marked;
        binding_constraint = binding_name floats marked;
        snapshot_age = age;
        fallback_reason = fallback;
      }

  -- The decision if the evaluation raises
  unfoldable pub error_decision : PacingRequest → SafetyDecision floats
  error_decision request = record {
    requested = request.requested;
    approved = 0;
    verdict = SafetyVerdict.rejected;
    constraints = [];
    binding_constraint = some "evaluation_error";
    snapshot_age = 0;
    fallback_reason = some "evaluation_error";
  }

  -- The state that the controller reads and writes besides the database
  pub record Monitors : Type 0 where
    pub tracker : Tracker floats
    pub health : HealthManager floats

  module _ (c : Collections) where
    -- `now` is the date, `time` the reading of the monotonic clock.
    unfoldable pub read_capacity :
        SafetySettings floats
        → Db c
        → HealthManager floats
        → ℕ
        → ℕ
        → Campaign
        → CapacityReading floats × HealthManager floats
    unfolding failure_rate
    read_capacity settings db health now time campaign =
        let call_counts = Calls.count_by_state c.calls db.calls campaign.id in
        let outcomes =
          outcome_counts_between c.calls db.calls campaign.id
            (now - round_mul settings.answer_rate_window_seconds 1000) now in
        let (provider, health') =
          get_health floats settings.health health time campaign.provider_name in
        (
          record {
            available_agents =
                Agents.count_by_state c.agents db.agents campaign.id AgentState.available;
            reserved_agents =
                Agents.count_by_state c.agents db.agents campaign.id AgentState.reserved;
            active_calls = sum_counts call_counts active_call_states;
            ringing_calls = call_counts CallState.ringing;
            expired_leases = count_expired_leases c.agents db.agents now;
            call_failure_rate = failure_rate outcomes;
            provider_status = provider.status;
          },
          health',
        )

    -- `later` is the time at which the age of the snapshot is taken. `fails` says whether the driver
    -- raises while the capacity is read, at which the decision rejects.
    unfoldable pub evaluate :
        SafetySettings floats
        → Db c
        → Monitors
        → ℕ
        → ℕ
        → ℕ
        → Bool
        → Campaign
        → PacingRequest
        → SafetyDecision floats × Monitors
    unfolding read_capacity decide error_decision snapshot_age_ms
    evaluate settings db m now time later fails campaign request =
        if fails
        then (error_decision request, m)
        else (let (reading, health') = read_capacity settings db m.health now time campaign in
            let (drop, tracker') =
              record_and_detect floats settings.availability_drop_threshold m.tracker campaign.id
                reading.available_agents in
            (
              decide settings campaign request reading (snapshot_age_ms later request)
                  (drop_ratio_of drop),
              record { tracker = tracker'; health = health' },
            ))
