-- ===== src/Examples/Dialing.antt =====
-- The theorems on reservations, the safety controller and the allocator at concrete inputs.
use Prim.Native.String.{String}
use smart_dialerss.Prelude.{
  ℕ, ◌≡◌, ◌↔◌, ◌<◌, ◌≤◌, ◌-◌, inr, refl, List, [], ◌∷◌, Option, none, true, false, arith, nat_eq,
  All, count, is_some,
}
use smart_dialerss.Enums.{AgentState, ProviderHealthStatus, SafetyVerdict, DialingMode}
use smart_dialerss.AgentSm.{TransitionActor, allowed_sources}
use smart_dialerss.AgentSm as AgentSm
use smart_dialerss.AgentRepo as Agents
use smart_dialerss.BorrowerRepo as Borrowers
use smart_dialerss.CallRepo as Calls
use smart_dialerss.BorrowerRepo.{BorrowerReleaseOutcome}
use smart_dialerss.Store.Memory.{memory, read}
use smart_dialerss.SafetyModels.{
  PacingRequest, SafetySettings, CapacityReading, SafetyConstraintResult,
}
use smart_dialerss.Constraints.{approve, mark_binding, least, limits}
use smart_dialerss.Safety.{judge, decide, evaluate, Monitors, active_call_states, sum_counts}
use smart_dialerss.Safety.Bounds.{approve-greatest, mark_binding-once}
use smart_dialerss.Safety.Verdict.{judge_iff}
use smart_dialerss.Safety.Capacity.{decide-closed, evaluate-fits}
use smart_dialerss.ProviderHealth.{
  OriginateSample, HealthManager, trim, get_health, should_allow_retry,
}
use smart_dialerss.ProviderHealth.Failures.{get_health-unhealthy}
use smart_dialerss.Reservation.{Fault, ReservationPair, reserve_pair, release_pair}
use smart_dialerss.Reservation.Pair.{IsWhole, reserve_pair-IsWhole}
use smart_dialerss.Reservation.Freeing.{IsFreeAgent, IsFreeBorrower, release_pair-frees}
use smart_dialerss.Examples.{
  in_memory, settings, busy_agent, busy_borrower, campaign, idle, under_way, fractions, clock,
}

reserve_pair-IsWhole_example :
    IsWhole in_memory settings idle 7 5
      (Fault.at_call 1 true)
      (reserve_pair in_memory settings idle clock clock 50 (Fault.at_call 1 true) 7 5)
reserve_pair-IsWhole_example =
    reserve_pair-IsWhole in_memory settings idle clock clock 50 (Fault.at_call 1 true) 7 5

abbrev held_pair : ReservationPair
held_pair = record { campaign_id = 7; worker_id = 5; agent = busy_agent; borrower = busy_borrower }

release_pair-frees_example :
    let db =
      release_pair in_memory settings under_way 900 901 held_pair BorrowerReleaseOutcome.retry in
    IsFreeAgent ((in_memory).agents.find_one db.agents 1)
    × IsFreeBorrower ((in_memory).borrowers.find_one db.borrowers 2)
unfolding memory read Agents.can_release allowed_sources Borrowers.can_release
    AgentSm.is_actor_allowed
release_pair-frees_example =
    release_pair-frees in_memory settings under_way 900 901 held_pair BorrowerReleaseOutcome.retry
      busy_agent busy_borrower refl refl refl refl

abbrev constraints : List (SafetyConstraintResult fractions)
constraints =
    record { name = "agent_capacity"; limit = 4; value = none; binding = false }
    ∷ record { name = "campaign_concurrency"; limit = 2; value = none; binding = false }
    ∷ record { name = "ringing_ceiling"; limit = 2; value = none; binding = false }
    ∷ []

approve-greatest_example :
    (approve fractions 6 constraints ≤ 6)
    × All
        (λ (c : SafetyConstraintResult fractions). approve fractions 6 constraints ≤ c.limit)
        constraints
    × ((n : ℕ)
        → n ≤ 6
        → All (λ (c : SafetyConstraintResult fractions). n ≤ c.limit) constraints
        → n ≤ approve fractions 6 constraints)
approve-greatest_example = approve-greatest fractions 6 constraints

mark_binding-once_example :
    let marked = mark_binding fractions constraints (approve fractions 6 constraints) 6 in
    (count (λ (c : SafetyConstraintResult fractions). c.binding) marked ≡ 1)
    × All
        (λ (c : SafetyConstraintResult fractions).
          c.binding ≡ true → c.limit ≡ approve fractions 6 constraints)
        marked
unfolding approve least limits
mark_binding-once_example = mark_binding-once fractions 6 constraints (omega arith)

judge_iff_example :
    ((judge 6 2 none ≡ SafetyVerdict.rejected) ↔ ((0 < 6) × (◌≡◌ {A = ℕ} 2 0)))
    × ((judge 6 2 none ≡ SafetyVerdict.reduced)
        ↔ ((0 < 2) × (2 < 6) × (◌≡◌ {A = Option String} none none)))
    × ((judge 6 2 none ≡ SafetyVerdict.fallback_progressive)
        ↔ ((0 < 2) × (is_some {A = String} none ≡ true)))
judge_iff_example = judge_iff 6 2 none (omega arith)

abbrev pub safety : SafetySettings fractions
safety = record {
  max_ringing_ratio = (2, 1);
  max_snapshot_age_seconds = (5, 1);
  availability_drop_threshold = (1, 4);
  high_failure_rate_threshold = (3, 10);
  answer_rate_window_seconds = (120, 1);
  health = record {
    health_window_seconds = 60;
    health_min_samples = 10;
    unhealthy_consecutive_failures = 5;
    unhealthy_timeout_rate = (1, 2);
    degraded_failure_rate = (1, 5);
    degraded_latency_ms = (3000, 1);
  };
}

abbrev request : PacingRequest
request = record { requested = 3; mode = DialingMode.predictive; snapshot_captured_at = 900 }

abbrev unhealthy_reading : CapacityReading fractions
unhealthy_reading = record {
  available_agents = 4;
  reserved_agents = 1;
  active_calls = 1;
  ringing_calls = 1;
  expired_leases = 0;
  call_failure_rate = (0, 1);
  provider_status = ProviderHealthStatus.unhealthy;
}

decide-closed_example :
    let d = decide fractions safety campaign request unhealthy_reading 100 (0, 1) in
    (d.approved ≡ 0) × (0 < 3 → d.verdict ≡ SafetyVerdict.rejected)
decide-closed_example =
    decide-closed fractions safety campaign request unhealthy_reading 100 (0, 1) (inr refl)

abbrev pub monitors : Monitors fractions
monitors = record {
  tracker = λ _. none;
  health = record { samples = λ _. []; events_received = λ _. 0; last_status = λ _. none };
}

evaluate-fits_example :
    let n =
      (evaluate fractions in_memory safety idle monitors 1000 50 1001 false campaign
        request).0.approved in
    (n ≤ 3)
    × (n
        ≤ Agents.count_by_state (in_memory).agents (idle).agents 7 AgentState.available
          - Agents.count_by_state (in_memory).agents (idle).agents 7 AgentState.reserved)
    × (n
        ≤ 10
          - sum_counts (Calls.count_by_state (in_memory).calls (idle).calls 7) active_call_states)
evaluate-fits_example =
    evaluate-fits fractions in_memory safety idle monitors 1000 50 1001 false campaign request

abbrev failure : OriginateSample
failure = record { recorded_at = 100; success = false; timed_out = false; latency_ms = 0 }

abbrev failures : List OriginateSample
failures = failure ∷ failure ∷ failure ∷ failure ∷ failure ∷ []

abbrev failing : HealthManager fractions
failing = record {
  samples = λ _. record failure { success = true } ∷ failures;
  events_received = λ _. 0;
  last_status = λ _. none;
}

get_health-unhealthy_example :
    ((get_health fractions (safety).health failing 120 9).0.status ≡ ProviderHealthStatus.unhealthy)
    × ((should_allow_retry fractions (safety).health failing 120 9).0 ≡ false)
unfolding trim
get_health-unhealthy_example =
    get_health-unhealthy fractions (safety).health failing 120 9
      (record failure { success = true } ∷ []) failures refl
      (refl, (refl, (refl, (refl, (refl, tt))))) (omega arith)
