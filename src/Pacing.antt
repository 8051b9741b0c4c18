-- ===== src/Pacing.antt =====
-- app/pacing/answer_rate.py and app/pacing/pacing_engine.py. The engine's exceptions are those of a
-- division by 0, at which it requests nothing; the inputs and the explanation that it reports are left
-- out. Settings are not negative, so that the numbers that are rounded down are not.
pub mod Requests
use smart_dialerss.Prelude.{
  ℕ, ◌+◌, Bool, true, false, Option, none, some, Eq, nat_eq, ◌==◌, min, is_some, not, if◌then◌else◌,
}
use smart_dialerss.Enums.{DialingMode, ProviderHealthStatus}
use smart_dialerss.Floats.{Floats}
use smart_dialerss.SafetyModels.{PacingRequest}

module _ (floats : Floats) where
  open floats use {F, of_nat, div, add, mul, sub, quotient, fmax, fmin, fabs, floor, gt}

  unfoldable pub clamp : F → F → F → F
  clamp value minimum maximum = fmax minimum (fmin maximum value)

  unfoldable pub observed_answer_rate : ℕ → ℕ → Option F
  observed_answer_rate answered total = if total == 0 then none else some (div answered total)

  -- RECENT_WEIGHT is 0.7 and BASELINE_WEIGHT is 0.3.
  abbrev pub blend : F → Option F → F
  blend baseline_answer_rate none = baseline_answer_rate
  blend baseline_answer_rate (some recent) =
      add (mul (div 7 10) recent) (mul (div 3 10) baseline_answer_rate)

  unfoldable pub blended_answer_rate : Option F → F → F → F → F
  unfolding clamp
  blended_answer_rate recent_answer_rate baseline_answer_rate min_answer_rate max_answer_rate =
      clamp (blend baseline_answer_rate recent_answer_rate) min_answer_rate max_answer_rate

  unfoldable pub is_volatile : Option F → Option F → F → Bool
  is_volatile (some recent) (some previous) threshold = gt (fabs (sub recent previous)) threshold
  is_volatile _ _ threshold = false

  pub record PacingSnapshot : Type 0 where
    pub campaign_id : ℕ
    pub mode : DialingMode
    pub available_agents : ℕ
    pub reserved_agents : ℕ
    pub dialing_agents : ℕ
    pub connected_agents : ℕ
    pub wrap_up_agents : ℕ
    pub long_connected_agents : ℕ
    pub previous_available_agents : ℕ
    pub ringing_calls : ℕ
    pub initiated_calls : ℕ
    pub active_calls : ℕ
    pub recent_answer_rate : Option F
    pub previous_answer_rate : Option F
    pub baseline_answer_rate : F
    pub avg_talk_time_seconds : F
    pub avg_setup_time_ms : F
    pub provider_status : ProviderHealthStatus
    pub health_factor : F
    pub captured_at : ℕ

  unfoldable pub low_confidence : PacingSnapshot → Bool
  low_confidence s = not (is_some s.recent_answer_rate)

  pub record PacingEngineConfig : Type 0 where
    pub soon_free_weight : F
    pub safety_margin : F
    pub min_answer_rate : F
    pub max_answer_rate : F
    pub volatility_threshold : F
    pub volatility_factor : F
    pub max_request_per_tick : ℕ
    pub forced_answer_rate : Option F

  unfoldable pub effective_answer_rate : PacingSnapshot → PacingEngineConfig → F
  unfolding blended_answer_rate
  effective_answer_rate snapshot config = elim config.forced_answer_rate [
    | some forced ↦ forced
    | none ↦
        blended_answer_rate snapshot.recent_answer_rate snapshot.baseline_answer_rate
          config.min_answer_rate config.max_answer_rate
  ]

  unfoldable pub volatility_factor_of : PacingSnapshot → PacingEngineConfig → F
  unfolding is_volatile
  volatility_factor_of snapshot config =
      if is_volatile snapshot.recent_answer_rate snapshot.previous_answer_rate
        config.volatility_threshold
      then config.volatility_factor
      else of_nat 1

  unfoldable pub in_flight : PacingSnapshot → ℕ
  in_flight s = s.ringing_calls + s.initiated_calls + s.reserved_agents

  unfoldable pub free_capacity : PacingSnapshot → PacingEngineConfig → F
  free_capacity s config =
      add (of_nat s.available_agents)
        (mul (of_nat (s.wrap_up_agents + s.long_connected_agents)) config.soon_free_weight)

  -- `_compute` from the number of calls needed on
  unfoldable pub request_for : PacingSnapshot → PacingEngineConfig → F → PacingRequest
  unfolding in_flight volatility_factor_of
  request_for snapshot config calls_needed =
      let raw_request = floor (fmax (of_nat 0) (sub calls_needed (of_nat (in_flight snapshot)))) in
      let scaled =
        mul (mul (mul (of_nat raw_request) config.safety_margin) snapshot.health_factor)
          (volatility_factor_of snapshot config) in
      record {
        requested = min (floor scaled) config.max_request_per_tick;
        mode = snapshot.mode;
        snapshot_captured_at = snapshot.captured_at;
      }

  -- None stands for the exception.
  unfoldable pub compute : PacingSnapshot → PacingEngineConfig → Option PacingRequest
  unfolding free_capacity effective_answer_rate request_for
  compute snapshot config =
      elim (quotient (free_capacity snapshot config) (effective_answer_rate snapshot config)) [
        | none ↦ none
        | some calls_needed ↦ some (request_for snapshot config calls_needed)
      ]

  unfoldable pub compute_request : PacingSnapshot → PacingEngineConfig → PacingRequest
  unfolding compute
  compute_request snapshot config = elim (compute snapshot config) [
    | some request ↦ request
    | none ↦ record {
      requested = 0;
      mode = snapshot.mode;
      snapshot_captured_at = snapshot.captured_at;
    }
  ]
