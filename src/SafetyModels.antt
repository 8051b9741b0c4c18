-- ===== src/SafetyModels.antt =====
-- app/safety/models.py and app/safety/fallback.py, with the settings and the reading of
-- app/safety/safety_controller.py. A request is a number that is not negative, as the dialers make it.
-- A decision does not keep the campaign, the date and the id of the pacing decision.
use Prim.Native.String.{String}
use smart_dialerss.Prelude.{ℕ, Bool, Option, none, some, ◌!=◌, ltb, if◌then◌else◌, List}
use smart_dialerss.Enums.{DialingMode, ProviderHealthStatus, SafetyVerdict, health_status_eq}
use smart_dialerss.Floats.{Floats}
use smart_dialerss.ProviderHealth.{HealthSettings}

pub record PacingRequest : Type 0 where
  pub requested : ℕ
  pub mode : DialingMode
  pub snapshot_captured_at : ℕ

module _ (floats : Floats) where
  open floats use {F, gt}

  pub record SafetySettings : Type 0 where
    pub max_ringing_ratio : F
    pub max_snapshot_age_seconds : F
    pub availability_drop_threshold : F
    pub high_failure_rate_threshold : F
    pub answer_rate_window_seconds : F
    pub health : HealthSettings floats

  pub record CapacityReading : Type 0 where
    pub available_agents : ℕ
    pub reserved_agents : ℕ
    pub active_calls : ℕ
    pub ringing_calls : ℕ
    pub expired_leases : ℕ
    pub call_failure_rate : F
    pub provider_status : ProviderHealthStatus

  pub record FallbackInputs : Type 0 where
    pub provider_status : ProviderHealthStatus
    pub availability_drop_ratio : F
    pub availability_drop_threshold : F
    pub ringing_calls : ℕ
    pub ringing_ceiling : ℕ
    pub call_failure_rate : F
    pub failure_rate_threshold : F
    pub snapshot_is_stale : Bool

  unfoldable pub should_fallback_to_progressive : FallbackInputs → Option String
  should_fallback_to_progressive inputs =
      if inputs.snapshot_is_stale
      then some "stale_state"
      else if inputs.provider_status != ProviderHealthStatus.healthy
      then some "provider_degraded"
      else if gt inputs.availability_drop_ratio inputs.availability_drop_threshold
      then some "availability_drop"
      else if ltb inputs.ringing_ceiling inputs.ringing_calls
      then some "excessive_ringing"
      else if gt inputs.call_failure_rate inputs.failure_rate_threshold
      then some "high_failure_rate"
      else none

  pub record SafetyConstraintResult : Type 0 where
    pub name : String
    pub limit : ℕ
    pub value : Option F
    pub binding : Bool

  pub record SafetyDecision : Type 0 where
    pub requested : ℕ
    pub approved : ℕ
    pub verdict : SafetyVerdict
    pub constraints : List SafetyConstraintResult
    pub binding_constraint : Option String
    pub snapshot_age : ℕ
    pub fallback_reason : Option String
