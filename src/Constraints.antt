-- ===== src/Constraints.antt =====
-- The constraints of app/safety/safety_controller.py: how they are built, which one binds, and what
-- they approve.
use smart_dialerss.Prelude.{
  ℕ, ◌-◌, max, min, Bool, false, not, ◌&&◌, ◌||◌, List, [], ◌∷◌, Option, none, some, nat_eq, ◌==◌,
  leb, if◌then◌else◌,
}
use Prim.Native.String.{String}
use smart_dialerss.Enums.{DialingMode, ProviderHealthStatus, dialing_mode_eq}
use smart_dialerss.Models.{Campaign}
use smart_dialerss.Floats.{Floats}
use smart_dialerss.SafetyModels.{
  PacingRequest, SafetySettings, CapacityReading, SafetyConstraintResult,
}

-- `min(first, *rest)`
unfoldable pub least : ℕ → List ℕ → ℕ
least m [] = m
least m (n ∷ ns) = min n (least m ns)

module _ (floats : Floats) where
  open floats use {F, of_nat, gt}

  -- A constraint as it is built, with `binding` at its default
  abbrev constraint : String → ℕ → Option F → SafetyConstraintResult floats
  constraint name limit value = record {
    name = name;
    limit = limit;
    value = value;
    binding = false;
  }

  unfoldable pub health_limit : ProviderHealthStatus → ℕ → ℕ → ℕ
  health_limit ProviderHealthStatus.unhealthy progressive_equivalent uncapped = 0
  health_limit ProviderHealthStatus.degraded progressive_equivalent uncapped =
      progressive_equivalent
  health_limit ProviderHealthStatus.healthy progressive_equivalent uncapped = uncapped

  unfoldable pub build_constraints :
      SafetySettings floats
      → Campaign
      → PacingRequest
      → CapacityReading floats
      → ℕ
      → ℕ
      → Bool
      → F
      → List (SafetyConstraintResult floats)
  unfolding health_limit
  build_constraints settings campaign request reading progressive_equivalent ringing_ceiling
        snapshot_is_stale availability_drop_ratio =
      let uncapped = request.requested in
      constraint "agent_capacity" (reading.available_agents - reading.reserved_agents)
        (some (of_nat reading.available_agents))
      ∷ constraint "campaign_concurrency" (campaign.max_concurrent_calls - reading.active_calls)
          (some (of_nat reading.active_calls))
      ∷ constraint "ringing_ceiling" (ringing_ceiling - reading.ringing_calls)
          (some (of_nat reading.ringing_calls))
      ∷ constraint "provider_health"
          (health_limit reading.provider_status progressive_equivalent uncapped) none
      ∷ constraint "progressive_mode_cap"
          (if request.mode == DialingMode.progressive then progressive_equivalent else uncapped)
          (some (of_nat progressive_equivalent))
      ∷ constraint "stale_state" (if snapshot_is_stale then 0 else uncapped)
          (some (of_nat reading.expired_leases))
      ∷ constraint "availability_drop"
          (if gt availability_drop_ratio settings.availability_drop_threshold
            then progressive_equivalent
            else uncapped)
          (some availability_drop_ratio)
      ∷ constraint "failure_rate"
          (if gt reading.call_failure_rate settings.high_failure_rate_threshold
            then progressive_equivalent
            else uncapped)
          (some reading.call_failure_rate)
      ∷ []

  unfoldable pub limits : List (SafetyConstraintResult floats) → List ℕ
  limits [] = []
  limits (c ∷ cs) = c.limit ∷ limits cs

  -- The loop of `_mark_binding`
  unfoldable pub mark_first :
      ℕ → Bool → List (SafetyConstraintResult floats) → List (SafetyConstraintResult floats)
  mark_first approved marked [] = []
  mark_first approved marked (c ∷ cs) =
      let binding = not marked && c.limit == approved in
      record { name = c.name; limit = c.limit; value = c.value; binding = binding }
      ∷ mark_first approved (marked || binding) cs

  unfoldable pub mark_binding :
      List (SafetyConstraintResult floats) → ℕ → ℕ → List (SafetyConstraintResult floats)
  unfolding mark_first
  mark_binding constraints approved requested =
      if leb requested approved then constraints else mark_first approved false constraints

  -- next((item.name for item in constraints if item.binding), None)
  unfoldable pub binding_name : List (SafetyConstraintResult floats) → Option String
  binding_name [] = none
  binding_name (c ∷ cs) = if c.binding then some c.name else binding_name cs

  unfoldable pub approve : ℕ → List (SafetyConstraintResult floats) → ℕ
  unfolding least limits
  approve requested constraints = max 0 (least requested (limits constraints))
