-- ===== src/Availability.antt =====
-- app/services/agent_availability.py: a dict from campaigns to the number seen last, as a function.
use smart_dialerss.Prelude.{ℕ, ◌-◌, ◌||◌, Option, none, some, nat_eq, ◌==◌, leb, if◌then◌else◌}
use smart_dialerss.Floats.{Floats}

module _ (floats : Floats) where
  open floats use {F, div, le}

  pub record AvailabilityDrop : Type 0 where
    pub campaign_id : ℕ
    pub previous_available : ℕ
    pub current_available : ℕ
    pub drop_ratio : F

  abbrev pub Tracker : Type 0
  Tracker = ℕ → Option ℕ

  -- What is found of a drop, given the number seen before, if any
  unfoldable pub detect : F → ℕ → ℕ → Option ℕ → Option AvailabilityDrop
  detect threshold campaign_id available_agents none = none
  detect threshold campaign_id available_agents (some previous) =
      let drop_ratio = div (previous - available_agents) previous in
      if previous == 0 || leb previous available_agents
      then none
      else if le drop_ratio threshold
      then none
      else some (record {
        campaign_id = campaign_id;
        previous_available = previous;
        current_available = available_agents;
        drop_ratio = drop_ratio;
      })

  unfoldable pub record_and_detect : F → Tracker → ℕ → ℕ → Option AvailabilityDrop × Tracker
  unfolding detect
  record_and_detect threshold tracker campaign_id available_agents = (
    detect threshold campaign_id available_agents (tracker campaign_id),
    λ c. if campaign_id == c then some available_agents else tracker c,
  )
