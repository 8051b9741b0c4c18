-- ===== src/Dialers/Progressive.antt =====
-- What the progressive dialer requests.
use smart_dialerss.Prelude.{ℕ, ◌-◌, ◌≤◌, ◌≡◌, refl, false, some, min, arith}
use smart_dialerss.Floats.{Floats}
use smart_dialerss.Pacing.{
  PacingSnapshot, PacingEngineConfig, in_flight, free_capacity, effective_answer_rate, request_for,
  compute, compute_request, is_volatile, volatility_factor_of,
}
use smart_dialerss.Pacing.Requests.{FloatLaws, exact}
use smart_dialerss.Dialers.{Dialer, DialerSettings, engine_config}

module _ (floats : Floats) (laws : FloatLaws floats) (settings : DialerSettings floats)
    (snapshot : PacingSnapshot floats) where
  abbrev config : PacingEngineConfig floats
  config = engine_config floats Dialer.progressive_dialer settings

  capacity-exact :
      floats.quotient
        (free_capacity floats snapshot config)
        (effective_answer_rate floats snapshot config)
      ≡ some (floats.of_nat snapshot.available_agents)
  unfolding free_capacity effective_answer_rate engine_config
  capacity-exact = rw (laws.add_nothing, laws.quotient_one) refl

  small : (m n : ℕ) → m ≤ exact → m - n ≤ exact
  small m n h = omega arith

  factor-one :
      is_volatile floats snapshot.recent_answer_rate snapshot.previous_answer_rate
          settings.volatility_threshold
        ≡ false
      → volatility_factor_of floats snapshot config ≡ floats.of_nat 1
  unfolding volatility_factor_of engine_config
  factor-one steady = rw (steady, volatility_factor_of) refl

  -- With a healthy provider and an answer rate that is not volatile, the progressive dialer requests one
  -- call for each available agent that no reserved agent, ringing call or initiated call is already
  -- counted against, up to the limit of a tick. The float operations are exact on whole numbers up to
  -- 2 ^ 53, and the counts are no larger.
  pub compute_request-progressive :
      snapshot.health_factor ≡ floats.of_nat 1
      → is_volatile floats snapshot.recent_answer_rate snapshot.previous_answer_rate
          settings.volatility_threshold
        ≡ false
      → snapshot.available_agents ≤ exact
      → in_flight floats snapshot ≤ exact
      → (compute_request floats snapshot
          (engine_config floats Dialer.progressive_dialer settings)).requested
        ≡ min (snapshot.available_agents - in_flight floats snapshot) settings.max_request_per_tick
  unfolding compute_request compute request_for engine_config
  compute_request-progressive healthy steady few_agents few_calls =
      rw
        (
          capacity-exact,
          compute_request,
          compute,
          request_for,
          healthy,
          factor-one steady,
          laws.floor_difference _ _ few_agents few_calls,
          laws.mul_one,
          laws.mul_one,
          laws.mul_one,
          laws.floor_exact (snapshot.available_agents - in_flight floats snapshot)
              (small _ _ few_agents),
        )
        refl
