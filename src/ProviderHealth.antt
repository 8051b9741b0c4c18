-- ===== src/ProviderHealth.antt =====
-- app/services/provider_health.py and `should_retry` of app/services/retry_service.py. A time of the
-- monotonic clock is a number, in the unit in which the window of the settings is given. The dicts
-- over the providers are functions. `get_health` answers DEGRADED if the computation raises, which
-- nothing in the model does.
pub mod Failures
use smart_dialerss.Prelude.{
  ℕ, zero, suc, ◌-◌, Bool, false, not, ◌&&◌, List, [], ◌∷◌, ◌++◌, Option, some, nat_eq, ◌==◌, ◌!=◌,
  ltb, leb, min, map, reverse, length, count, if◌then◌else◌,
}
use smart_dialerss.Enums.{ProviderHealthStatus, health_status_eq}
use smart_dialerss.Models.{Borrower}
use smart_dialerss.Floats.{Floats}

pub record OriginateSample : Type 0 where
  pub recorded_at : ℕ
  pub success : Bool
  pub timed_out : Bool
  pub latency_ms : ℕ

abbrev pub insert : ℕ → List ℕ → List ℕ
insert x [] = x ∷ []
insert x (y ∷ ys) = if leb x y then x ∷ y ∷ ys else y ∷ insert x ys

-- sorted(values)
abbrev pub sorted : List ℕ → List ℕ
sorted [] = []
sorted (x ∷ xs) = insert x (sorted xs)

-- ordered[index]; the default is for an index out of range, which does not occur.
abbrev pub at : List ℕ → ℕ → ℕ
at [] n = 0
at (x ∷ xs) zero = x
at (x ∷ xs) (suc n) = at xs n

-- _trim: samples are popped from the left while they are too old.
unfoldable pub trim : ℕ → ℕ → List OriginateSample → List OriginateSample
trim now window_seconds [] = []
trim now window_seconds (s ∷ window) =
    if ltb s.recorded_at (now - window_seconds) then trim now window_seconds window else s ∷ window

-- The loop of `_count_trailing_failures`, over the reversed samples
unfoldable pub leading_failures : List OriginateSample → ℕ
leading_failures [] = 0
leading_failures (s ∷ samples) = if s.success then 0 else suc (leading_failures samples)

unfoldable pub count_trailing_failures : List OriginateSample → ℕ
unfolding leading_failures
count_trailing_failures samples = leading_failures (reverse samples)

module _ (floats : Floats) where
  open floats use {F, of_nat, div, complement, gt, round_mul}

  pub record HealthSettings : Type 0 where
    pub health_window_seconds : ℕ
    pub health_min_samples : ℕ
    pub unhealthy_consecutive_failures : ℕ
    pub unhealthy_timeout_rate : F
    pub degraded_failure_rate : F
    pub degraded_latency_ms : F

  pub record HealthManager : Type 0 where
    pub samples : ℕ → List OriginateSample
    pub events_received : ℕ → ℕ
    pub last_status : ℕ → Option ProviderHealthStatus

  pub record ProviderHealth : Type 0 where
    pub provider_name : ℕ
    pub status : ProviderHealthStatus
    pub request_count : ℕ
    pub success_rate : F
    pub failure_rate : F
    pub timeout_rate : F
    pub p50_latency_ms : F
    pub p95_latency_ms : F
    pub consecutive_failures : ℕ
    pub events_received : ℕ
    pub low_confidence : Bool

  -- The values are floats of whole numbers; `fraction` is a float.
  unfoldable pub percentile : List ℕ → F → F
  percentile [] fraction = of_nat 0
  percentile (v ∷ values) fraction =
      of_nat (at (sorted (v ∷ values)) (min (length values) (round_mul fraction (length values))))

  unfoldable pub derive_status : HealthSettings → F → F → ℕ → F → Bool → ProviderHealthStatus
  derive_status settings failure_rate timeout_rate consecutive_failures p95_latency_ms
        low_confidence =
      if leb settings.unhealthy_consecutive_failures consecutive_failures
      then ProviderHealthStatus.unhealthy
      else if not low_confidence && gt timeout_rate settings.unhealthy_timeout_rate
      then ProviderHealthStatus.unhealthy
      else if low_confidence
      then ProviderHealthStatus.healthy
      else if gt failure_rate settings.degraded_failure_rate
      then ProviderHealthStatus.degraded
      else if gt p95_latency_ms settings.degraded_latency_ms
      then ProviderHealthStatus.degraded
      else ProviderHealthStatus.healthy

  -- The successes and timeouts among the samples, as rates
  unfoldable pub success_rate_of : List OriginateSample → F
  success_rate_of [] = of_nat 1
  success_rate_of (s ∷ ss) =
      div (count (λ (t : OriginateSample). t.success) (s ∷ ss)) (length (s ∷ ss))

  unfoldable pub failure_rate_of : List OriginateSample → F
  unfolding success_rate_of
  failure_rate_of [] = of_nat 0
  failure_rate_of (s ∷ ss) = complement (success_rate_of (s ∷ ss))

  unfoldable pub timeout_rate_of : List OriginateSample → F
  timeout_rate_of [] = of_nat 0
  timeout_rate_of (s ∷ ss) =
      div (count (λ (t : OriginateSample). t.timed_out) (s ∷ ss)) (length (s ∷ ss))

  -- The fractions 0.5 and 0.95 are those of `div 1 2` and `div 19 20`.
  unfoldable pub health_of : HealthSettings → ℕ → ℕ → List OriginateSample → ProviderHealth
  unfolding success_rate_of failure_rate_of timeout_rate_of percentile derive_status
      count_trailing_failures
  health_of settings provider_name events_received samples =
      let low_confidence = ltb (length samples) settings.health_min_samples in
      let latencies = map (λ (s : OriginateSample). s.latency_ms) samples in
      let consecutive_failures = count_trailing_failures samples in
      let p95 = percentile latencies (div 19 20) in
      record {
        provider_name = provider_name;
        status =
            derive_status settings (failure_rate_of samples) (timeout_rate_of samples)
              consecutive_failures p95 low_confidence;
        request_count = length samples;
        success_rate = success_rate_of samples;
        failure_rate = failure_rate_of samples;
        timeout_rate = timeout_rate_of samples;
        p50_latency_ms = percentile latencies (div 1 2);
        p95_latency_ms = p95;
        consecutive_failures = consecutive_failures;
        events_received = events_received;
        low_confidence = low_confidence;
      }

  unfoldable pub record_originate :
      HealthSettings → HealthManager → ℕ → ℕ → Bool → ℕ → Bool → HealthManager
  unfolding trim
  record_originate settings m now provider_name success latency_ms timed_out =
      let sample : OriginateSample = record {
        recorded_at = now;
        success = success;
        timed_out = timed_out;
        latency_ms = latency_ms;
      } in
      record m {
        samples = λ p.
            if provider_name == p
            then trim now settings.health_window_seconds (m.samples p ++ (sample ∷ []))
            else m.samples p;
      }

  unfoldable pub record_event_received : HealthManager → ℕ → HealthManager
  record_event_received m provider_name = record m {
    events_received =
        λ p. if provider_name == p then suc (m.events_received p) else m.events_received p;
  }

  -- `_compute_health`, with the change of `_log_status_change`
  unfoldable pub get_health :
      HealthSettings → HealthManager → ℕ → ℕ → ProviderHealth × HealthManager
  unfolding health_of trim
  get_health settings m now provider_name =
      let window = trim now settings.health_window_seconds (m.samples provider_name) in
      let health = health_of settings provider_name (m.events_received provider_name) window in
      (
        health,
        record m {
          samples = λ p. if provider_name == p then window else m.samples p;
          last_status = λ p. if provider_name == p then some health.status else m.last_status p;
        },
      )

  unfoldable pub should_allow_retry : HealthSettings → HealthManager → ℕ → ℕ → Bool × HealthManager
  unfolding get_health
  should_allow_retry settings m now provider_name =
      let (health, m') = get_health settings m now provider_name in
      (health.status != ProviderHealthStatus.unhealthy, m')

  -- HEALTH_FACTORS; 0.5 is `div 1 2`.
  abbrev pub health_factors : ProviderHealthStatus → F
  health_factors ProviderHealthStatus.healthy = of_nat 1
  health_factors ProviderHealthStatus.degraded = div 1 2
  health_factors ProviderHealthStatus.unhealthy = of_nat 0

  unfoldable pub health_factor : HealthSettings → HealthManager → ℕ → ℕ → F × HealthManager
  unfolding get_health
  health_factor settings m now provider_name =
      let (health, m') = get_health settings m now provider_name in
      (health_factors health.status, m')

  -- `now` is the date, `time` the reading of the monotonic clock.
  unfoldable pub should_retry :
      HealthSettings → HealthManager → ℕ → ℕ → ℕ → Borrower → ℕ → Bool × HealthManager
  unfolding should_allow_retry
  should_retry settings m max_call_attempts now time borrower provider_name =
      if leb max_call_attempts borrower.attempt_count
      then (false, m)
      else if ltb now borrower.next_eligible_at
      then (false, m)
      else should_allow_retry settings m time provider_name
