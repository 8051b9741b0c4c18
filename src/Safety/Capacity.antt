-- ===== src/Safety/Capacity.antt =====
-- What an evaluation approves, against the counts in the database.
use Prim.Native.String.{String}
use smart_dialerss.Prelude.{
  ℕ, ◌≡◌, ◌≤◌, ◌<◌, ◌-◌, ◌⊎◌, inl, inr, Bool, true, false, List, arith, if◌then◌else◌, ◌||◌, ltb,
  Option, none, some,
}
use smart_dialerss.Enums.{AgentState, ProviderHealthStatus, SafetyVerdict}
use smart_dialerss.Models.{Campaign}
use smart_dialerss.AgentRepo as Agents
use smart_dialerss.CallRepo as Calls
use smart_dialerss.Database.{Collections, Db}
use smart_dialerss.Floats.{Floats}
use smart_dialerss.SafetyModels.{
  PacingRequest, SafetySettings, CapacityReading, SafetyConstraintResult,
}
use smart_dialerss.Constraints.{build_constraints, health_limit}
use smart_dialerss.Safety.{
  Monitors, active_call_states, sum_counts, judge, decide, error_decision, read_capacity, evaluate,
}
use smart_dialerss.Safety.Bounds.{approve-greatest}

module _ (floats : Floats) where
  -- At most what the constraints on agents, calls and ringing leave
  abbrev pub Fits :
      SafetySettings floats → Campaign → PacingRequest → CapacityReading floats → ℕ → Type 0
  Fits settings campaign request reading n =
      (n ≤ request.requested)
      × (n ≤ reading.available_agents - reading.reserved_agents)
      × (n ≤ campaign.max_concurrent_calls - reading.active_calls)
      × (n
          ≤ floats.int_mul settings.max_ringing_ratio reading.available_agents
            - reading.ringing_calls)

  abbrev is_stale : SafetySettings floats → CapacityReading floats → ℕ → Bool
  is_stale settings reading age =
      floats.gt (floats.of_nat age)
        (floats.mul settings.max_snapshot_age_seconds (floats.of_nat 1000))
      || ltb 0 reading.expired_leases

  -- An expired lease makes the snapshot stale.
  lease-is_stale :
      (settings : SafetySettings floats) (reading : CapacityReading floats) (age : ℕ)
      → 0 < reading.expired_leases
      → is_stale settings reading age ≡ true
  lease-is_stale settings reading age h = ground arith

  nothing_left :
      (status : ProviderHealthStatus) (stale : Bool) (n available requested : ℕ)
      → n ≤ health_limit floats status available requested
      → n ≤ (if stale then 0 else requested)
      → (stale ≡ true) ⊎ (status ≡ ProviderHealthStatus.unhealthy)
      → n ≡ 0
  unfolding health_limit
  nothing_left status stale n available requested by_health by_stale (inl h) = ground arith
  nothing_left status stale n available requested by_health by_stale (inr h) = ground arith

  rejects :
      (requested approved : ℕ) (reason : Option String)
      → 0 < requested
      → approved ≡ 0
      → judge requested approved reason ≡ SafetyVerdict.rejected
  unfolding judge
  rejects requested approved none some_wanted nothing = ground arith
  rejects requested approved (some r) some_wanted nothing = ground arith

  module _ (settings : SafetySettings floats) (campaign : Campaign) (request : PacingRequest)
      (reading : CapacityReading floats) (age : ℕ) (ratio : floats.F) where
    abbrev built : List (SafetyConstraintResult floats)
    unfolding build_constraints
    built =
        build_constraints floats settings campaign request reading reading.available_agents
          (floats.int_mul settings.max_ringing_ratio reading.available_agents)
          (is_stale settings reading age) ratio

    -- A decision approves at most what was requested, the available agents less the reserved ones, the
    -- calls that the campaign may add and those that may ring.
    pub decide-Fits :
        Fits settings campaign request reading
          (decide floats settings campaign request reading age ratio).approved
    unfolding decide build_constraints
    decide-Fits =
        let r = approve-greatest floats request.requested built in (r.0, r.1.0, r.1.1.0, r.1.1.1.0)

    -- If an agent's lease has expired unnoticed or the provider is UNHEALTHY, a decision approves nothing,
    -- and rejects a request for one call or more.
    pub decide-closed :
        (0 < reading.expired_leases) ⊎ (reading.provider_status ≡ ProviderHealthStatus.unhealthy)
        → let d = decide floats settings campaign request reading age ratio in
          (d.approved ≡ 0) × (0 < request.requested → d.verdict ≡ SafetyVerdict.rejected)
    unfolding decide build_constraints health_limit judge
    decide-closed closed =
        let r = approve-greatest floats request.requested built in
        let by_health = r.1.1.1.1.0 in
        let by_staleness = r.1.1.1.1.1.1.0 in
        let left =
          nothing_left reading.provider_status _ _ _ _ by_health by_staleness
            (elim closed [ inl h ↦ inl (lease-is_stale settings reading age h) | inr h ↦ inr h ]) in
        (left, λ wanted. rejects request.requested _ _ wanted left)

  module _ (c : Collections) where
    -- Whether or not the driver raises while the capacity is read, an evaluation approves at most what was
    -- requested, at most the campaign's AVAILABLE agents in the database less its RESERVED ones, and at
    -- most what its calls from RESERVED to CONNECTED leave of the campaign's concurrency.
    pub evaluate-fits :
        (settings : SafetySettings floats) (db : Db c) (m : Monitors floats) (now time later : ℕ)
        (fails : Bool) (campaign : Campaign) (request : PacingRequest)
        → let n =
            (evaluate floats c settings db m now time later fails campaign request).0.approved in
          (n ≤ request.requested)
          × (n
              ≤ Agents.count_by_state c.agents db.agents campaign.id AgentState.available
                - Agents.count_by_state c.agents db.agents campaign.id AgentState.reserved)
          × (n
              ≤ campaign.max_concurrent_calls
                - sum_counts (Calls.count_by_state c.calls db.calls campaign.id) active_call_states)
    unfolding evaluate read_capacity error_decision
    evaluate-fits settings db m now time later true campaign request =
        (omega arith, omega arith, omega arith)
    evaluate-fits settings db m now time later false campaign request =
        let (low, agents, calls, _) = decide-Fits settings campaign request _ _ _ in
        (low, agents, calls)
