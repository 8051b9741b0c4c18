-- ===== src/AgentRepo.antt =====
-- app/repositories/agent_repo.py over the driver's interface, and the lease fields of
-- app/repositories/base.py. Each method takes the state of the collection, the present time where it
-- reads the clock, and its own arguments. The update documents are functions on agents: those of an
-- update pipeline read the fields that the document had before.
pub mod Accounting
pub mod Writes
pub mod Leases
pub mod Exclusion
pub mod Release
pub mod Reach
use smart_dialerss.Prelude.{
  ℕ, suc, ◌+◌, ◌-◌, ◌*◌, Bool, true, false, not, ◌&&◌, List, [], ◌∷◌, Option, none, some, Eq,
  nat_eq, ◌==◌, ◌!=◌, ltb, leb, contains, is_some, is_empty, if◌then◌else◌,
}
use smart_dialerss.Enums.{AgentState, agent_state_eq}
use smart_dialerss.AgentSm.{
  TransitionActor, Outcome, returns, raises, validate_transition, allowed_sources,
}
use smart_dialerss.Models.{Agent, seconds}
use smart_dialerss.Store.{Collection}

-- Agents have no unique index but `_id`.
abbrev pub agent_clash : Agent → Agent → Bool
agent_clash a b = a.id == b.id

abbrev pub AgentCollection : Type 1
AgentCollection = Collection nat_eq (λ (a : Agent). a.id) agent_clash

-- candidate_window, with CANDIDATE_WINDOW_MULTIPLIER
unfoldable pub candidate_window : ℕ → ℕ
candidate_window needed = needed * 3

-- build_lease_fields
unfoldable pub build_lease_fields : ℕ → ℕ → ℕ → Agent → Agent
build_lease_fields worker_id ttl_seconds now a = record a {
  reserved_by = some worker_id;
  reserved_at = some now;
  lease_expires_at = some (now + seconds ttl_seconds);
}

unfoldable pub cleared_lease_fields : Agent → Agent
cleared_lease_fields a = record a {
  reserved_by = none;
  reserved_at = none;
  lease_expires_at = none;
}

pub data TimeField : Type 0 where
  available_time busy_time connected_time wrap_up_time : TimeField

abbrev field_index : TimeField → ℕ
field_index TimeField.available_time = 0
field_index TimeField.busy_time = 1
field_index TimeField.connected_time = 2
field_index TimeField.wrap_up_time = 3

abbrev pub same_field : TimeField → TimeField → Bool
same_field a b = field_index a == field_index b

-- TIME_ACCOUNTING_FIELDS.get(state, ())
abbrev pub time_accounting_fields : AgentState → List TimeField
time_accounting_fields AgentState.available = TimeField.available_time ∷ []
time_accounting_fields AgentState.reserved = TimeField.busy_time ∷ []
time_accounting_fields AgentState.dialing = TimeField.busy_time ∷ []
time_accounting_fields AgentState.connected = TimeField.busy_time ∷ TimeField.connected_time ∷ []
time_accounting_fields AgentState.wrap_up = TimeField.busy_time ∷ TimeField.wrap_up_time ∷ []
time_accounting_fields _ = []

abbrev pub has_field : TimeField → List TimeField → Bool
has_field f [] = false
has_field f (g ∷ gs) = if same_field f g then true else has_field f gs

-- `$max: [0, {$subtract: [now, "$state_changed_at"]}]`
abbrev pub elapsed : ℕ → Agent → ℕ
elapsed now a = now - a.state_changed_at

-- The expression for one field in `time_accounting_updates`: the field plus the elapsed time.
abbrev pub accounted : AgentState → ℕ → TimeField → Agent → ℕ → ℕ
accounted from_state now f a value =
    if has_field f (time_accounting_fields from_state) then value + elapsed now a else value

unfoldable pub time_accounting_updates : AgentState → ℕ → Agent → Agent
time_accounting_updates from_state now a = record a {
  available_time_ms = accounted from_state now TimeField.available_time a a.available_time_ms;
  busy_time_ms = accounted from_state now TimeField.busy_time a a.busy_time_ms;
  connected_time_ms = accounted from_state now TimeField.connected_time a a.connected_time_ms;
  wrap_up_time_ms = accounted from_state now TimeField.wrap_up_time a a.wrap_up_time_ms;
}

-- The `$switch` that `_conditional_accounting` builds for one field: a branch for each source whose
-- accounting has the field, and the field itself by default.
unfoldable pub switch : List AgentState → ℕ → TimeField → Agent → ℕ → ℕ
switch [] now f a value = value
switch (source ∷ sources) now f a value =
    if has_field f (time_accounting_fields source)
    then (if a.state == source then value + elapsed now a else switch sources now f a value)
    else switch sources now f a value

unfoldable pub conditional_accounting : List AgentState → ℕ → Agent → Agent
unfolding switch
conditional_accounting sources now a = record a {
  available_time_ms = switch sources now TimeField.available_time a a.available_time_ms;
  busy_time_ms = switch sources now TimeField.busy_time a a.busy_time_ms;
  connected_time_ms = switch sources now TimeField.connected_time a a.connected_time_ms;
  wrap_up_time_ms = switch sources now TimeField.wrap_up_time a a.wrap_up_time_ms;
}

-- The filter `"reserved_by": worker_id`
abbrev pub holds : Option ℕ → ℕ → Bool
holds none worker_id = false
holds (some w) worker_id = w == worker_id

-- The filter `"lease_expires_at": {"$lt": now}`, which no missing date passes
abbrev pub before : Option ℕ → ℕ → Bool
before none now = false
before (some t) now = ltb t now

unfoldable pub can_reserve : ℕ → Agent → Bool
can_reserve campaign_id a = a.campaign_id == campaign_id && a.state == AgentState.available

unfoldable pub reserve : ℕ → ℕ → ℕ → Agent → Agent
unfolding build_lease_fields
reserve worker_id ttl_seconds now a = build_lease_fields worker_id ttl_seconds now (record a {
  state = AgentState.reserved;
  state_changed_at = now;
  state_version = a.state_version + 1;
})

unfoldable pub can_release : ℕ → List AgentState → Agent → Bool
can_release worker_id sources a = holds a.reserved_by worker_id && contains a.state sources

unfoldable pub release : List AgentState → AgentState → ℕ → Agent → Agent
unfolding conditional_accounting cleared_lease_fields
release sources target_state now a =
    cleared_lease_fields (record (conditional_accounting sources now a) {
      state = target_state;
      state_changed_at = now;
      current_call_id = none;
      state_version = a.state_version + 1;
    })

unfoldable pub can_move : AgentState → ℕ → Agent → Bool
can_move from_state expected_version a =
    a.state == from_state && a.state_version == expected_version

unfoldable pub move : AgentState → AgentState → ℕ → Agent → Agent
unfolding time_accounting_updates
move from_state to_state now a = record (time_accounting_updates from_state now a) {
  state = to_state;
  state_changed_at = now;
  state_version = a.state_version + 1;
}

unfoldable pub can_expire : Agent → ℕ → Agent → Bool
can_expire seen now a =
    a.state == seen.state && a.state_version == seen.state_version && before a.lease_expires_at now

unfoldable pub expire : ℕ → Agent → Agent
unfolding cleared_lease_fields
expire now a = cleared_lease_fields (record a {
  state = AgentState.available;
  state_changed_at = now;
  current_call_id = none;
  state_version = a.state_version + 1;
})

-- The filter of `find_expired_agent_leases` and of `count_expired_leases`
unfoldable pub has_expired_lease : ℕ → Agent → Bool
has_expired_lease now a =
    contains a.state (allowed_sources AgentState.available TransitionActor.recovery)
    && is_some a.reserved_by
    && before a.lease_expires_at now

-- The optional filter on the campaign
abbrev pub in_campaign : Option ℕ → Agent → Bool
in_campaign none a = true
in_campaign (some c) a = a.campaign_id == c

module _ (agents : AgentCollection) where
  open agents use {State, find_one, find_one_and_update, find, count_documents}

  unfoldable pub find_claimable_agents : State → ℕ → ℕ → List Agent
  unfolding candidate_window
  find_claimable_agents s campaign_id needed =
      if candidate_window needed == 0
      then []
      else find s (λ a. a.campaign_id == campaign_id && a.state == AgentState.available)
          (candidate_window needed)

  unfoldable pub try_reserve_agent : State → ℕ → ℕ → ℕ → ℕ → ℕ → Option Agent × State
  unfolding can_reserve reserve
  try_reserve_agent s now campaign_id agent_id worker_id ttl_seconds =
      find_one_and_update s agent_id (can_reserve campaign_id) (reserve worker_id ttl_seconds now)

  unfoldable pub release_agent :
      State → ℕ → ℕ → ℕ → AgentState → TransitionActor → Option Agent × State
  unfolding can_release release
  release_agent s now agent_id worker_id target_state actor =
      if is_empty (allowed_sources target_state actor)
      then (none, s)
      else find_one_and_update s agent_id
          (can_release worker_id (allowed_sources target_state actor))
          (release (allowed_sources target_state actor) target_state now)

  unfoldable pub transition_agent :
      State → ℕ → ℕ → AgentState → AgentState → TransitionActor → ℕ → Outcome (Option Agent × State)
  unfolding can_move move
  transition_agent s now agent_id from_state to_state actor expected_version =
      elim (validate_transition from_state to_state actor) [
        | some error ↦ raises error
        | none ↦ returns (
            find_one_and_update s agent_id (can_move from_state expected_version)
              (move from_state to_state now))
      ]

  unfoldable pub bind_call : State → ℕ → ℕ → ℕ → Option Agent × State
  bind_call s agent_id worker_id call_id =
      find_one_and_update s agent_id (λ a. holds a.reserved_by worker_id)
        (λ a. record a { current_call_id = some call_id })

  unfoldable pub count_by_state : State → ℕ → AgentState → ℕ
  count_by_state s campaign_id state =
      count_documents s (λ a. a.campaign_id == campaign_id && a.state == state)

  unfoldable pub find_expired_agent_leases : State → ℕ → ℕ → List Agent
  unfolding has_expired_lease
  find_expired_agent_leases s now limit = find s (has_expired_lease now) limit

  unfoldable pub release_expired_agent_lease : State → Agent → ℕ → Option Agent × State
  unfolding can_expire expire
  release_expired_agent_lease s agent now =
      find_one_and_update s agent.id (can_expire agent now) (expire now)

  reclaim_each : ℕ → List Agent → State → List Agent × State
  unfolding release_expired_agent_lease
  reclaim_each now [] s = ([], s)
  reclaim_each now (candidate ∷ candidates) s =
      let (released, s') = release_expired_agent_lease s candidate now in
      let (reclaimed, s'') = reclaim_each now candidates s' in
      (elim released [ none ↦ reclaimed | some a ↦ a ∷ reclaimed ], s'')

  unfoldable pub reclaim_expired_agent_leases : State → ℕ → ℕ → List Agent × State
  unfolding find_expired_agent_leases reclaim_each
  reclaim_expired_agent_leases s now limit =
      reclaim_each now (find_expired_agent_leases s now limit) s

  unfoldable pub find_heartbeat_expired : State → ℕ → ℕ → List Agent
  find_heartbeat_expired s older_than limit =
      find s (λ a. a.state != AgentState.offline && before a.last_heartbeat_at older_than) limit

  unfoldable pub find_expired_wrap_ups : State → ℕ → ℕ → Option ℕ → List Agent
  find_expired_wrap_ups s older_than limit campaign_id =
      find s
        (λ a.
          a.state == AgentState.wrap_up
          && leb a.state_changed_at older_than
          && in_campaign campaign_id a)
        limit

  unfoldable pub count_expired_leases : State → ℕ → ℕ
  unfolding has_expired_lease
  count_expired_leases s now = count_documents s (has_expired_lease now)

  unfoldable pub count_connected_longer_than : State → ℕ → ℕ → ℕ
  count_connected_longer_than s campaign_id older_than = count_documents s (λ a.
      a.campaign_id == campaign_id
      && a.state == AgentState.connected
      && leb a.state_changed_at older_than)

  -- The default limit is 10000.
  unfoldable pub find_for_campaign : State → ℕ → ℕ → List Agent
  find_for_campaign s campaign_id limit = find s (λ a. a.campaign_id == campaign_id) limit

  unfoldable pub find_by_id : State → ℕ → Option Agent
  find_by_id s agent_id = find_one s agent_id

  unfoldable pub heartbeat : State → ℕ → ℕ → Bool × State
  heartbeat s now agent_id =
      let (found, s') =
        find_one_and_update s agent_id (λ _. true)
          (λ a. record a { last_heartbeat_at = some now }) in
      (is_some found, s')
