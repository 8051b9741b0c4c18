-- ===== src/Simulation.antt =====
-- app/simulation/agent_simulator.py, the bursts of app/simulation/fault_injector.py and
-- app/simulation/invariants.py. Logging, the texts of the reports and the tasks are left out; the driver
-- raises nothing here.
pub mod Bursts
pub mod Checks
use smart_dialerss.Prelude.{
  ℕ, zero, suc, ◌+◌, ◌-◌, Bool, true, false, not, ◌&&◌, ◌||◌, List, [], ◌∷◌, ◌++◌, reverse, map,
  filter, length, Option, none, some, Eq, nat_eq, ◌==◌, ◌!=◌, ltb, leb, is_some, is_empty,
  if◌then◌else◌,
}
use smart_dialerss.Enums.{AgentState, agent_state_eq, all_agent_states}
use smart_dialerss.AgentSm.{TransitionActor, Outcome, returns, raises}
use smart_dialerss.Models.{Agent, Call, seconds}
use smart_dialerss.Config.{Settings}
use smart_dialerss.AgentRepo.{
  AgentCollection, find_for_campaign, transition_agent, heartbeat, count_by_state,
}
use smart_dialerss.CallRepo.{CallCollection, find_active, find_stale_calls}
use smart_dialerss.EventRepo.{
  ProviderEvent, EventCollection, find_latest, find_provider_events_for_call,
}
use smart_dialerss.Database.{Collections, Db}
use smart_dialerss.EventProcessor.{process_event}

-- The default limit of `find_for_campaign`
abbrev pub campaign_limit : ℕ
campaign_limit = 10000

module _ (agents : AgentCollection) where
  open agents use {State}

  -- What the simulators do with the answer of `transition_agent`; an exception ends the loop.
  abbrev pub count_in : ℕ → ℕ × State → ℕ × State
  count_in n (m, s) = (n + m, s)

  -- The clock is read for the transition and for the heartbeat.
  unfoldable pub log_in_each : State → (ℕ → ℕ) → List Agent → ℕ × State
  log_in_each s clock [] = (0, s)
  log_in_each s clock (agent ∷ rest) =
      let skipped = log_in_each s clock rest in
      let after =
        λ (n : ℕ) (t : State). count_in n (log_in_each t (λ k. clock (suc (suc k))) rest) in
      if agent.state != AgentState.offline
      then skipped
      else elim (transition_agent agents s (clock 0) agent.id AgentState.offline
          AgentState.available TransitionActor.agent agent.state_version) [
            | raises error ↦ (0, s)
            | returns (none, s') ↦ after 0 s'
            | returns (some updated, s') ↦ after 1 (heartbeat agents s' (clock 1) agent.id).1
          ]

  unfoldable pub log_everyone_in : State → (ℕ → ℕ) → ℕ → ℕ × State
  unfolding log_in_each
  log_everyone_in s clock campaign_id =
      log_in_each s clock (find_for_campaign agents s campaign_id campaign_limit)

  -- `left` is the number that is still to be removed.
  unfoldable pub take_offline_each : State → (ℕ → ℕ) → ℕ → List Agent → ℕ × State
  take_offline_each s clock zero agents' = (0, s)
  take_offline_each s clock (suc left) [] = (0, s)
  take_offline_each s clock (suc left) (agent ∷ rest) =
      let skipped = take_offline_each s clock (suc left) rest in
      let after = λ (n left' : ℕ) (t : State).
        count_in n (take_offline_each t (λ k. clock (suc k)) left' rest) in
      if agent.state != AgentState.available
      then skipped
      else elim (transition_agent agents s (clock 0) agent.id AgentState.available
          AgentState.offline TransitionActor.agent agent.state_version) [
            | raises error ↦ (0, s)
            | returns (none, s') ↦ after 0 (suc left) s'
            | returns (some updated, s') ↦ after 1 left s'
          ]

  unfoldable pub take_agents_offline : State → (ℕ → ℕ) → ℕ → ℕ → ℕ × State
  unfolding take_offline_each
  take_agents_offline s clock campaign_id count =
      take_offline_each s clock count (find_for_campaign agents s campaign_id campaign_limit)

  -- One round of `_heartbeat_loop`
  unfoldable pub beat_each : State → (ℕ → ℕ) → List Agent → State
  beat_each s clock [] = s
  beat_each s clock (agent ∷ rest) =
      let skipped = beat_each s clock rest in
      let beaten = beat_each (heartbeat agents s (clock 0) agent.id).1 (λ k. clock (suc k)) rest in
      if agent.state != AgentState.offline then beaten else skipped

module _ (c : Collections) (settings : Settings) where
  unfoldable pub replayable_events : Db c → Option ℕ → List ProviderEvent
  replayable_events db none = find_latest c.events db.events 20
  replayable_events db (some provider_call_id) =
      find_provider_events_for_call c.events db.events provider_call_id

  -- The events in their order, the n-th with its clock
  unfoldable pub replay : Db c → (ℕ → ℕ → ℕ) → List ProviderEvent → Db c
  replay db clocks [] = db
  replay db clocks (e ∷ es) =
      replay (process_event c settings db (clocks 0) e).1 (λ k. clocks (suc k)) es

  unfoldable pub duplicate_event_burst : Db c → (ℕ → ℕ → ℕ) → Option ℕ → ℕ × Db c
  unfolding replayable_events replay
  duplicate_event_burst db clocks provider_call_id =
      let events = replayable_events db provider_call_id in (length events, replay db clocks events)

  unfoldable pub out_of_order_burst : Db c → (ℕ → ℕ → ℕ) → Option ℕ → ℕ × Db c
  unfolding replayable_events replay
  out_of_order_burst db clocks provider_call_id =
      let events = replayable_events db provider_call_id in
      (length events, replay db clocks (reverse events))

-- The names of the invariants, which the constants INVARIANT_... give
pub data InvariantName : Type 0 where
  agent_double_booked borrower_double_booked calls_exceed_agents stale_call stuck_reservation :
      InvariantName

-- An identifier in two calls, or the id of a call
pub data Offender : Type 0 where
  bound_twice : ℕ → ℕ → ℕ → Offender
  offending_call : ℕ → Offender

pub record InvariantViolation : Type 0 where
  pub name : InvariantName
  pub offending_ids : List Offender

-- The loop of `_check_duplicate_bindings` for one key; `seen` is the dict from identifiers to calls.
unfoldable pub offenders : (Call → ℕ) → (ℕ → Option ℕ) → List Call → List Offender
offenders key seen [] = []
offenders key seen (call ∷ calls) =
    let rest = offenders key (λ i. if key call == i then some call.id else seen i) calls in
    elim (seen (key call)) [
      | none ↦ rest
      | some other ↦ Offender.bound_twice (key call) other call.id ∷ rest
    ]

-- A violation if there are offenders
abbrev pub violation_of : InvariantName → List Offender → List InvariantViolation
violation_of name [] = []
violation_of name (o ∷ os) = record { name = name; offending_ids = o ∷ os } ∷ []

unfoldable pub check_duplicate_bindings : List Call → List InvariantViolation
unfolding offenders
check_duplicate_bindings active_calls =
    violation_of InvariantName.agent_double_booked
      (offenders (λ c. c.agent_id) (λ i. none) active_calls)
    ++ violation_of InvariantName.borrower_double_booked
        (offenders (λ c. c.borrower_id) (λ i. none) active_calls)

abbrev pub sum_usable : (AgentState → ℕ) → List AgentState → ℕ
sum_usable counts [] = 0
sum_usable counts (state ∷ states) =
    if state == AgentState.offline || state == AgentState.paused
    then sum_usable counts states
    else counts state + sum_usable counts states

abbrev pub call_ids : List Call → List Offender
call_ids calls = map (λ (c : Call). Offender.offending_call c.id) calls

unfoldable pub check_capacity : List Call → (AgentState → ℕ) → List InvariantViolation
check_capacity active_calls agent_counts =
    if leb (length active_calls) (sum_usable agent_counts all_agent_states)
    then []
    else record { name = InvariantName.calls_exceed_agents; offending_ids = call_ids active_calls }
      ∷ []

-- `_check_final_state` from the stale calls of the campaign on
unfoldable pub check_final_state : List Call → (AgentState → ℕ) → List InvariantViolation
check_final_state stale agent_counts =
    violation_of InvariantName.stale_call (call_ids stale)
    ++ (if agent_counts AgentState.reserved == 0
        then []
        else record { name = InvariantName.stuck_reservation; offending_ids = [] } ∷ [])

module _ (c : Collections) (settings : Settings) where
  -- `find_stale_calls` with a limit of 50, less the calls of other campaigns
  abbrev pub stale_calls_of : Db c → ℕ → ℕ → List Call
  stale_calls_of db now campaign_id =
      filter (λ (k : Call). k.campaign_id == campaign_id)
        (find_stale_calls c.calls db.calls (now - seconds settings.call_stale_timeout_seconds) 50)

  unfoldable pub check : Db c → ℕ → ℕ → Bool → List InvariantViolation
  unfolding check_duplicate_bindings check_capacity check_final_state
  check db now campaign_id final =
      let active_calls = find_active c.calls db.calls campaign_id 5000 in
      let agent_counts = count_by_state c.agents db.agents campaign_id in
      check_duplicate_bindings active_calls
      ++ check_capacity active_calls agent_counts
      ++ (if final then check_final_state (stale_calls_of db now campaign_id) agent_counts else [])
