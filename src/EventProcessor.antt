-- ===== src/EventProcessor.antt =====
-- app/services/event_processor.py and `outcome_for_terminal_call` of app/services/retry_service.py.
-- A handler takes the state of the database and gives it back; `clock n` is the time at its n-th
-- reading of the clock. Logging is left out. The driver raises nothing here, so that the handler of
-- `process_event` for other exceptions is left out too.
pub mod Parties
pub mod Ignored
pub mod Effects
pub mod Recording
pub mod Duplicates
pub mod Replays
use Prim.Native.String.{String}
use text.Mathlib.Text.{◌==◌ as str_eq}
use smart_dialerss.Prelude.{
  ℕ, Bool, true, false, not, ◌&&◌, List, [], ◌∷◌, Option, none, some, Eq, ◌==◌, is_some, contains,
  if◌then◌else◌,
}
use smart_dialerss.Enums.{
  AgentState, CallState, EventProcessingStatus, agent_state_eq, call_state_eq,
}
use smart_dialerss.AgentSm.{TransitionActor, returns, raises}
use smart_dialerss.CallSm.{EventApplicability, agent_state_for_call_state, should_apply_event}
use smart_dialerss.Models.{Agent, Call}
use smart_dialerss.Config.{Settings}
use smart_dialerss.AgentRepo.{release_agent, transition_agent}
use smart_dialerss.BorrowerRepo.{BorrowerReleaseOutcome, release_borrower}
use smart_dialerss.CallRepo.{find_by_provider_call_id, transition_call}
use smart_dialerss.EventRepo.{
  ProviderEvent, EventRecordResult, event_key, record_event, mark_processed,
}
use smart_dialerss.Database.{Collections, Db}

-- EVENT_TYPE_TO_CALL_STATE.get(event_type)
unfoldable pub event_type_to_call_state : String → Option CallState
event_type_to_call_state t =
    if str_eq t "RINGING"
    then some CallState.ringing
    else if str_eq t "ANSWERED"
    then some CallState.answered
    else if str_eq t "CONNECTED"
    then some CallState.connected
    else if str_eq t "COMPLETED"
    then some CallState.completed
    else if str_eq t "FAILED"
    then some CallState.failed
    else if str_eq t "CANCELLED"
    then some CallState.cancelled
    else none

-- IGNORED_APPLICABILITY_STATUS, none for APPLY
unfoldable pub ignored_applicability_status : EventApplicability → Option EventProcessingStatus
ignored_applicability_status EventApplicability.ignore_terminal =
    some EventProcessingStatus.stale_ignored
ignored_applicability_status EventApplicability.ignore_stale =
    some EventProcessingStatus.stale_ignored
ignored_applicability_status EventApplicability.ignore_invalid =
    some EventProcessingStatus.invalid_ignored
ignored_applicability_status EventApplicability.apply = none

-- AGENT_RELEASING_CALL_STATES
abbrev pub agent_releasing_call_states : List CallState
agent_releasing_call_states = CallState.completed ∷ CallState.failed ∷ CallState.cancelled ∷ []

pub record EventProcessingResult : Type 0 where
  pub status : EventProcessingStatus
  pub applied_transition : Option (CallState × CallState)

unfoldable pub outcome_for_terminal_call : Bool → BorrowerReleaseOutcome
outcome_for_terminal_call answered =
    if answered then BorrowerReleaseOutcome.contacted else BorrowerReleaseOutcome.retry

abbrev pub reason_or_default : Option String → String
reason_or_default none = "provider_reported_failure"
reason_or_default (some reason) = reason

unfoldable pub failure_reason : ProviderEvent → CallState → Option String
failure_reason event target_state =
    if target_state == CallState.failed then some (reason_or_default event.payload_reason) else none

module _ (c : Collections) (settings : Settings) where
  -- `_finish`
  unfoldable pub finish :
      Db c
      → ProviderEvent
      → EventProcessingStatus
      → Option (CallState × CallState)
      → EventProcessingResult × Db c
  finish db event status transition = (
    record { status = status; applied_transition = transition },
    record db { events = mark_processed c.events db.events (event_key event) status transition },
  )

  -- The last part of `_apply_agent_transition`, for an agent that is not in the state yet.
  unfoldable pub move_agent : Db c → ℕ → Call → CallState → AgentState → Agent → Db c
  move_agent db now call target_state agent_state agent =
      if contains target_state agent_releasing_call_states
      then record db {
        agents =
            (release_agent c.agents db.agents now agent.id call.created_by_worker agent_state
              TransitionActor.event_processor).1;
      }
      else elim (transition_agent c.agents db.agents now agent.id agent.state agent_state
          TransitionActor.event_processor agent.state_version) [
            | raises error ↦ db
            | returns r ↦ record db { agents = r.1 }
          ]

  unfoldable pub apply_agent_transition : Db c → ℕ → Call → CallState → Db c
  unfolding move_agent
  apply_agent_transition db now call target_state = elim (agent_state_for_call_state target_state) [
    | none ↦ db
    | some agent_state ↦ elim (c.agents.find_one db.agents call.agent_id) [
      | none ↦ db
      | some agent ↦
          if agent.state == agent_state
          then db
          else move_agent db now call target_state agent_state agent
    ]
  ]

  -- `_release_borrower`
  unfoldable pub release_call_borrower : Db c → ℕ → Call → CallState → Db c
  unfolding outcome_for_terminal_call
  release_call_borrower db now call target_state = record db {
    borrowers =
        (release_borrower c.borrowers db.borrowers now call.borrower_id call.created_by_worker
          (outcome_for_terminal_call
            (target_state == CallState.completed && is_some call.answered_at))
          settings.max_call_attempts settings.retry_backoff_base_seconds).1;
  }

  -- What `_apply_event` does to the agent and the borrower of a call that it has moved.
  unfoldable pub apply_to_parties : Db c → (ℕ → ℕ) → Call → CallState → Db c
  unfolding apply_agent_transition release_call_borrower
  apply_to_parties db clock updated target_state =
      let moved = apply_agent_transition db (clock 1) updated target_state in
      if contains target_state agent_releasing_call_states
      then release_call_borrower moved (clock 2) updated target_state
      else moved

  -- `_apply_event` from the point where the call and the target state are known
  unfoldable pub apply_to_call :
      Db c → (ℕ → ℕ) → ProviderEvent → Call → CallState → EventProcessingResult × Db c
  unfolding finish apply_to_parties
  apply_to_call db clock event call target_state =
      elim (ignored_applicability_status (should_apply_event call.state target_state)) [
        | some status ↦ finish db event status none
        | none ↦
            let (updated, calls') =
              transition_call c.calls db.calls (clock 0) call.id target_state
                (failure_reason event target_state) in
            let db' : Db c = record db { calls = calls' } in
            elim updated [
              | none ↦ finish db' event EventProcessingStatus.stale_ignored none
              | some call' ↦
                  finish (apply_to_parties db' clock call' target_state) event
                    EventProcessingStatus.processed (some (call.state, target_state))
            ]
      ]

  unfoldable pub apply_event : Db c → (ℕ → ℕ) → ProviderEvent → EventProcessingResult × Db c
  unfolding apply_to_call
  apply_event db clock event =
      elim (find_by_provider_call_id c.calls db.calls event.provider_name event.provider_call_id) [
        | none ↦ finish db event EventProcessingStatus.invalid_ignored none
        | some call ↦ elim (event_type_to_call_state event.event_type) [
          | none ↦ finish db event EventProcessingStatus.invalid_ignored none
          | some target_state ↦ apply_to_call db clock event call target_state
        ]
      ]

  abbrev duplicate_result : EventProcessingResult
  duplicate_result = record {
    status = EventProcessingStatus.duplicate_ignored;
    applied_transition = none;
  }

  unfoldable pub process_event : Db c → (ℕ → ℕ) → ProviderEvent → EventProcessingResult × Db c
  unfolding apply_event
  process_event db clock event =
      let (result, events') = record_event c.events db.events (clock 3) event in
      let db' : Db c = record db { events = events' } in
      elim result [
        | EventRecordResult.duplicate ↦ (duplicate_result, db')
        | EventRecordResult.recorded ↦ apply_event db' clock event
      ]
