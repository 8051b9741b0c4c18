-- ===== src/EventProcessor/Ignored.antt =====
-- The events that the processor does not apply.
use Prim.Native.String.{String}
use smart_dialerss.Prelude.{◌≡◌, true, false, [], ◌∷◌, some, if◌then◌else◌, arith, contains}
use smart_dialerss.Enums.{
  CallState, EventProcessingStatus, call_state_eq, agent_state_eq, borrower_status_eq,
}
use smart_dialerss.CallSm.{should_apply_event, is_terminal, can_transition, rank}
use smart_dialerss.EventProcessor.{ignored_applicability_status, event_type_to_call_state}

-- The state that an event reports is one that a call takes at the provider.
reported :
    (event_type : String) (target : CallState)
    → event_type_to_call_state event_type ≡ some target
    → contains target (
        CallState.ringing ∷ CallState.answered ∷ CallState.connected ∷ CallState.completed
        ∷ CallState.failed ∷ CallState.cancelled ∷ [])
      ≡ true
unfolding event_type_to_call_state
reported event_type target known = ground arith

-- The status of an event that is not applied to a call in this state
abbrev pub status_of_ignored : CallState → EventProcessingStatus
status_of_ignored current =
    if contains current (CallState.queued ∷ CallState.reserved ∷ [])
    then EventProcessingStatus.invalid_ignored
    else EventProcessingStatus.stale_ignored

ignored_target :
    (current target : CallState)
    → contains target (
        CallState.ringing ∷ CallState.answered ∷ CallState.connected ∷ CallState.completed
        ∷ CallState.failed ∷ CallState.cancelled ∷ [])
      ≡ true
    → can_transition current target ≡ false
    → ignored_applicability_status (should_apply_event current target)
      ≡ some (status_of_ignored current)
unfolding ignored_applicability_status should_apply_event can_transition rank is_terminal
ignored_target current target reports impossible = ground arith

pub ignored-status :
    (event_type : String) (current target : CallState)
    → event_type_to_call_state event_type ≡ some target
    → can_transition current target ≡ false
    → ignored_applicability_status (should_apply_event current target)
      ≡ some (status_of_ignored current)
ignored-status event_type current target known impossible =
    ignored_target current target (reported event_type target known) impossible
