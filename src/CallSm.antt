-- ===== src/CallSm.antt =====
-- app/state_machines/call_sm.py: the call's transitions, and what an incoming event may do.
pub mod Order
use smart_dialerss.Prelude.{
  ℕ, Bool, not, List, [], ◌∷◌, Option, none, some, Eq, ◌==◌, leb, contains, if◌then◌else◌,
}
use smart_dialerss.Enums.{
  AgentState, CallState, call_state_eq, call_state_rank, terminal_call_states,
}

pub data EventApplicability : Type 0 where
  apply ignore_terminal ignore_stale ignore_invalid : EventApplicability

-- CALL_TRANSITIONS
abbrev pub call_transitions : CallState → List CallState
call_transitions CallState.queued =
    CallState.reserved ∷ CallState.initiated ∷ CallState.failed ∷ CallState.cancelled ∷ []
call_transitions CallState.reserved =
    CallState.initiated ∷ CallState.failed ∷ CallState.cancelled ∷ []
call_transitions CallState.initiated =
    CallState.ringing ∷ CallState.answered ∷ CallState.connected ∷ CallState.completed
    ∷ CallState.failed ∷ CallState.cancelled ∷ []
call_transitions CallState.ringing =
    CallState.answered ∷ CallState.connected ∷ CallState.completed ∷ CallState.failed
    ∷ CallState.cancelled ∷ []
call_transitions CallState.answered =
    CallState.connected ∷ CallState.completed ∷ CallState.failed ∷ CallState.cancelled ∷ []
call_transitions CallState.connected =
    CallState.completed ∷ CallState.failed ∷ CallState.cancelled ∷ []
call_transitions CallState.completed = []
call_transitions CallState.failed = []
call_transitions CallState.cancelled = []

unfoldable pub rank : CallState → ℕ
rank state = call_state_rank state

unfoldable pub is_terminal : CallState → Bool
is_terminal state = contains state terminal_call_states

unfoldable pub can_transition : CallState → CallState → Bool
can_transition current target = contains target (call_transitions current)

unfoldable pub should_apply_event : CallState → CallState → EventApplicability
unfolding rank is_terminal can_transition
should_apply_event current_state target_state =
    if is_terminal current_state
    then EventApplicability.ignore_terminal
    else if leb (rank target_state) (rank current_state)
    then EventApplicability.ignore_stale
    else if not (can_transition current_state target_state)
    then EventApplicability.ignore_invalid
    else EventApplicability.apply

-- AGENT_STATE_FOR_CALL_STATE.get(call_state)
unfoldable pub agent_state_for_call_state : CallState → Option AgentState
agent_state_for_call_state CallState.initiated = some AgentState.dialing
agent_state_for_call_state CallState.ringing = some AgentState.dialing
agent_state_for_call_state CallState.answered = some AgentState.connected
agent_state_for_call_state CallState.connected = some AgentState.connected
agent_state_for_call_state CallState.completed = some AgentState.wrap_up
agent_state_for_call_state CallState.failed = some AgentState.available
agent_state_for_call_state CallState.cancelled = some AgentState.available
agent_state_for_call_state _ = none
