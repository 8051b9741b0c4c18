-- ===== src/AgentSm.antt =====
-- app/state_machines/agent_sm.py and errors.py: the agent's transitions, who may trigger each, and
-- the checks. A frozenset is a list that is only asked for membership; the exception that
-- `validate_transition` raises is an optional value, without its texts.
pub mod Laws
use smart_dialerss.Prelude.{
  ℕ, ◌≡◌, ◌↔◌, Bool, true, ◌&&◌, not, List, [], ◌∷◌, Option, none, some, arith, Eq, ◌==◌, nat_beq,
  contains, filter, if◌then◌else◌,
}
use smart_dialerss.Enums.{AgentState, agent_state_eq, all_agent_states}

pub data TransitionActor : Type 0 where
  allocator event_processor recovery agent worker_timer : TransitionActor

abbrev actor_index : TransitionActor → ℕ
actor_index TransitionActor.allocator = 0
actor_index TransitionActor.event_processor = 1
actor_index TransitionActor.recovery = 2
actor_index TransitionActor.agent = 3
actor_index TransitionActor.worker_timer = 4

pub actor_index_iff :
    (a b : TransitionActor) → (nat_beq (actor_index a) (actor_index b) ≡ true) ↔ (a ≡ b)
actor_index_iff a b = ground arith

instance abbrev pub transition_actor_eq : Eq TransitionActor
transition_actor_eq = record {
  beq = λ a b. nat_beq (actor_index a) (actor_index b);
  beq_iff = actor_index_iff;
}

-- InvalidStateTransition and UnauthorizedTransitionActor
pub data StateMachineError : Type 0 where
  invalid_state_transition unauthorized_transition_actor : StateMachineError

-- What a method does that may raise one of the two.
pub data Outcome (A : Type 0) : Type 0 where
  returns : A → Outcome A
  raises : StateMachineError → Outcome A

-- AGENT_TRANSITIONS
abbrev pub agent_transitions : AgentState → List AgentState
agent_transitions AgentState.offline = AgentState.available ∷ []
agent_transitions AgentState.available =
    AgentState.reserved ∷ AgentState.paused ∷ AgentState.offline ∷ []
agent_transitions AgentState.reserved =
    AgentState.dialing ∷ AgentState.available ∷ AgentState.offline ∷ []
agent_transitions AgentState.dialing =
    AgentState.connected ∷ AgentState.available ∷ AgentState.offline ∷ []
agent_transitions AgentState.connected =
    AgentState.wrap_up ∷ AgentState.available ∷ AgentState.offline ∷ []
agent_transitions AgentState.wrap_up =
    AgentState.available ∷ AgentState.paused ∷ AgentState.offline ∷ []
agent_transitions AgentState.paused = AgentState.available ∷ AgentState.offline ∷ []

-- TRANSITION_ACTORS.get(pair, frozenset())
abbrev pub transition_actors : AgentState → AgentState → List TransitionActor
transition_actors AgentState.offline AgentState.available = TransitionActor.agent ∷ []
transition_actors AgentState.available AgentState.reserved = TransitionActor.allocator ∷ []
transition_actors AgentState.available AgentState.paused = TransitionActor.agent ∷ []
transition_actors AgentState.available AgentState.offline =
    TransitionActor.agent ∷ TransitionActor.recovery ∷ []
transition_actors AgentState.reserved AgentState.dialing = TransitionActor.allocator ∷ []
transition_actors AgentState.reserved AgentState.available =
    TransitionActor.allocator ∷ TransitionActor.recovery ∷ []
transition_actors AgentState.reserved AgentState.offline =
    TransitionActor.agent ∷ TransitionActor.recovery ∷ []
transition_actors AgentState.dialing AgentState.connected = TransitionActor.event_processor ∷ []
transition_actors AgentState.dialing AgentState.available =
    TransitionActor.allocator ∷ TransitionActor.event_processor ∷ TransitionActor.recovery ∷ []
transition_actors AgentState.dialing AgentState.offline =
    TransitionActor.agent ∷ TransitionActor.recovery ∷ []
transition_actors AgentState.connected AgentState.wrap_up = TransitionActor.event_processor ∷ []
transition_actors AgentState.connected AgentState.available =
    TransitionActor.event_processor ∷ TransitionActor.recovery ∷ []
transition_actors AgentState.connected AgentState.offline =
    TransitionActor.agent ∷ TransitionActor.recovery ∷ []
transition_actors AgentState.wrap_up AgentState.available =
    TransitionActor.worker_timer ∷ TransitionActor.recovery ∷ []
transition_actors AgentState.wrap_up AgentState.paused = TransitionActor.agent ∷ []
transition_actors AgentState.wrap_up AgentState.offline =
    TransitionActor.agent ∷ TransitionActor.recovery ∷ []
transition_actors AgentState.paused AgentState.available = TransitionActor.agent ∷ []
transition_actors AgentState.paused AgentState.offline =
    TransitionActor.agent ∷ TransitionActor.recovery ∷ []
transition_actors _ _ = []

-- BUSY_AGENT_STATES
abbrev pub busy_agent_states : List AgentState
busy_agent_states =
    AgentState.reserved ∷ AgentState.dialing ∷ AgentState.connected ∷ AgentState.wrap_up ∷ []

unfoldable pub can_transition : AgentState → AgentState → Bool
can_transition current target = contains target (agent_transitions current)

unfoldable pub is_actor_allowed : AgentState → AgentState → TransitionActor → Bool
is_actor_allowed current target actor = contains actor (transition_actors current target)

unfoldable pub validate_transition :
    AgentState → AgentState → TransitionActor → Option StateMachineError
unfolding can_transition is_actor_allowed
validate_transition current target actor =
    if not (can_transition current target)
    then some StateMachineError.invalid_state_transition
    else if not (is_actor_allowed current target actor)
    then some StateMachineError.unauthorized_transition_actor
    else none

unfoldable pub allowed_sources : AgentState → TransitionActor → List AgentState
unfolding can_transition is_actor_allowed
allowed_sources target actor =
    filter (λ state. can_transition state target && is_actor_allowed state target actor)
      all_agent_states

unfoldable pub is_claimable : AgentState → Bool
is_claimable state = state == AgentState.available

unfoldable pub counts_as_busy : AgentState → Bool
counts_as_busy state = contains state busy_agent_states
