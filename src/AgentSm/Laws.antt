-- ===== src/AgentSm/Laws.antt =====
-- What the two tables of app/state_machines/agent_sm.py give together.
use smart_dialerss.Prelude.{◌≡◌, ◌↔◌, Bool, true, false, List, [], ◌∷◌, none, arith, contains}
use smart_dialerss.Enums.{AgentState, agent_state_eq}
use smart_dialerss.AgentSm.{
  TransitionActor, transition_actors, can_transition, is_actor_allowed, validate_transition,
  allowed_sources, counts_as_busy,
}

abbrev pub has_actor : List TransitionActor → Bool
has_actor [] = false
has_actor (_ ∷ _) = true

-- The two tables agree: a transition is in the table of transitions exactly if the table of actors
-- names somebody for it.
pub can_transition-has_actor :
    (current target : AgentState)
    → can_transition current target ≡ has_actor (transition_actors current target)
unfolding can_transition
can_transition-has_actor current target = ground arith

-- An actor is let through exactly if the table of actors names it for the transition.
pub validate-iff-actor :
    (current target : AgentState) (actor : TransitionActor)
    → (validate_transition current target actor ≡ none)
      ↔ (is_actor_allowed current target actor ≡ true)
unfolding validate_transition
validate-iff-actor current target actor = ground arith

-- The states that a repository query takes for sources are those from which the actor's transition
-- passes validation.
pub allowed_sources-iff-valid :
    (state target : AgentState) (actor : TransitionActor)
    → (contains state (allowed_sources target actor) ≡ true)
      ↔ (validate_transition state target actor ≡ none)
unfolding allowed_sources validate_transition
allowed_sources-iff-valid state target actor = ground arith

-- Recovery can free every busy agent, to AVAILABLE and to OFFLINE.
pub busy-recoverable :
    (state : AgentState)
    → counts_as_busy state ≡ true
    → (validate_transition state AgentState.available TransitionActor.recovery ≡ none)
      × (validate_transition state AgentState.offline TransitionActor.recovery ≡ none)
unfolding counts_as_busy validate_transition
busy-recoverable state h = ground arith
