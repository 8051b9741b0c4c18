-- ===== src/System/Agents/Requests.antt =====
-- What the requests on agents do to the agents.
use Prim.Native.String.{String}
use text.Mathlib.Text.{◌==◌ as str_eq}
use smart_dialerss.Prelude.{
  ℕ, ◌≡◌, ◌≢◌, arith, Option, none, some, Option-cases, Bool-cases, inl, inr,
}
use smart_dialerss.Enums.{AgentState}
use smart_dialerss.AgentSm as AgentSm
use smart_dialerss.AgentSm.{TransitionActor, validate_transition}
use smart_dialerss.Models.{Agent}
use smart_dialerss.AgentRepo.{AgentCollection, transition_agent, can_move, move}
use smart_dialerss.AgentRepo as Agents
use smart_dialerss.AgentRepo.Reach.{
  Reaches, Reaches-refl, Reaches-trans, beat-Reaches, move-Reaches,
}
use smart_dialerss.Api.{
  agent_actions, require_api_key, beat, after_move, after_transition, act, agent_action,
  post_agent_action,
}

never_reserved :
    (action : String) (target : AgentState)
    → agent_actions action ≡ some target
    → target ≢ AgentState.reserved
unfolding agent_actions
never_reserved action target h = ground arith

module _ (agents : AgentCollection) where
  open agents use {State}

  beats-Reaches : (s : State) (now i : ℕ) → Reaches agents s (beat agents s now i).1
  unfolding beat
  beats-Reaches s now i = beat-Reaches agents s now i

  after_move-Reaches :
      (s : State) (now i : ℕ) (action : String) (updated : Agent)
      → Reaches agents s (after_move agents s now i action updated).1
  unfolding after_move
  after_move-Reaches s now i action updated = elim (Bool-cases (str_eq action "login")) [
    | inl login ↦ rw (login, after_move) (beats-Reaches s now i)
    | inr other ↦ rw (other, after_move) (Reaches-refl agents s)
  ]

  returned-Reaches :
      (s : State) (now i : ℕ) (action : String) (r : Option Agent × State)
      → Reaches agents s r.1
      → Reaches agents s (after_transition agents s now i action (AgentSm.returns r)).1
  unfolding after_transition
  returned-Reaches s now i action (none, s') h = h
  returned-Reaches s now i action (some updated, s') h =
      Reaches-trans agents h (after_move-Reaches s' now i action updated)

  act-Reaches :
      (s : State) (meanwhile : State → State) (clock : ℕ → ℕ) (action : String) (a : Agent)
      (target : AgentState)
      → ((t : State) → Reaches agents t (meanwhile t))
      → target ≢ AgentState.reserved
      → Reaches agents s (act agents s meanwhile clock action a target).1
  unfolding act transition_agent
  act-Reaches s meanwhile clock action a target fair fresh =
      elim (Option-cases (validate_transition a.state target TransitionActor.agent)) [
        | inr (error, bad) ↦ rw (bad, transition_agent, act, after_transition) (fair s)
        | inl good ↦
            rw (good, transition_agent, act)
              (Reaches-trans agents (fair s) (
                returned-Reaches (meanwhile s) (clock 1) a.id action _ (
                  move-Reaches agents (meanwhile s) (clock 0) a.id a.state target
                    TransitionActor.agent a.state_version fresh good)))
      ]

  agent_action-Reaches :
      (s : State) (meanwhile : State → State) (clock : ℕ → ℕ) (i : ℕ) (action : String)
      → ((t : State) → Reaches agents t (meanwhile t))
      → Reaches agents s (agent_action agents s meanwhile clock i action).1
  unfolding agent_action
  agent_action-Reaches s meanwhile clock i action fair =
      elim (Option-cases (Agents.find_by_id agents s i)) [
        | inl gone ↦ rw (gone, agent_action) (Reaches-refl agents s)
        | inr (a, found) ↦ elim (Bool-cases (str_eq action "heartbeat")) [
          | inl pulse ↦ rw (found, pulse, agent_action) (beats-Reaches s (clock 0) a.id)
          | inr other ↦ elim (Option-cases (agent_actions action)) [
            | inl unknown ↦ rw (found, other, unknown, agent_action) (Reaches-refl agents s)
            | inr (target, known) ↦
                rw (found, other, known, agent_action)
                  (act-Reaches s meanwhile clock action a target fair
                    (never_reserved action target known))
          ]
        ]
      ]

  pub post_agent_action-Reaches :
      (api_key : String) (x_api_key : Option String) (s : State) (meanwhile : State → State)
      (clock : ℕ → ℕ) (i : ℕ) (action : String)
      → ((t : State) → Reaches agents t (meanwhile t))
      → Reaches agents s (post_agent_action agents api_key x_api_key s meanwhile clock i action).1
  unfolding post_agent_action
  post_agent_action-Reaches api_key x_api_key s meanwhile clock i action fair =
      elim (Option-cases (require_api_key api_key x_api_key)) [
        | inr (failure, refused) ↦ rw (refused, post_agent_action) (Reaches-refl agents s)
        | inl allowed ↦
            rw (allowed, post_agent_action) (agent_action-Reaches s meanwhile clock i action fair)
      ]
