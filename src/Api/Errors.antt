-- ===== src/Api/Errors.antt =====
-- The errors that the requests on agents are answered with.
use Prim.Native.String.{String}
use text.Mathlib.Text.{◌==◌ as str_eq}
use mathlib.Core.Path.{subst}
use smart_dialerss.Prelude.{
  ℕ, ◌≡◌, ◌∙◌, refl, sym, ap, inl, inr, true, Option, none, some, Option-cases, Bool-cases, nat_eq,
}
use smart_dialerss.Enums.{AgentState, agent_state_eq}
use smart_dialerss.AgentSm.{TransitionActor, validate_transition, returns}
use smart_dialerss.Models.{Agent}
use smart_dialerss.Store.Laws.{update-unmatched}
use smart_dialerss.AgentRepo.{AgentCollection, transition_agent, can_move, move, find_by_id}
use smart_dialerss.Api.{
  Answer, agent_actions, require_api_key, secured, beat, after_move, after_transition, act,
  agent_action, post_agent_action,
}
use smart_dialerss.Api.Served.{
  SameAgents, IsMoved, IsExplained, beaten, kept_after, beat-answers, move-id, won-IsMoved,
}

module _ (agents : AgentCollection) where
  open agents use {State, find_one}

  beat-IsExplained :
      (s : State) (meanwhile : State → State) (now i : ℕ) (action : String) (a : Agent)
      → str_eq action "heartbeat" ≡ true
      → find_one s i ≡ some a
      → IsExplained agents s meanwhile i action (beat agents s now i)
  unfolding beaten
  beat-IsExplained s meanwhile now i action a beats here =
      let (answer, stored, kept) = beat-answers agents s now i a here in
      subst (λ r. IsExplained agents s meanwhile i action (r, (beat agents s now i).1)) (sym answer)
        (stored, inl (beats, a, now, here, refl, kept))

  after_move-IsExplained :
      (s t : State) (meanwhile : State → State) (now i : ℕ) (action : String) (a : Agent)
      → find_one t i ≡ some a
      → IsMoved agents (meanwhile s) i action a t
      → IsExplained agents s meanwhile i action (after_move agents t now i action a)
  unfolding after_move beaten
  after_move-IsExplained s t meanwhile now i action a here (b, was, asked, valid, version, others) =
      elim (Bool-cases (str_eq action "login")) [
        | inr other ↦ rw (other, after_move) (here, inr (b, was, asked, valid, version, others))
        | inl login ↦
            let (answer, stored, kept) = beat-answers agents t now i a here in
            let both = kept_after agents (meanwhile s) t (beat agents t now i).1 i others kept in
            rw (login, after_move)
              (subst (λ r. IsExplained agents s meanwhile i action (r, (beat agents t now i).1))
                (sym answer) (stored, inr (b, was, asked, valid, version, both)))
      ]

  returned-IsExplained :
      (s : State) (meanwhile : State → State) (now i : ℕ) (action : String)
      (r : Option Agent × State)
      → (r.0 ≡ none → SameAgents agents r.1 (meanwhile s))
      → ((a : Agent)
          → r.0 ≡ some a
          → (find_one r.1 i ≡ some a) × IsMoved agents (meanwhile s) i action a r.1)
      → IsExplained agents s meanwhile i action
          (after_transition agents (meanwhile s) now i action (returns r))
  unfolding after_transition
  returned-IsExplained s meanwhile now i action (none, s') lost won = inr (inr (refl, lost refl))
  returned-IsExplained s meanwhile now i action (some a, s') lost won =
      let (stored, moved) = won a refl in
      after_move-IsExplained s s' meanwhile now i action a stored moved

  act-IsExplained :
      (s : State) (meanwhile : State → State) (clock : ℕ → ℕ) (action : String) (agent : Agent)
      (target : AgentState)
      → agent_actions action ≡ some target
      → IsExplained agents s meanwhile agent.id action
          (act agents s meanwhile clock action agent target)
  unfolding act transition_agent after_transition
  act-IsExplained s meanwhile clock action agent target asked =
      let p = can_move agent.state agent.state_version in
      let f = move agent.state target (clock 0) in
      elim (Option-cases (validate_transition agent.state target TransitionActor.agent)) [
        | inr (error, bad) ↦ rw (bad, act, transition_agent) (inr (inr (refl, λ j. refl)))
        | inl good ↦
            rw (good, act, transition_agent)
              (returned-IsExplained s meanwhile (clock 1) agent.id action
                (agents.find_one_and_update (meanwhile s) agent.id p f)
                (update-unmatched agents (meanwhile s) agent.id p f
                  (move-id agents agent.state target (clock 0)))
                (won-IsMoved agents (meanwhile s) (clock 0) agent.id action agent.state target
                  agent.state_version asked good))
      ]

  agent_action-IsExplained :
      (s : State) (meanwhile : State → State) (clock : ℕ → ℕ) (agent_id : ℕ) (action : String)
      → IsExplained agents s meanwhile agent_id action
          (agent_action agents s meanwhile clock agent_id action)
  unfolding agent_action find_by_id
  agent_action-IsExplained s meanwhile clock agent_id action =
      elim (Option-cases (find_one s agent_id)) [
        | inl unknown ↦ rw (unknown, agent_action, find_by_id) (inr (inl (refl, λ j. refl)))
        | inr (agent, found) ↦
            let at = agents.find_one_key s agent_id agent found in
            let here : find_one s agent.id ≡ some agent = ap (find_one s) at ∙ found in
            elim (Bool-cases (str_eq action "heartbeat")) [
              | inl beats ↦
                  rw (found, beats, agent_action, find_by_id)
                    (subst
                      (λ i.
                        IsExplained agents s meanwhile i action (beat agents s (clock 0) agent.id))
                      at (beat-IsExplained s meanwhile (clock 0) agent.id action agent beats here))
              | inr other ↦ elim (Option-cases (agent_actions action)) [
                | inl no_action ↦
                    rw (found, other, no_action, agent_action, find_by_id)
                      (inr (inl (refl, λ j. refl)))
                | inr (target, known) ↦
                    rw (found, other, known, agent_action, find_by_id)
                      (subst
                        (λ i.
                          IsExplained agents s meanwhile i action
                            (act agents s meanwhile clock action agent target))
                        at (act-IsExplained s meanwhile clock action agent target known))
              ]
            ]
      ]

  secured-IsExplained :
      (s : State) (meanwhile : State → State) (api_key : String) (x_api_key : Option String) (i : ℕ)
      (action : String) (r : Answer Agent × State)
      → IsExplained agents s meanwhile i action r
      → IsExplained agents s meanwhile i action (secured (require_api_key api_key x_api_key) s r)
  unfolding require_api_key
  secured-IsExplained s meanwhile api_key none i action r h =
      elim (Bool-cases (str_eq api_key "")) [
        | inl open_api ↦ rw (open_api, require_api_key) h
        | inr closed ↦ rw (closed, require_api_key) (inl (refl, λ j. refl))
      ]
  secured-IsExplained s meanwhile api_key (some x) i action r h =
      elim (Bool-cases (str_eq api_key "")) [
        | inl open_api ↦ rw (open_api, require_api_key) h
        | inr closed ↦ elim (Bool-cases (str_eq x api_key)) [
          | inl right ↦ rw (closed, right, require_api_key) h
          | inr wrong ↦ rw (closed, wrong, require_api_key) (inl (refl, λ j. refl))
        ]
      ]

  -- A request on an agent is answered with the agent as it is then stored, or refused with 401, 404 or 409,
  -- never with 500, even if others write between the reading of the agent and the transition. If it is
  -- answered, then the action is the heartbeat and the agent differs from what was stored by the time of its
  -- last heartbeat, or the agent, from what the others left of it, took one transition that the state machine
  -- lets agents take, to the state of the action; no other agent is changed by it. A refused request changes no
  -- agent: after a 409 there is just what the others wrote.
  pub post_agent_action-IsExplained :
      (api_key : String) (x_api_key : Option String) (s : State) (meanwhile : State → State)
      (clock : ℕ → ℕ) (agent_id : ℕ) (action : String)
      → IsExplained agents s meanwhile agent_id action
          (post_agent_action agents api_key x_api_key s meanwhile clock agent_id action)
  unfolding post_agent_action
  post_agent_action-IsExplained api_key x_api_key s meanwhile clock agent_id action =
      secured-IsExplained s meanwhile api_key x_api_key agent_id action _
        (agent_action-IsExplained s meanwhile clock agent_id action)
