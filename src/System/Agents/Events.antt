-- ===== src/System/Agents/Events.antt =====
-- What the event processor does to the agents.
use smart_dialerss.Prelude.{
  ℕ, ◌≡◌, ◌≢◌, arith, true, false, some, Option-cases, Bool-cases, inl, inr, contains, ◌==◌,
}
use smart_dialerss.Enums.{AgentState, CallState, agent_state_eq, call_state_eq}
use smart_dialerss.AgentSm.{TransitionActor, validate_transition}
use smart_dialerss.CallSm.{agent_state_for_call_state, should_apply_event}
use smart_dialerss.Models.{Agent, Call}
use smart_dialerss.Config.{Settings}
use smart_dialerss.AgentRepo.{transition_agent}
use smart_dialerss.AgentRepo.Leases.{in_call}
use smart_dialerss.AgentRepo.Reach.{Reaches, Reaches-refl, release-Reaches, move-Reaches}
use smart_dialerss.CallRepo.{find_by_provider_call_id, transition_call}
use smart_dialerss.EventRepo.{ProviderEvent, document, record_event}
use smart_dialerss.Database.{Collections, Db}
use smart_dialerss.EventProcessor.{
  agent_releasing_call_states, event_type_to_call_state, failure_reason,
  ignored_applicability_status, finish, move_agent, apply_agent_transition, release_call_borrower,
  apply_to_parties, apply_to_call, apply_event, process_event,
}

never_reserved :
    (target : CallState) (state : AgentState)
    → agent_state_for_call_state target ≡ some state
    → state ≢ AgentState.reserved
unfolding agent_state_for_call_state
never_reserved target state h = ground arith

end_leaves :
    (target : CallState) (state : AgentState)
    → agent_state_for_call_state target ≡ some state
    → contains target agent_releasing_call_states ≡ true
    → in_call state ≡ false
unfolding agent_state_for_call_state
end_leaves target state h ends = ground arith

module _ (c : Collections) (settings : Settings) where
  move_agent-Reaches :
      (db : Db c) (now : ℕ) (call : Call) (target : CallState) (state : AgentState) (a : Agent)
      → agent_state_for_call_state target ≡ some state
      → Reaches c.agents db.agents (move_agent c settings db now call target state a).agents
  unfolding move_agent transition_agent
  move_agent-Reaches db now call target state a known =
      elim (Bool-cases (contains target agent_releasing_call_states)) [
        | inl ends ↦
            rw (ends, move_agent)
              (release-Reaches c.agents db.agents now a.id call.created_by_worker state
                TransitionActor.event_processor (end_leaves target state known ends))
        | inr goes_on ↦
            elim (Option-cases
              (validate_transition a.state state TransitionActor.event_processor)) [
                | inr (error, bad) ↦
                    rw (goes_on, bad, move_agent, transition_agent)
                      (Reaches-refl c.agents db.agents)
                | inl good ↦
                    rw (goes_on, good, move_agent, transition_agent)
                      (move-Reaches c.agents db.agents now a.id a.state state
                        TransitionActor.event_processor a.state_version
                        (never_reserved target state known) good)
              ]
      ]

  apply_agent_transition-Reaches :
      (db : Db c) (now : ℕ) (call : Call) (target : CallState)
      → Reaches c.agents db.agents (apply_agent_transition c settings db now call target).agents
  unfolding apply_agent_transition
  apply_agent_transition-Reaches db now call target =
      elim (Option-cases (agent_state_for_call_state target)) [
        | inl nothing ↦ rw (nothing, apply_agent_transition) (Reaches-refl c.agents db.agents)
        | inr (state, known) ↦ elim (Option-cases (c.agents.find_one db.agents call.agent_id)) [
          | inl gone ↦ rw (known, gone, apply_agent_transition) (Reaches-refl c.agents db.agents)
          | inr (a, found) ↦ elim (Bool-cases (a.state == state)) [
            | inl there ↦
                rw (known, found, there, apply_agent_transition) (Reaches-refl c.agents db.agents)
            | inr elsewhere ↦
                rw (known, found, elsewhere, apply_agent_transition)
                  (move_agent-Reaches db now call target state a known)
          ]
        ]
      ]

  apply_to_parties-Reaches :
      (db : Db c) (clock : ℕ → ℕ) (call : Call) (target : CallState)
      → Reaches c.agents db.agents (apply_to_parties c settings db clock call target).agents
  unfolding apply_to_parties release_call_borrower
  apply_to_parties-Reaches db clock call target =
      let moved = apply_agent_transition-Reaches db (clock 1) call target in
      elim (Bool-cases (contains target agent_releasing_call_states)) [
        | inl ends ↦ rw (ends, apply_to_parties) moved
        | inr goes_on ↦ rw (goes_on, apply_to_parties) moved
      ]

  apply_to_call-Reaches :
      (db : Db c) (clock : ℕ → ℕ) (e : ProviderEvent) (call : Call) (target : CallState)
      → Reaches c.agents db.agents (apply_to_call c settings db clock e call target).1.agents
  unfolding apply_to_call finish
  apply_to_call-Reaches db clock e call target =
      let r = transition_call c.calls db.calls (clock 0) call.id target (failure_reason e target) in
      elim (Option-cases (ignored_applicability_status (should_apply_event call.state target))) [
        | inr (status, ignored) ↦ rw (ignored, apply_to_call) (Reaches-refl c.agents db.agents)
        | inl applies ↦ elim (Option-cases r.0) [
          | inl lost ↦ rw (applies, lost, apply_to_call) (Reaches-refl c.agents db.agents)
          | inr (call', won) ↦
              rw (applies, won, apply_to_call)
                (apply_to_parties-Reaches (record db { calls = r.1 }) clock call' target)
        ]
      ]

  apply_event-Reaches :
      (db : Db c) (clock : ℕ → ℕ) (e : ProviderEvent)
      → Reaches c.agents db.agents (apply_event c settings db clock e).1.agents
  unfolding apply_event finish
  apply_event-Reaches db clock e =
      elim (Option-cases
        (find_by_provider_call_id c.calls db.calls e.provider_name e.provider_call_id)) [
          | inl unknown ↦ rw (unknown, apply_event) (Reaches-refl c.agents db.agents)
          | inr (call, found) ↦ elim (Option-cases (event_type_to_call_state e.event_type)) [
            | inl other ↦ rw (found, other, apply_event) (Reaches-refl c.agents db.agents)
            | inr (target, known) ↦
                rw (found, known, apply_event) (apply_to_call-Reaches db clock e call target)
          ]
        ]

  pub process_event-Reaches :
      (db : Db c) (clock : ℕ → ℕ) (e : ProviderEvent)
      → Reaches c.agents db.agents (process_event c settings db clock e).1.agents
  unfolding process_event record_event
  process_event-Reaches db clock e =
      elim (Bool-cases (c.events.insert_one db.events (document (clock 3) e)).0) [
        | inr again ↦ rw (again, process_event, record_event) (Reaches-refl c.agents db.agents)
        | inl first ↦ rw (first, process_event, record_event) (apply_event-Reaches _ clock e)
      ]
