-- ===== src/AgentRepo/Reach.antt =====
-- The states of the agents collection that the program's writes lead to.
use smart_dialerss.Prelude.{
  ℕ, ◌≡◌, ◌≢◌, ◌∙◌, refl, sym, ap, false, List, [], ◌∷◌, ◌++◌, All, none, some,
}
use mathlib.Core.Path.{subst}
use smart_dialerss.Enums.{AgentState}
use smart_dialerss.AgentSm.{TransitionActor, validate_transition, returns, raises}
use smart_dialerss.Models.{Agent}
use smart_dialerss.AgentRepo.{
  AgentCollection, try_reserve_agent, release_agent, transition_agent, bind_call,
  release_expired_agent_lease, heartbeat, can_move, move,
}
use smart_dialerss.AgentRepo.Writes.{
  Write, reserves, releases, transitions, binds, expires, beats, perform, run, after_outcome,
}
use smart_dialerss.AgentRepo.Leases.{IsIssued, in_call}

module _ (agents : AgentCollection) where
  -- Some sequence of writes that the program issues leads from the one state to the other.
  pub record Reaches (s s' : agents.State) : Type 0 where
    pub steps : List (ℕ × ℕ × Write)
    pub issued : All (λ st. IsIssued st.2) steps
    pub leads : run agents s steps ≡ s'

  pub Reaches-refl : (s : agents.State) → Reaches s s
  unfolding run
  Reaches-refl s = record { steps = []; issued = tt; leads = refl }

  run-append :
      (steps rest : List (ℕ × ℕ × Write)) (s : agents.State)
      → run agents s (steps ++ rest) ≡ run agents (run agents s steps) rest
  unfolding run
  run-append [] rest s = refl
  run-append ((now, i, w) ∷ steps) rest s = run-append steps rest (perform agents s now i w)

  All-append :
      (steps rest : List (ℕ × ℕ × Write))
      → All (λ st. IsIssued st.2) steps
      → All (λ st. IsIssued st.2) rest
      → All (λ st. IsIssued st.2) (steps ++ rest)
  All-append [] rest h k = k
  All-append (st ∷ steps) rest (h, hs) k = (h, All-append steps rest hs k)

  pub Reaches-trans : {s t u : agents.State} → Reaches s t → Reaches t u → Reaches s u
  Reaches-trans {s} {t} {u} h k = record {
    steps = h.steps ++ k.steps;
    issued = All-append h.steps k.steps h.issued k.issued;
    leads = run-append h.steps k.steps s ∙ ap (λ x. run agents x k.steps) h.leads ∙ k.leads;
  }

  pub Reaches-eq : {s t : agents.State} → t ≡ s → Reaches s t
  Reaches-eq {s} {t} h = subst (Reaches s) (sym h) (Reaches-refl s)

  one :
      (s : agents.State) (now i : ℕ) (w : Write) → IsIssued w → Reaches s (perform agents s now i w)
  unfolding run
  one s now i w issued = record { steps = (now, i, w) ∷ []; issued = (issued, tt); leads = refl }

  pub reserve-Reaches :
      (s : agents.State) (now campaign_id agent_id worker_id ttl : ℕ)
      → Reaches s (try_reserve_agent agents s now campaign_id agent_id worker_id ttl).1
  unfolding perform
  reserve-Reaches s now campaign_id agent_id worker_id ttl =
      one s now agent_id (reserves campaign_id worker_id ttl) tt

  pub release-Reaches :
      (s : agents.State) (now agent_id worker_id : ℕ) (target : AgentState)
      (actor : TransitionActor)
      → in_call target ≡ false
      → Reaches s (release_agent agents s now agent_id worker_id target actor).1
  unfolding perform
  release-Reaches s now agent_id worker_id target actor out =
      one s now agent_id (releases worker_id target actor) out

  pub transition-Reaches :
      (s : agents.State) (now agent_id : ℕ) (from_state target : AgentState)
      (actor : TransitionActor) (version : ℕ)
      → target ≢ AgentState.reserved
      → Reaches s
          (after_outcome s (transition_agent agents s now agent_id from_state target actor version))
  unfolding perform
  transition-Reaches s now agent_id from_state target actor version fresh =
      one s now agent_id (transitions from_state target actor version) fresh

  -- A transition that is allowed, as the write on the collection that it makes
  pub move-Reaches :
      (s : agents.State) (now agent_id : ℕ) (from_state target : AgentState)
      (actor : TransitionActor) (version : ℕ)
      → target ≢ AgentState.reserved
      → validate_transition from_state target actor ≡ none
      → Reaches s
          (agents.find_one_and_update s agent_id
            (can_move from_state version)
            (move from_state target now)).1
  unfolding transition_agent after_outcome
  move-Reaches s now agent_id from_state target actor version fresh good =
      subst
        (λ o. Reaches s (
          after_outcome s (elim o [
            | some error ↦ raises error
            | none ↦ returns (
                agents.find_one_and_update s agent_id (can_move from_state version)
                  (move from_state target now))
          ])))
        good (transition-Reaches s now agent_id from_state target actor version fresh)

  pub bind-Reaches :
      (s : agents.State) (agent_id worker_id call_id : ℕ)
      → Reaches s (bind_call agents s agent_id worker_id call_id).1
  unfolding perform
  bind-Reaches s agent_id worker_id call_id = one s 0 agent_id (binds worker_id call_id) tt

  pub expire-Reaches :
      (s : agents.State) (seen : Agent) (now : ℕ)
      → Reaches s (release_expired_agent_lease agents s seen now).1
  unfolding perform
  expire-Reaches s seen now = one s now seen.id (expires seen) tt

  pub beat-Reaches :
      (s : agents.State) (now agent_id : ℕ) → Reaches s (heartbeat agents s now agent_id).1
  unfolding perform
  beat-Reaches s now agent_id = one s now agent_id beats tt
