-- ===== src/Examples/Agents.antt =====
-- The theorems on agents at concrete inputs.
use smart_dialerss.Prelude.{
  ℕ, nat_eq, ◌≡◌, ◌↔◌, ◌<◌, refl, List, [], ◌∷◌, none, some, true, arith, contains,
}
use smart_dialerss.Enums.{AgentState, agent_state_eq}
use smart_dialerss.AgentSm.{
  Outcome, returns, TransitionActor, allowed_sources, transition_actors, can_transition,
  validate_transition, is_actor_allowed,
}
use smart_dialerss.AgentSm.Laws.{allowed_sources-iff-valid}
use smart_dialerss.AgentSm as AgentSm
use smart_dialerss.Models.{Agent}
use smart_dialerss.Store.Memory.{memory, read, update}
use smart_dialerss.AgentRepo.{
  try_reserve_agent, can_reserve, reserve, build_lease_fields, conditional_accounting,
  time_accounting_updates, transition_agent, can_move, move, release_expired_agent_lease,
}
use smart_dialerss.AgentRepo.Accounting.{conditional-eq-plain}
use smart_dialerss.AgentRepo.Writes as Writes
use smart_dialerss.AgentRepo.Leases.{IsLeased, run-IsLeased, leased-recoverable}
use smart_dialerss.AgentRepo.Exclusion.{reserve-excludes, transition-once}
use smart_dialerss.Examples.{agents_in_memory, free_agent, busy_agent, agents_of, idle, under_way}

allowed_sources-iff-valid_example :
    (contains AgentState.dialing (allowed_sources AgentState.available TransitionActor.recovery)
      ≡ true)
    ↔ (validate_transition AgentState.dialing AgentState.available TransitionActor.recovery ≡ none)
allowed_sources-iff-valid_example =
    allowed_sources-iff-valid AgentState.dialing AgentState.available TransitionActor.recovery

conditional-eq-plain_example :
    conditional_accounting
      (allowed_sources AgentState.available TransitionActor.recovery)
      900
      busy_agent
    ≡ time_accounting_updates AgentState.dialing 900 busy_agent
unfolding allowed_sources AgentSm.is_actor_allowed
conditional-eq-plain_example =
    conditional-eq-plain (allowed_sources AgentState.available TransitionActor.recovery) 900
      busy_agent refl

abbrev reserved_agent : Agent
reserved_agent = record free_agent {
  state = AgentState.reserved;
  reserved_by = some 5;
  reserved_at = some 100;
  lease_expires_at = some 30100;
  state_changed_at = 100;
  state_version = 1;
}

abbrev steps : List (ℕ × ℕ × Writes.Write)
steps = (200, 1, Writes.binds 5 3) ∷ (300, 1, Writes.reserves 7 6 30) ∷ []

reserve-excludes_example :
    let s = (try_reserve_agent agents_in_memory (idle).agents 100 7 1 5 30).1 in
    (try_reserve_agent agents_in_memory (Writes.run agents_in_memory s steps) 400 7 1 6 30).0 ≡ none
unfolding memory read update try_reserve_agent can_reserve reserve build_lease_fields
reserve-excludes_example =
    reserve-excludes agents_in_memory (idle).agents 100 7 1 5 30 reserved_agent refl steps
      ((λ _. tt), ((λ _. tt), tt)) 400 7 6 30

free-IsLeased :
    (j : ℕ) (a : Agent)
    → read nat_eq (λ (b : Agent). b.id) (agents_of free_agent) j ≡ some a
    → IsLeased a
unfolding read
free-IsLeased j a h = ground arith

abbrev leasing : List (ℕ × ℕ × Writes.Write)
leasing = (100, 1, Writes.reserves 7 5 30) ∷ []

run-IsLeased_example : IsLeased reserved_agent
unfolding memory read update Writes.run Writes.perform try_reserve_agent can_reserve reserve
    build_lease_fields
run-IsLeased_example =
    run-IsLeased agents_in_memory (idle).agents leasing (tt, tt) free-IsLeased 1 reserved_agent refl

leased-recoverable_example :
    (deadline : ℕ) × ((busy_agent).lease_expires_at ≡ some deadline)
    × ((now : ℕ)
        → deadline < now
        → (b : Agent) × ((release_expired_agent_lease agents_in_memory
              (under_way).agents
              busy_agent
              now).0
            ≡ some b)
          × (b.state ≡ AgentState.available)
          × (b.reserved_by ≡ none))
unfolding memory read
leased-recoverable_example =
    leased-recoverable agents_in_memory (under_way).agents busy_agent refl (λ _. (refl, refl)) refl

abbrev connected_agents : agents_in_memory.State
connected_agents =
    (agents_in_memory.find_one_and_update (under_way).agents 1 (can_move AgentState.dialing 0)
      (move AgentState.dialing AgentState.connected 500)).1

transition-once_example :
    (s : agents_in_memory.State) × (transition_agent agents_in_memory connected_agents 600 1
        AgentState.dialing AgentState.offline TransitionActor.recovery 0
      ≡ returns (none, s))
    × ((j : ℕ) → agents_in_memory.find_one s j ≡ agents_in_memory.find_one connected_agents j)
unfolding memory read update transition_agent can_move move time_accounting_updates
    validate_transition
transition-once_example =
    transition-once agents_in_memory (under_way).agents connected_agents 500 600 1 0
      AgentState.dialing AgentState.connected AgentState.dialing AgentState.offline
      TransitionActor.event_processor TransitionActor.recovery _ refl refl
