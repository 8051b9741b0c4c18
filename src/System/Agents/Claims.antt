-- ===== src/System/Agents/Claims.antt =====
-- What the reservation service does to the agents.
use smart_dialerss.Prelude.{
  ℕ, suc, ◌≡◌, refl, true, false, List, [], ◌∷◌, Option, none, some, Option-cases, inl, inr,
}
use smart_dialerss.Enums.{AgentState, call_state_eq}
use smart_dialerss.AgentSm.{TransitionActor}
use smart_dialerss.Models.{Agent, Borrower}
use smart_dialerss.Config.{Settings}
use smart_dialerss.AgentRepo.{try_reserve_agent}
use smart_dialerss.AgentRepo.Reach.{
  Reaches, Reaches-refl, Reaches-trans, Reaches-eq, reserve-Reaches, release-Reaches,
}
use smart_dialerss.BorrowerRepo.{try_reserve_borrower}
use smart_dialerss.Database.{Collections, Db}
use smart_dialerss.Reservation.{
  Fault, raises, after_call, claim_agents, claim_agent, claim_borrowers, claim_borrower,
  with_borrower, with_agent, release_reserved_agent, reserve_pair,
}
use smart_dialerss.System.Agents.Sweeps.{available_out}

module _ (c : Collections) (settings : Settings) where
  claim_agents-Reaches :
      (candidates : List Agent) (db : Db c) (clock : ℕ → ℕ) (campaign_id worker_id : ℕ)
      → Reaches c.agents db.agents
          (claim_agents c settings db clock campaign_id worker_id candidates).1.agents
  unfolding claim_agents
  claim_agents-Reaches [] db clock campaign_id worker_id = Reaches-refl c.agents db.agents
  claim_agents-Reaches (a ∷ candidates) db clock campaign_id worker_id =
      let r =
        try_reserve_agent c.agents db.agents (clock 0) campaign_id a.id worker_id
          settings.reservation_ttl_seconds in
      let one =
        reserve-Reaches c.agents db.agents (clock 0) campaign_id a.id worker_id
          settings.reservation_ttl_seconds in
      elim (Option-cases r.0) [
        | inl lost ↦
            rw (lost, claim_agents)
              (Reaches-trans c.agents one (
                claim_agents-Reaches candidates (record db { agents = r.1 }) (λ n. clock (suc n))
                  campaign_id worker_id))
        | inr (_, won) ↦ rw (won, claim_agents) one
      ]

  pub release_reserved_agent-Reaches :
      (db : Db c) (now agent_id worker_id : ℕ)
      → Reaches c.agents db.agents
          (release_reserved_agent c settings db now agent_id worker_id).agents
  unfolding release_reserved_agent
  release_reserved_agent-Reaches db now agent_id worker_id =
      release-Reaches c.agents db.agents now agent_id worker_id AgentState.available
        TransitionActor.allocator available_out

  claim_borrowers-agents :
      (candidates : List Borrower) (db : Db c) (clock : ℕ → ℕ) (fault : Fault)
      (campaign_id worker_id : ℕ)
      → (claim_borrowers c settings db clock fault campaign_id worker_id candidates).1.agents
        ≡ db.agents
  unfolding claim_borrowers
  claim_borrowers-agents [] db clock fault campaign_id worker_id = refl
  claim_borrowers-agents (b ∷ candidates) db clock fault campaign_id worker_id =
      let r =
        try_reserve_borrower c.borrowers db.borrowers (clock 0) campaign_id b.id worker_id
          settings.reservation_ttl_seconds in
      elim (Option-cases (raises fault)) [
        | inr (true, raised) ↦ rw (raised, claim_borrowers) refl
        | inr (false, raised) ↦ rw (raised, claim_borrowers) refl
        | inl goes_on ↦ elim (Option-cases r.0) [
          | inl lost ↦
              rw (goes_on, lost, claim_borrowers)
                (claim_borrowers-agents candidates (record db { borrowers = r.1 })
                  (λ n. clock (suc n)) (after_call fault) campaign_id worker_id)
          | inr (_, won) ↦ rw (goes_on, won, claim_borrowers) refl
        ]
      ]

  claim_borrower-agents :
      (db : Db c) (clock : ℕ → ℕ) (fault : Fault) (campaign_id worker_id : ℕ)
      → (claim_borrower c settings db clock fault campaign_id worker_id).1.agents ≡ db.agents
  unfolding claim_borrower
  claim_borrower-agents db clock fault campaign_id worker_id = elim (Option-cases (raises fault)) [
    | inr (applied, raised) ↦ rw (raised, claim_borrower) refl
    | inl goes_on ↦
        rw (goes_on, claim_borrower)
          (claim_borrowers-agents _ db (λ n. clock (suc n)) (after_call fault) campaign_id
            worker_id)
  ]

  with_borrower-Reaches :
      (db : Db c) (now campaign_id worker_id : ℕ) (a : Agent) (b : Option (Option Borrower))
      → Reaches c.agents db.agents
          (with_borrower c settings db now campaign_id worker_id a b).1.agents
  unfolding with_borrower
  with_borrower-Reaches db now campaign_id worker_id a none =
      release_reserved_agent-Reaches db now a.id worker_id
  with_borrower-Reaches db now campaign_id worker_id a (some none) =
      release_reserved_agent-Reaches db now a.id worker_id
  with_borrower-Reaches db now campaign_id worker_id a (some (some b)) =
      Reaches-refl c.agents db.agents

  with_agent-Reaches :
      (db : Db c) (clock_b : ℕ → ℕ) (now : ℕ) (fault : Fault) (campaign_id worker_id : ℕ)
      (a : Option Agent)
      → Reaches c.agents db.agents
          (with_agent c settings db clock_b now fault campaign_id worker_id a).1.agents
  unfolding with_agent
  with_agent-Reaches db clock_b now fault campaign_id worker_id none =
      Reaches-refl c.agents db.agents
  with_agent-Reaches db clock_b now fault campaign_id worker_id (some a) =
      Reaches-trans c.agents
        (Reaches-eq c.agents (claim_borrower-agents db clock_b fault campaign_id worker_id))
        (with_borrower-Reaches _ now campaign_id worker_id a _)

  pub reserve_pair-Reaches :
      (db : Db c) (clock_a clock_b : ℕ → ℕ) (now : ℕ) (fault : Fault) (campaign_id worker_id : ℕ)
      → Reaches c.agents db.agents
          (reserve_pair c settings db clock_a clock_b now fault campaign_id worker_id).1.agents
  unfolding reserve_pair claim_agent
  reserve_pair-Reaches db clock_a clock_b now fault campaign_id worker_id =
      Reaches-trans c.agents (claim_agents-Reaches _ db clock_a campaign_id worker_id)
        (with_agent-Reaches _ clock_b now fault campaign_id worker_id _)
