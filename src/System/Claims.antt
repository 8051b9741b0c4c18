-- ===== src/System/Claims.antt =====
-- The reservation of pairs and the calls.
use smart_dialerss.Prelude.{
  ℕ, suc, ◌≡◌, refl, true, false, List, [], ◌∷◌, Option, none, some, Option-cases, inl, inr, ◌∙◌,
}
use smart_dialerss.Enums.{call_state_eq}
use smart_dialerss.Models.{Agent, Borrower}
use smart_dialerss.Config.{Settings}
use smart_dialerss.AgentRepo.{try_reserve_agent}
use smart_dialerss.BorrowerRepo.{try_reserve_borrower}
use smart_dialerss.Database.{Collections, Db}
use smart_dialerss.Reservation.{
  Fault, raises, after_call, claim_agents, claim_agent, claim_borrowers, claim_borrower,
  with_borrower, with_agent, release_reserved_agent, reserve_pair,
}

module _ (c : Collections) (settings : Settings) where
  claim_agents-calls :
      (candidates : List Agent) (db : Db c) (clock : ℕ → ℕ) (campaign_id worker_id : ℕ)
      → (claim_agents c settings db clock campaign_id worker_id candidates).1.calls ≡ db.calls
  unfolding claim_agents
  claim_agents-calls [] db clock campaign_id worker_id = refl
  claim_agents-calls (a ∷ candidates) db clock campaign_id worker_id =
      let r =
        try_reserve_agent c.agents db.agents (clock 0) campaign_id a.id worker_id
          settings.reservation_ttl_seconds in
      let rest =
        claim_agents-calls candidates (record db { agents = r.1 }) (λ n. clock (suc n)) campaign_id
          worker_id in
      elim (Option-cases r.0) [
        | inl lost ↦ rw (lost, claim_agents) rest
        | inr (_, won) ↦ rw (won, claim_agents) refl
      ]

  claim_borrowers-calls :
      (candidates : List Borrower) (db : Db c) (clock : ℕ → ℕ) (fault : Fault)
      (campaign_id worker_id : ℕ)
      → (claim_borrowers c settings db clock fault campaign_id worker_id candidates).1.calls
        ≡ db.calls
  unfolding claim_borrowers
  claim_borrowers-calls [] db clock fault campaign_id worker_id = refl
  claim_borrowers-calls (b ∷ candidates) db clock fault campaign_id worker_id =
      let r =
        try_reserve_borrower c.borrowers db.borrowers (clock 0) campaign_id b.id worker_id
          settings.reservation_ttl_seconds in
      elim (Option-cases (raises fault)) [
        | inr (true, raised) ↦ rw (raised, claim_borrowers) refl
        | inr (false, raised) ↦ rw (raised, claim_borrowers) refl
        | inl goes_on ↦ elim (Option-cases r.0) [
          | inl lost ↦
              rw (goes_on, lost, claim_borrowers)
                (claim_borrowers-calls candidates (record db { borrowers = r.1 })
                  (λ n. clock (suc n)) (after_call fault) campaign_id worker_id)
          | inr (_, won) ↦ rw (goes_on, won, claim_borrowers) refl
        ]
      ]

  claim_borrower-calls :
      (db : Db c) (clock : ℕ → ℕ) (fault : Fault) (campaign_id worker_id : ℕ)
      → (claim_borrower c settings db clock fault campaign_id worker_id).1.calls ≡ db.calls
  unfolding claim_borrower
  claim_borrower-calls db clock fault campaign_id worker_id = elim (Option-cases (raises fault)) [
    | inr (applied, raised) ↦ rw (raised, claim_borrower) refl
    | inl goes_on ↦
        rw (goes_on, claim_borrower)
          (claim_borrowers-calls _ db (λ n. clock (suc n)) (after_call fault) campaign_id worker_id)
  ]

  with_borrower-calls :
      (db : Db c) (now campaign_id worker_id : ℕ) (a : Agent) (b : Option (Option Borrower))
      → (with_borrower c settings db now campaign_id worker_id a b).1.calls ≡ db.calls
  unfolding with_borrower release_reserved_agent
  with_borrower-calls db now campaign_id worker_id a none = refl
  with_borrower-calls db now campaign_id worker_id a (some none) = refl
  with_borrower-calls db now campaign_id worker_id a (some (some b)) = refl

  with_agent-calls :
      (db : Db c) (clock_b : ℕ → ℕ) (now : ℕ) (fault : Fault) (campaign_id worker_id : ℕ)
      (a : Option Agent)
      → (with_agent c settings db clock_b now fault campaign_id worker_id a).1.calls ≡ db.calls
  unfolding with_agent
  with_agent-calls db clock_b now fault campaign_id worker_id none = refl
  with_agent-calls db clock_b now fault campaign_id worker_id (some a) =
      with_borrower-calls _ now campaign_id worker_id a _
      ∙ claim_borrower-calls db clock_b fault campaign_id worker_id

  pub reserve_pair-calls :
      (db : Db c) (clock_a clock_b : ℕ → ℕ) (now : ℕ) (fault : Fault) (campaign_id worker_id : ℕ)
      → (reserve_pair c settings db clock_a clock_b now fault campaign_id worker_id).1.calls
        ≡ db.calls
  unfolding reserve_pair claim_agent
  reserve_pair-calls db clock_a clock_b now fault campaign_id worker_id =
      with_agent-calls _ clock_b now fault campaign_id worker_id _
      ∙ claim_agents-calls _ db clock_a campaign_id worker_id
