-- ===== src/Reservation.antt =====
-- app/services/reservation_service.py. The counter of contentions is not kept. `find_claimable_…`
-- reads candidates that other workers may take before they are tried; `clock n` is the n-th reading
-- of the clock. The one exception that the service handles, PyMongoError from the claim of the
-- borrower, is the argument `fault`, which says where the driver raises it, if at all.
pub mod Pair
pub mod Claiming
pub mod Freeing
use smart_dialerss.Prelude.{
  ℕ, zero, suc, Bool, true, false, List, [], ◌∷◌, Option, none, some, if◌then◌else◌,
}
use smart_dialerss.Enums.{AgentState}
use smart_dialerss.AgentSm.{TransitionActor}
use smart_dialerss.Models.{Agent, Borrower}
use smart_dialerss.Config.{Settings}
use smart_dialerss.AgentRepo.{find_claimable_agents, try_reserve_agent, release_agent}
use smart_dialerss.BorrowerRepo.{
  BorrowerReleaseOutcome, find_claimable_borrowers, try_reserve_borrower, release_borrower,
}
use smart_dialerss.Database.{Collections, Db}

pub record ReservationPair : Type 0 where
  pub campaign_id : ℕ
  pub worker_id : ℕ
  pub agent : Agent
  pub borrower : Borrower

-- When the driver raises PyMongoError while a borrower is claimed: never, or at the n-th call of the claim,
-- the search being the first, and whether the call's write was applied all the same, which pymongo
-- documents for a connection that is lost before the answer.
pub data Fault : Type 0 where
  never : Fault
  at_call : ℕ → Bool → Fault

-- Whether it raises at the next call
abbrev pub raises : Fault → Option Bool
raises Fault.never = none
raises (Fault.at_call zero applied) = some applied
raises (Fault.at_call (suc n) applied) = none

-- What is left of it after the next call
abbrev pub after_call : Fault → Fault
after_call Fault.never = Fault.never
after_call (Fault.at_call zero applied) = Fault.never
after_call (Fault.at_call (suc n) applied) = Fault.at_call n applied

-- What `reserve_pair` does: it returns a pair or None, or raises PyMongoError.
pub data Reserved : Type 0 where
  pair : ReservationPair → Reserved
  nothing : Reserved
  raised : Reserved

module _ (c : Collections) (settings : Settings) where
  -- The loop of `_claim_agent` over the candidates
  unfoldable pub claim_agents : Db c → (ℕ → ℕ) → ℕ → ℕ → List Agent → Option Agent × Db c
  claim_agents db clock campaign_id worker_id [] = (none, db)
  claim_agents db clock campaign_id worker_id (candidate ∷ candidates) =
      let (agent, agents') =
        try_reserve_agent c.agents db.agents (clock 0) campaign_id candidate.id worker_id
          settings.reservation_ttl_seconds in
      let db' : Db c = record db { agents = agents' } in
      let rest = claim_agents db' (λ n. clock (suc n)) campaign_id worker_id candidates in
      elim agent [ none ↦ rest | some a ↦ (some a, db') ]

  unfoldable pub claim_agent : Db c → (ℕ → ℕ) → ℕ → ℕ → Option Agent × Db c
  unfolding claim_agents
  claim_agent db clock campaign_id worker_id =
      claim_agents db clock campaign_id worker_id
        (find_claimable_agents c.agents db.agents campaign_id 1)

  -- The loop of `_claim_borrower`. None stands for the exception.
  unfoldable pub claim_borrowers :
      Db c → (ℕ → ℕ) → Fault → ℕ → ℕ → List Borrower → Option (Option Borrower) × Db c
  claim_borrowers db clock fault campaign_id worker_id [] = (some none, db)
  claim_borrowers db clock fault campaign_id worker_id (candidate ∷ candidates) =
      let (borrower, borrowers') =
        try_reserve_borrower c.borrowers db.borrowers (clock 0) campaign_id candidate.id worker_id
          settings.reservation_ttl_seconds in
      let db' : Db c = record db { borrowers = borrowers' } in
      let rest =
        claim_borrowers db' (λ n. clock (suc n)) (after_call fault) campaign_id worker_id
          candidates in
      elim (raises fault) [
        | some applied ↦ (none, if applied then db' else db)
        | none ↦ elim borrower [ none ↦ rest | some b ↦ (some (some b), db') ]
      ]

  unfoldable pub claim_borrower : Db c → (ℕ → ℕ) → Fault → ℕ → ℕ → Option (Option Borrower) × Db c
  unfolding claim_borrowers
  claim_borrower db clock fault campaign_id worker_id =
      let claimed =
        claim_borrowers db (λ n. clock (suc n)) (after_call fault) campaign_id worker_id
          (find_claimable_borrowers c.borrowers db.borrowers (clock 0) campaign_id 1) in
      elim (raises fault) [ some _ ↦ (none, db) | none ↦ claimed ]

  unfoldable pub release_reserved_agent : Db c → ℕ → ℕ → ℕ → Db c
  release_reserved_agent db now agent_id worker_id = record db {
    agents =
        (release_agent c.agents db.agents now agent_id worker_id AgentState.available
          TransitionActor.allocator).1;
  }

  -- The last part of `reserve_pair`, with the agent reserved, from what the claim of a borrower did
  unfoldable pub with_borrower :
      Db c → ℕ → ℕ → ℕ → Agent → Option (Option Borrower) → Reserved × Db c
  unfolding release_reserved_agent
  with_borrower db now campaign_id worker_id agent none =
      (Reserved.raised, release_reserved_agent db now agent.id worker_id)
  with_borrower db now campaign_id worker_id agent (some none) =
      (Reserved.nothing, release_reserved_agent db now agent.id worker_id)
  with_borrower db now campaign_id worker_id agent (some (some borrower)) = (
    Reserved.pair (record {
      campaign_id = campaign_id;
      worker_id = worker_id;
      agent = agent;
      borrower = borrower;
    }),
    db,
  )

  -- `reserve_pair` from the answer of `_claim_agent` on
  unfoldable pub with_agent : Db c → (ℕ → ℕ) → ℕ → Fault → ℕ → ℕ → Option Agent → Reserved × Db c
  unfolding claim_borrower with_borrower
  with_agent db clock_b now fault campaign_id worker_id none = (Reserved.nothing, db)
  with_agent db clock_b now fault campaign_id worker_id (some agent) =
      let (borrower, db') = claim_borrower db clock_b fault campaign_id worker_id in
      with_borrower db' now campaign_id worker_id agent borrower

  -- `clock_a` and `clock_b` are the readings of the clock while agents and borrowers are claimed, and
  -- `now` is the reading at the release.
  unfoldable pub reserve_pair : Db c → (ℕ → ℕ) → (ℕ → ℕ) → ℕ → Fault → ℕ → ℕ → Reserved × Db c
  unfolding claim_agent with_agent
  reserve_pair db clock_a clock_b now fault campaign_id worker_id =
      let (agent, db') = claim_agent db clock_a campaign_id worker_id in
      with_agent db' clock_b now fault campaign_id worker_id agent

  unfoldable pub release_pair : Db c → ℕ → ℕ → ReservationPair → BorrowerReleaseOutcome → Db c
  unfolding release_reserved_agent
  release_pair db now later p outcome =
      let db' = release_reserved_agent db now p.agent.id p.worker_id in
      record db' {
        borrowers =
            (release_borrower c.borrowers db'.borrowers later p.borrower.id p.worker_id outcome
              settings.max_call_attempts settings.retry_backoff_base_seconds).1;
      }
