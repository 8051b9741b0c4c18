-- ===== src/Reservation/Pair.antt =====
-- A reservation takes an agent and a borrower, or gives the agent back.
use mathlib.Core.Path.{subst}
use smart_dialerss.Prelude.{
  ℕ, ◌≡◌, ◌⊎◌, refl, ap, sym, ◌∙◌, true, Option, none, some, Bool-cases, inl, inr, arith, ◌==◌,
  nat_eq,
}
use smart_dialerss.Enums.{AgentState, agent_state_eq}
use smart_dialerss.AgentSm.{TransitionActor, allowed_sources}
use smart_dialerss.Models.{Agent, Borrower}
use smart_dialerss.Config.{Settings}
use smart_dialerss.Database.{Collections, Db}
use smart_dialerss.AgentRepo.{
  can_reserve, can_release, release, release_agent, cleared_lease_fields, conditional_accounting,
  find_claimable_agents,
}
use smart_dialerss.AgentRepo.Release.{release_agent-hits, release_agent-other}
use smart_dialerss.Store.Claims.{Claims}
use smart_dialerss.Reservation.{
  Fault, Reserved, claim_agent, claim_borrower, claim_agents, with_borrower, release_reserved_agent,
  with_agent, reserve_pair,
}
use smart_dialerss.Reservation.Claiming.{
  Taken, TakenBorrower, Claimed, claim_agents-Claims, claim_borrower-Claimed,
}

-- An agent is as before, or free again: AVAILABLE as before, without a lease.
abbrev pub IsRestored : Agent → Agent → Type 0
IsRestored a a' =
    (a' ≡ a)
    ⊎ ((a.state ≡ AgentState.available)
        × (a'.state ≡ AgentState.available)
        × (a'.reserved_by ≡ none)
        × (a'.lease_expires_at ≡ none))

may_release :
    (worker_id : ℕ) (a : Agent)
    → (a.state ≡ AgentState.reserved) × (a.reserved_by ≡ some worker_id)
    → can_release worker_id (allowed_sources AgentState.available TransitionActor.allocator) a
      ≡ true
unfolding can_release allowed_sources
may_release worker_id a (state, holder) = ground arith

reserved_from :
    (campaign_id : ℕ) (a : Agent)
    → can_reserve campaign_id a ≡ true
    → a.state ≡ AgentState.available
unfolding can_reserve
reserved_from campaign_id a h = ground (arith, h)

module _ (c : Collections) (settings : Settings) where
  -- Every agent is restored.
  abbrev pub AreRestored : Db c → Db c → Type 0
  AreRestored db db' =
      (j : ℕ) (a : Agent)
      → c.agents.find_one db.agents j ≡ some a
      → (a' : Agent) × (c.agents.find_one db'.agents j ≡ some a') × IsRestored a a'

  -- A pair whose agent and borrower are stored as RESERVED by the worker; or every borrower as before and
  -- every agent restored; or, after an exception, every agent restored, and of the borrowers one at most
  -- RESERVED, by a write that was applied although the driver raised.
  abbrev pub IsWhole : Db c → ℕ → ℕ → Fault → Reserved × Db c → Type 0
  IsWhole db campaign_id worker_id fault (Reserved.pair p, db') =
      (c.agents.find_one db'.agents p.agent.id ≡ some p.agent)
      × Taken worker_id p.agent p.agent
      × (c.borrowers.find_one db'.borrowers p.borrower.id ≡ some p.borrower)
      × TakenBorrower worker_id p.borrower p.borrower
      × (p.worker_id ≡ worker_id)
  IsWhole db campaign_id worker_id fault (Reserved.nothing, db') =
      ((j : ℕ) → c.borrowers.find_one db'.borrowers j ≡ c.borrowers.find_one db.borrowers j)
      × AreRestored db db'
  IsWhole db campaign_id worker_id fault (Reserved.raised, db') =
      Claimed c settings campaign_id worker_id fault db.borrowers db'.borrowers none
      × AreRestored db db'

  -- The agent that was claimed is given back by its holder.
  gives_back :
      (s s' : c.agents.State) (now campaign_id worker_id : ℕ) (a : Agent)
      → Claims c.agents (can_reserve campaign_id) (Taken worker_id) s s' (some a)
      → (j : ℕ) (b : Agent) → c.agents.find_one s j ≡ some b
      → (b' : Agent) × (c.agents.find_one
            (release_agent c.agents s' now a.id worker_id AgentState.available
              TransitionActor.allocator).1
            j
          ≡ some b')
        × IsRestored b b'
  gives_back s s' now campaign_id worker_id a (k, here, passes, taken, same, found, others) j b
        there =
      let sources = allowed_sources AgentState.available TransitionActor.allocator in
      elim (Bool-cases (a.id == j)) [
        | inr other ↦ (
          b,
          release_agent-other c.agents s' now a.id worker_id AgentState.available
                TransitionActor.allocator j other
              ∙ others j (rw (← same) other)
              ∙ there,
          inl refl,
        )
        | inl this ↦
            let at : a.id ≡ j = ground (arith, this) in
            let was : b ≡ k = ground (arith) in
            (
              release sources AgentState.available now a,
              ap
                    (c.agents.find_one
                      (release_agent c.agents s' now a.id worker_id AgentState.available
                        TransitionActor.allocator).1)
                    (sym at)
                  ∙ (release_agent-hits c.agents s' now a.id worker_id AgentState.available
                      TransitionActor.allocator a found (may_release worker_id a taken)).1,
              inr (
                  unfold release conditional_accounting cleared_lease_fields can_reserve in
                  (
                    ap (λ (x : Agent). x.state) was ∙ reserved_from campaign_id k passes,
                    refl,
                    refl,
                    refl,
                  )),
            )
      ]

  with_borrower-IsWhole :
      (db db2 : Db c) (now campaign_id worker_id : ℕ) (fault : Fault) (a : Agent)
      (o : Option (Option Borrower))
      → Claims c.agents (can_reserve campaign_id) (Taken worker_id) db.agents db2.agents (some a)
      → Claimed c settings campaign_id worker_id fault db.borrowers db2.borrowers o
      → IsWhole db campaign_id worker_id fault
          (with_borrower c settings db2 now campaign_id worker_id a o)
  unfolding with_borrower release_reserved_agent
  with_borrower-IsWhole db db2 now campaign_id worker_id fault a none claims left =
      (left, gives_back db.agents db2.agents now campaign_id worker_id a claims)
  with_borrower-IsWhole db db2 now campaign_id worker_id fault a (some none) claims same =
      (same, gives_back db.agents db2.agents now campaign_id worker_id a claims)
  with_borrower-IsWhole db db2 now campaign_id worker_id fault a (some (some b))
        (_, _, _, taken, _, found, _) (_, _, _, taken_b, _, found_b, _) =
      (found, taken, found_b, taken_b, refl)

  with_agent-IsWhole :
      (db db1 : Db c) (clock_b : ℕ → ℕ) (now : ℕ) (fault : Fault) (campaign_id worker_id : ℕ)
      (o : Option Agent)
      → Claims c.agents (can_reserve campaign_id) (Taken worker_id) db.agents db1.agents o
      → db1.borrowers ≡ db.borrowers
      → IsWhole db campaign_id worker_id fault
          (with_agent c settings db1 clock_b now fault campaign_id worker_id o)
  unfolding with_agent
  with_agent-IsWhole db db1 clock_b now fault campaign_id worker_id none claims same =
      (λ j. ap (λ s. c.borrowers.find_one s j) same, λ j a here. (a, claims j ∙ here, inl refl))
  with_agent-IsWhole db db1 clock_b now fault campaign_id worker_id (some a) claims same =
      let r = claim_borrower c settings db1 clock_b fault campaign_id worker_id in
      let (claims_b, same_a) =
        claim_borrower-Claimed c settings db1 clock_b fault campaign_id worker_id in
      with_borrower-IsWhole db r.1 now campaign_id worker_id fault a r.0
        (subst
          (λ s. Claims c.agents (can_reserve campaign_id) (Taken worker_id) db.agents s (some a))
          (sym same_a) claims)
        (subst (λ s. Claimed c settings campaign_id worker_id fault s r.1.borrowers r.0) same
          claims_b)

  -- For every reservation, wherever the driver raises while a borrower is claimed, if at all: if it returns
  -- a pair, both documents are stored as returned, RESERVED by the worker. If not, every agent is as before
  -- or was AVAILABLE and is AVAILABLE without a lease. If it returns None, every borrower is as before; if
  -- it raises, every borrower is as before, or the write of the call that raised was applied and one
  -- borrower that was PENDING in the campaign is RESERVED by the worker.
  pub reserve_pair-IsWhole :
      (db : Db c) (clock_a clock_b : ℕ → ℕ) (now : ℕ) (fault : Fault) (campaign_id worker_id : ℕ)
      → IsWhole db campaign_id worker_id fault
          (reserve_pair c settings db clock_a clock_b now fault campaign_id worker_id)
  unfolding reserve_pair claim_agent
  reserve_pair-IsWhole db clock_a clock_b now fault campaign_id worker_id =
      let candidates = find_claimable_agents c.agents db.agents campaign_id 1 in
      let r = claim_agents c settings db clock_a campaign_id worker_id candidates in
      let (claims, same) =
        claim_agents-Claims c settings db clock_a campaign_id worker_id candidates in
      with_agent-IsWhole db r.1 clock_b now fault campaign_id worker_id r.0 claims same
