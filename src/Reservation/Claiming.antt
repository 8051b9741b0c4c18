-- ===== src/Reservation/Claiming.antt =====
-- What the loops of the reservation service take.
use smart_dialerss.Prelude.{
  ℕ, zero, suc, ◌≡◌, ◌∙◌, ◌⊎◌, refl, Bool, true, false, List, [], ◌∷◌, Option, none, some,
  Option-cases, inl, inr, arith, ◌&&◌, ◌==◌, nat_eq,
}
use smart_dialerss.Enums.{AgentState, BorrowerStatus, borrower_status_eq}
use smart_dialerss.Models.{Agent, Borrower}
use smart_dialerss.Config.{Settings}
use smart_dialerss.Database.{Collections, Db}
use smart_dialerss.AgentRepo.{try_reserve_agent, can_reserve, build_lease_fields}
use smart_dialerss.AgentRepo as Agents
use smart_dialerss.BorrowerRepo.{try_reserve_borrower, is_claimable, find_claimable_borrowers}
use smart_dialerss.BorrowerRepo as Borrowers
use smart_dialerss.Store.Claims.{Claims, update-misses, update-Claims, Claims-after, Claims-weaken}
use smart_dialerss.Reservation.{
  Fault, raises, after_call, claim_agents, claim_borrowers, claim_borrower,
}

-- What a claim makes of a document
abbrev pub Taken : ℕ → Agent → Agent → Type 0
Taken worker_id a a' = (a'.state ≡ AgentState.reserved) × (a'.reserved_by ≡ some worker_id)

abbrev pub TakenBorrower : ℕ → Borrower → Borrower → Type 0
TakenBorrower worker_id b b' =
    (b'.status ≡ BorrowerStatus.reserved) × (b'.reserved_by ≡ some worker_id)

-- The write of the call at which the driver raises was applied.
abbrev pub is_applied : Fault → Bool
is_applied Fault.never = false
is_applied (Fault.at_call n applied) = applied

module _ (c : Collections) (settings : Settings) where
  pub claim_agents-Claims :
      (db : Db c) (clock : ℕ → ℕ) (campaign_id worker_id : ℕ) (candidates : List Agent)
      → let r = claim_agents c settings db clock campaign_id worker_id candidates in
        Claims c.agents (can_reserve campaign_id) (Taken worker_id) db.agents r.1.agents r.0
        × (r.1.borrowers ≡ db.borrowers)
  unfolding claim_agents try_reserve_agent
  claim_agents-Claims db clock campaign_id worker_id [] = (λ j. refl, refl)
  claim_agents-Claims db clock campaign_id worker_id (k ∷ candidates) =
      let ttl = settings.reservation_ttl_seconds in
      let f = Agents.reserve worker_id ttl (clock 0) in
      let same : (d : Agent) → (f d).id ≡ d.id =
        λ d. unfold Agents.reserve build_lease_fields in refl in
      let s' = (c.agents.find_one_and_update db.agents k.id (can_reserve campaign_id) f).1 in
      let db' : Db c = record db { agents = s' } in
      elim (Option-cases
        (c.agents.find_one_and_update db.agents k.id (can_reserve campaign_id) f).0) [
          | inl missed ↦
              let rest =
                claim_agents-Claims db' (λ n. clock (suc n)) campaign_id worker_id candidates in
              rw (missed, claim_agents)
                (
                  Claims-after c.agents (can_reserve campaign_id) (Taken worker_id) _ _
                      (update-misses c.agents (can_reserve campaign_id) (Taken worker_id) db.agents
                        k.id f same missed)
                      rest.0,
                  rest.1,
                )
          | inr (a, won) ↦
              rw (won, claim_agents)
                (
                  update-Claims c.agents (can_reserve campaign_id) (Taken worker_id) db.agents k.id
                      f same (λ d. unfold Agents.reserve build_lease_fields in (refl, refl)) a won,
                  refl,
                )
        ]

  -- A borrower that a claim may take
  abbrev pub is_pending : ℕ → Borrower → Bool
  is_pending campaign_id b = b.campaign_id == campaign_id && b.status == BorrowerStatus.pending

  claimable-pending :
      (campaign_id now : ℕ) (b : Borrower)
      → is_claimable campaign_id now b ≡ true
      → is_pending campaign_id b ≡ true
  unfolding is_claimable
  claimable-pending campaign_id now b h = ground arith

  -- What the claim of a borrower leaves of the borrowers: it took none or the one that it returns. If it
  -- raised, it may have taken one all the same, if the write of the call that raised was applied.
  abbrev pub Claimed :
      ℕ → ℕ → Fault → c.borrowers.State → c.borrowers.State → Option (Option Borrower) → Type 0
  Claimed campaign_id worker_id fault s s' (some o) =
      Claims c.borrowers (is_pending campaign_id) (TakenBorrower worker_id) s s' o
  Claimed campaign_id worker_id fault s s' none =
      ((j : ℕ) → c.borrowers.find_one s' j ≡ c.borrowers.find_one s j)
      ⊎ ((is_applied fault ≡ true)
          × (b : Borrower) × Claims c.borrowers (is_pending campaign_id) (TakenBorrower worker_id) s
              s' (some b))

  after_call-applied :
      (fault : Fault) → is_applied (after_call fault) ≡ true → is_applied fault ≡ true
  after_call-applied Fault.never h = h
  after_call-applied (Fault.at_call zero applied) h = cc
  after_call-applied (Fault.at_call (suc n) applied) h = h

  raises-applied :
      (fault : Fault) (applied : Bool) → raises fault ≡ some applied → is_applied fault ≡ applied
  raises-applied Fault.never applied h = cc
  raises-applied (Fault.at_call zero a) applied h = ground arith
  raises-applied (Fault.at_call (suc n) a) applied h = cc

  Claimed-after :
      (campaign_id worker_id : ℕ) (fault : Fault) (s s' s2 : c.borrowers.State)
      (o : Option (Option Borrower))
      → ((j : ℕ) → c.borrowers.find_one s' j ≡ c.borrowers.find_one s j)
      → Claimed campaign_id worker_id (after_call fault) s' s2 o
      → Claimed campaign_id worker_id fault s s2 o
  Claimed-after campaign_id worker_id fault s s' s2 (some o) same h =
      Claims-after c.borrowers (is_pending campaign_id) (TakenBorrower worker_id) s2 o same h
  Claimed-after campaign_id worker_id fault s s' s2 none same (inl kept) =
      inl (λ j. kept j ∙ same j)
  Claimed-after campaign_id worker_id fault s s' s2 none same (inr (applied, b, h)) = inr (
    after_call-applied fault applied,
    b,
    Claims-after c.borrowers (is_pending campaign_id) (TakenBorrower worker_id) s2 (some b) same h,
  )

  claim_borrowers-Claimed :
      (db : Db c) (clock : ℕ → ℕ) (fault : Fault) (campaign_id worker_id : ℕ)
      (candidates : List Borrower)
      → let r = claim_borrowers c settings db clock fault campaign_id worker_id candidates in
        Claimed campaign_id worker_id fault db.borrowers r.1.borrowers r.0
        × (r.1.agents ≡ db.agents)
  unfolding claim_borrowers try_reserve_borrower
  claim_borrowers-Claimed db clock fault campaign_id worker_id [] = (λ j. refl, refl)
  claim_borrowers-Claimed db clock fault campaign_id worker_id (k ∷ candidates) =
      let ttl = settings.reservation_ttl_seconds in
      let p = is_claimable campaign_id (clock 0) in
      let f = Borrowers.reserve worker_id ttl (clock 0) in
      let same : (d : Borrower) → (f d).id ≡ d.id = λ d. unfold Borrowers.reserve in refl in
      let s' = (c.borrowers.find_one_and_update db.borrowers k.id p f).1 in
      let db' : Db c = record db { borrowers = s' } in
      let misses = update-misses c.borrowers p (TakenBorrower worker_id) db.borrowers k.id f same in
      let takes =
        λ (b : Borrower) (won : (c.borrowers.find_one_and_update db.borrowers k.id p f).0 ≡ some b).
          Claims-weaken c.borrowers p (is_pending campaign_id) (TakenBorrower worker_id)
            (claimable-pending campaign_id (clock 0)) db.borrowers s' (some b)
            (update-Claims c.borrowers p (TakenBorrower worker_id) db.borrowers k.id f same
              (λ d. unfold Borrowers.reserve in (refl, refl)) b won) in
      let result = Option-cases (c.borrowers.find_one_and_update db.borrowers k.id p f).0 in
      elim (Option-cases (raises fault)) [
        | inr (false, raised) ↦ rw (raised, claim_borrowers) (inl (λ j. refl), refl)
        | inr (true, raised) ↦ elim result [
          | inl missed ↦ rw (raised, claim_borrowers) (inl (misses missed), refl)
          | inr (b, won) ↦
              rw (raised, claim_borrowers)
                (inr (raises-applied fault true raised, b, takes b won), refl)
        ]
        | inl goes_on ↦ elim result [
          | inl missed ↦
              let rest =
                claim_borrowers-Claimed db' (λ n. clock (suc n)) (after_call fault) campaign_id
                  worker_id candidates in
              rw (goes_on, missed, claim_borrowers)
                (
                  Claimed-after campaign_id worker_id fault db.borrowers s' _ _ (misses missed)
                      rest.0,
                  rest.1,
                )
          | inr (b, won) ↦ rw (goes_on, won, claim_borrowers) (takes b won, refl)
        ]
      ]

  pub claim_borrower-Claimed :
      (db : Db c) (clock : ℕ → ℕ) (fault : Fault) (campaign_id worker_id : ℕ)
      → let r = claim_borrower c settings db clock fault campaign_id worker_id in
        Claimed campaign_id worker_id fault db.borrowers r.1.borrowers r.0
        × (r.1.agents ≡ db.agents)
  unfolding claim_borrower
  claim_borrower-Claimed db clock fault campaign_id worker_id = elim (Option-cases (raises fault)) [
    | inr (applied, raised) ↦ rw (raised, claim_borrower) (inl (λ j. refl), refl)
    | inl goes_on ↦
        let found = find_claimable_borrowers c.borrowers db.borrowers (clock 0) campaign_id 1 in
        let claimed =
          claim_borrowers-Claimed db (λ n. clock (suc n)) (after_call fault) campaign_id worker_id
            found in
        rw (goes_on, claim_borrower)
          (
            Claimed-after campaign_id worker_id fault db.borrowers db.borrowers _ _ (λ j. refl)
                claimed.0,
            claimed.1,
          )
  ]
