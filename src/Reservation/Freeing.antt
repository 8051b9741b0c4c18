-- ===== src/Reservation/Freeing.antt =====
-- The release of a pair by the worker that holds it.
use smart_dialerss.Prelude.{ℕ, ◌≡◌, refl, true, Option, some, none}
use smart_dialerss.Enums.{AgentState}
use smart_dialerss.AgentSm.{TransitionActor, allowed_sources}
use smart_dialerss.Models.{Agent, Borrower}
use smart_dialerss.Config.{Settings}
use smart_dialerss.Database.{Collections, Db}
use smart_dialerss.AgentRepo.{can_release, release, cleared_lease_fields, conditional_accounting}
use smart_dialerss.AgentRepo.Release.{release_agent-hits}
use smart_dialerss.BorrowerRepo.{BorrowerReleaseOutcome, release_borrower, build_retry_update}
use smart_dialerss.BorrowerRepo as Borrowers
use smart_dialerss.Store.Laws.{update-hits}
use smart_dialerss.Reservation.{ReservationPair, release_reserved_agent, release_pair}

abbrev pub IsFreeAgent : Option Agent → Type 0
IsFreeAgent none = ⊥
IsFreeAgent (some a) =
    (a.state ≡ AgentState.available)
    × (a.reserved_by ≡ none)
    × (a.lease_expires_at ≡ none)
    × (a.current_call_id ≡ none)

abbrev pub IsFreeBorrower : Option Borrower → Type 0
IsFreeBorrower none = ⊥
IsFreeBorrower (some b) =
    (b.reserved_by ≡ none) × (b.reserved_at ≡ none) × (b.lease_expires_at ≡ none)

released_free :
    (outcome : BorrowerReleaseOutcome) (now attempts backoff : ℕ) (b : Borrower)
    → IsFreeBorrower (some (Borrowers.release outcome now attempts backoff b))
unfolding Borrowers.release build_retry_update
released_free BorrowerReleaseOutcome.released now attempts backoff b = (refl, refl, refl)
released_free BorrowerReleaseOutcome.contacted now attempts backoff b = (refl, refl, refl)
released_free BorrowerReleaseOutcome.retry now attempts backoff b = (refl, refl, refl)

release_same_id :
    (outcome : BorrowerReleaseOutcome) (now attempts backoff : ℕ) (b : Borrower)
    → (Borrowers.release outcome now attempts backoff b).id ≡ b.id
unfolding Borrowers.release build_retry_update
release_same_id BorrowerReleaseOutcome.released now attempts backoff b = refl
release_same_id BorrowerReleaseOutcome.contacted now attempts backoff b = refl
release_same_id BorrowerReleaseOutcome.retry now attempts backoff b = refl

module _ (c : Collections) (settings : Settings) where
  -- For every outcome: if the worker holds the stored agent in a state that the allocator may free, and
  -- the stored borrower as RESERVED or IN_CALL, then after the release of the pair the agent is
  -- AVAILABLE without a lease or a call, and the borrower has no lease.
  pub release_pair-frees :
      (db : Db c) (now later : ℕ) (p : ReservationPair) (outcome : BorrowerReleaseOutcome)
      (a : Agent) (b : Borrower)
      → c.agents.find_one db.agents p.agent.id ≡ some a
      → can_release p.worker_id (allowed_sources AgentState.available TransitionActor.allocator) a
        ≡ true
      → c.borrowers.find_one db.borrowers p.borrower.id ≡ some b
      → Borrowers.can_release p.worker_id b ≡ true
      → let db' = release_pair c settings db now later p outcome in
        IsFreeAgent (c.agents.find_one db'.agents p.agent.id)
        × IsFreeBorrower (c.borrowers.find_one db'.borrowers p.borrower.id)
  unfolding release_pair release_reserved_agent release_borrower
  release_pair-frees db now later p outcome a b here may here_b may_b =
      let r =
        release_agent-hits c.agents db.agents now p.agent.id p.worker_id AgentState.available
          TransitionActor.allocator a here may in
      let f =
        Borrowers.release outcome later settings.max_call_attempts
          settings.retry_backoff_base_seconds in
      let q =
        update-hits c.borrowers db.borrowers p.borrower.id (Borrowers.can_release p.worker_id) f b
          (release_same_id outcome later settings.max_call_attempts
            settings.retry_backoff_base_seconds)
          here_b may_b in
      (
        rw (r.1) (
            unfold release cleared_lease_fields conditional_accounting in (refl, refl, refl, refl)),
        rw (q.1) (
            released_free outcome later settings.max_call_attempts
              settings.retry_backoff_base_seconds b),
      )
