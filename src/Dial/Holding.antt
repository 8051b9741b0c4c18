-- ===== src/Dial/Holding.antt =====
-- The pair while the worker that dials holds it.
use smart_dialerss.Prelude.{ℕ, ◌≡◌, ◌∙◌, refl, Bool, true, some, nat_eq, arith}
use smart_dialerss.Enums.{AgentState, call_state_eq}
use smart_dialerss.AgentSm.{TransitionActor, allowed_sources, validate_transition}
use smart_dialerss.Models.{Agent, Borrower, Call}
use smart_dialerss.Floats.{Floats}
use smart_dialerss.Database.{Collections, Db}
use smart_dialerss.AgentRepo.{
  can_release, can_move, move, time_accounting_updates, transition_agent,
}
use smart_dialerss.AgentRepo.Writes.{
  Write, effect, perform, perform_lem, transitions, binds, after_outcome,
}
use smart_dialerss.BorrowerRepo as Borrowers
use smart_dialerss.BorrowerRepo.{BorrowerReleaseOutcome}
use smart_dialerss.Reservation.{ReservationPair}
use smart_dialerss.Reservation.Freeing.{IsFreeAgent, IsFreeBorrower, release_pair-frees}
use smart_dialerss.Dial.{World, DialSettings, give_up, start_dialing}

may_free : ℕ → Agent → Bool
may_free worker_id a =
    can_release worker_id (allowed_sources AgentState.available TransitionActor.allocator) a

-- The writes by which the dial marks the agent leave it to its holder.
dialing-may_free :
    (now worker_id version : ℕ) (a : Agent)
    → may_free worker_id a ≡ true
    → may_free worker_id (
        effect now
          (transitions AgentState.reserved AgentState.dialing TransitionActor.allocator version)
          a)
      ≡ true
unfolding may_free effect can_release allowed_sources validate_transition can_move move
    time_accounting_updates
dialing-may_free now worker_id version a h = ground arith

binds-may_free :
    (now worker_id other call_id : ℕ) (a : Agent)
    → may_free worker_id a ≡ true
    → may_free worker_id (effect now (binds other call_id) a) ≡ true
unfolding may_free effect can_release
binds-may_free now worker_id other call_id a h = ground arith

module _ (floats : Floats) (c : Collections) (settings : DialSettings floats) where
  -- The worker holds both documents of the pair as they are stored, the agent as RESERVED or DIALING.
  pub record IsHeldPair (db : Db c) (p : ReservationPair) : Type 0 where
    pub agent : Agent
    pub agent_stored : c.agents.find_one db.agents p.agent.id ≡ some agent
    pub agent_held :
        can_release p.worker_id
          (allowed_sources AgentState.available TransitionActor.allocator)
          agent
        ≡ true
    pub borrower : Borrower
    pub borrower_stored : c.borrowers.find_one db.borrowers p.borrower.id ≡ some borrower
    pub borrower_held : Borrowers.can_release p.worker_id borrower ≡ true

  abbrev pub IsFreedPair : Db c → ReservationPair → Type 0
  IsFreedPair db p =
      IsFreeAgent (c.agents.find_one db.agents p.agent.id)
      × IsFreeBorrower (c.borrowers.find_one db.borrowers p.borrower.id)

  pub give_up-frees :
      (db : Db c) (w : World) (p : ReservationPair) (outcome : BorrowerReleaseOutcome)
      → IsHeldPair db p
      → IsFreedPair (give_up floats c settings db w p outcome).1 p
  unfolding give_up
  give_up-frees db w p outcome h =
      release_pair-frees c settings.base db (w.clock 5) (w.clock 6) p outcome h.agent h.borrower
        h.agent_stored h.agent_held h.borrower_stored h.borrower_held

  -- What holds of the pair does not depend on the calls.
  pub with_calls :
      (db : Db c) (calls : c.calls.State) (p : ReservationPair)
      → IsHeldPair db p
      → IsHeldPair (record db { calls = calls }) p
  with_calls db calls p h = record {
    agent = h.agent;
    agent_stored = h.agent_stored;
    agent_held = h.agent_held;
    borrower = h.borrower;
    borrower_stored = h.borrower_stored;
    borrower_held = h.borrower_held;
  }

  -- One write on the agent that leaves it to its holder
  after_write :
      (s : c.agents.State) (now i worker_id : ℕ) (w : Write)
      → ((a : Agent) → may_free worker_id a ≡ true → may_free worker_id (effect now w a) ≡ true)
      → (a : Agent) → c.agents.find_one s i ≡ some a
      → may_free worker_id a ≡ true
      → (b : Agent) × (c.agents.find_one (perform c.agents s now i w) i ≡ some b)
        × (may_free worker_id b ≡ true)
  after_write s now i worker_id w keeps a here may = (
    effect now w a,
    perform_lem c.agents s now i w i ∙ rw ((nat_eq.beq_iff i i).1 refl, here) refl,
    keeps a may,
  )

  pub start_dialing-IsHeldPair :
      (db : Db c) (w : World) (p : ReservationPair) (call : Call)
      → IsHeldPair db p
      → IsHeldPair (start_dialing floats c settings db w p call) p
  unfolding start_dialing transition_agent perform after_outcome may_free validate_transition
  start_dialing-IsHeldPair db w p call h =
      let (a, here, may) =
        after_write db.agents (w.clock 2) p.agent.id p.worker_id
          (transitions AgentState.reserved AgentState.dialing TransitionActor.allocator
            p.agent.state_version)
          (dialing-may_free (w.clock 2) p.worker_id p.agent.state_version) h.agent h.agent_stored
          h.agent_held in
      let (b, here_b, may_b) =
        after_write _ (w.clock 2) p.agent.id p.worker_id (binds p.worker_id call.id)
          (binds-may_free (w.clock 2) p.worker_id p.worker_id call.id) a here may in
      record {
        agent = b;
        agent_stored = here_b;
        agent_held = may_b;
        borrower = h.borrower;
        borrower_stored = h.borrower_stored;
        borrower_held = h.borrower_held;
      }
