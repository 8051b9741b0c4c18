-- ===== src/Dial.antt =====
-- `_dial` and `_originate` of app/services/call_allocator.py. The telephone provider is a parameter:
-- its answer to an attempt is `Originated`. The driver raises nothing here, and the cancellation of the
-- worker's task is left out, as are the counters of the metrics, hanging up and logging.
pub mod Holding
pub mod Failures
use Prim.Native.String.{String}
use smart_dialerss.Prelude.{
  ℕ, ◌+◌, Bool, true, false, not, ◌&&◌, Option, none, some, Eq, ◌!=◌, ltb, is_some, if◌then◌else◌,
}
use smart_dialerss.Enums.{AgentState, CallState, call_state_eq}
use smart_dialerss.AgentSm.{TransitionActor, returns, raises}
use smart_dialerss.Models.{Borrower, Call, Campaign}
use smart_dialerss.Config.{Settings}
use smart_dialerss.AgentRepo.{transition_agent, bind_call}
use smart_dialerss.BorrowerRepo.{BorrowerReleaseOutcome}
use smart_dialerss.CallRepo.{create_call, transition_call, attach_provider_call_id}
use smart_dialerss.Database.{Collections, Db}
use smart_dialerss.Floats.{Floats}
use smart_dialerss.ProviderHealth.{HealthSettings, HealthManager, record_originate, should_retry}
use smart_dialerss.Reservation.{Fault, ReservationPair, release_pair}

-- What happens in `_originate`: the provider accepts the call, with the latency and the id that it
-- gives the call; it answers that it does not accept, with the latency and its error code;
-- ProviderRejected, with its reason; ProviderTimeout or TimeoutError; ProviderUnavailable from the
-- registry, which the code does not catch.
pub data Originated : Type 0 where
  accepted : ℕ → ℕ → Originated
  declined : ℕ → Option String → Originated
  rejected : String → Originated
  timed_out : Originated
  unavailable : Originated

-- What the world outside the database gives one attempt: the readings of the clock while agents and
-- borrowers are claimed, those at the other calls, those of the monotonic clock, the new call's id,
-- when the driver raises while a borrower is claimed, and what the provider answers.
pub record World : Type 0 where
  pub clock_a : ℕ → ℕ
  pub clock_b : ℕ → ℕ
  pub clock : ℕ → ℕ
  pub time : ℕ → ℕ
  pub new_id : ℕ
  pub fault : Fault
  pub originate : ℕ → Originated

module _ (floats : Floats) where
  -- The settings of the allocator and of the health manager that it holds
  pub record DialSettings : Type 0 where
    pub base : Settings
    pub health : HealthSettings floats
    pub provider_timeout_seconds : floats.F

  -- The sample that `_originate` records, if any
  unfoldable pub record_answer :
      DialSettings → HealthManager floats → ℕ → ℕ → Originated → HealthManager floats
  record_answer settings m now provider_name (Originated.accepted latency_ms _) =
      record_originate floats settings.health m now provider_name true latency_ms false
  record_answer settings m now provider_name (Originated.declined latency_ms _) =
      record_originate floats settings.health m now provider_name false latency_ms false
  record_answer settings m now provider_name (Originated.rejected _) =
      record_originate floats settings.health m now provider_name false 0 false
  record_answer settings m now provider_name Originated.timed_out =
      record_originate floats settings.health m now provider_name false
        (floats.int_mul settings.provider_timeout_seconds 1000) true
  record_answer settings m now provider_name Originated.unavailable = m

  module _ (c : Collections) (settings : DialSettings) where
    -- A dial that failed: the pair is released with the outcome.
    unfoldable pub give_up :
        Db c → World → ReservationPair → BorrowerReleaseOutcome → Option Bool × Db c
    give_up db w p outcome =
        (some false, release_pair c settings.base db (w.clock 5) (w.clock 6) p outcome)

    unfoldable pub fail_call : Db c → World → Call → Option String → Db c
    fail_call db w call reason = record db {
      calls = (transition_call c.calls db.calls (w.clock 4) call.id CallState.failed reason).1;
    }

    -- `_dial` from the provider's answer on. None stands for an exception.
    unfoldable pub after_originate :
        Db c → World → ReservationPair → Call → Originated → Option Bool × Db c
    unfolding give_up fail_call
    after_originate db w p call Originated.unavailable = (none, db)
    after_originate db w p call Originated.timed_out =
        give_up (fail_call db w call (some "provider_timeout")) w p BorrowerReleaseOutcome.retry
    after_originate db w p call (Originated.rejected reason) =
        give_up (fail_call db w call (some reason)) w p BorrowerReleaseOutcome.retry
    after_originate db w p call (Originated.declined _ error_code) =
        give_up (fail_call db w call error_code) w p BorrowerReleaseOutcome.retry
    after_originate db w p call (Originated.accepted _ provider_call_id) =
        let (attached, calls') =
          attach_provider_call_id c.calls db.calls (w.clock 3) call.id provider_call_id in
        let db' : Db c = record db { calls = calls' } in
        if is_some attached
        then (some true, db')
        else give_up (fail_call db' w call (some "provider_call_id_conflict")) w p
            BorrowerReleaseOutcome.retry

    -- The agent's move to DIALING; RESERVED → DIALING is a transition of the allocator, so that
    -- nothing is raised.
    unfoldable pub start_dialing : Db c → World → ReservationPair → Call → Db c
    start_dialing db w p call =
        elim (transition_agent c.agents db.agents (w.clock 2) p.agent.id AgentState.reserved
          AgentState.dialing TransitionActor.allocator p.agent.state_version) [
            | raises error ↦ db
            | returns r ↦ record db {
              agents = (bind_call c.agents r.1 p.agent.id p.worker_id call.id).1;
            }
          ]

    -- `_dial` from the call's move to INITIATED on
    unfoldable pub dial_initiated :
        Db c
        → HealthManager floats
        → World
        → Campaign
        → ReservationPair
        → Call
        → Option Bool × Db c × HealthManager floats
    unfolding start_dialing after_originate record_answer
    dial_initiated db m w campaign p call =
        let answer = w.originate call.id in
        let (dialled, db') = after_originate (start_dialing db w p call) w p call answer in
        (dialled, db', record_answer settings m (w.time 1) campaign.provider_name answer)

    -- `_dial` from the call on
    unfoldable pub dial_call :
        Db c
        → HealthManager floats
        → World
        → Campaign
        → ReservationPair
        → Call
        → Option Bool × Db c × HealthManager floats
    unfolding give_up dial_initiated
    dial_call db m w campaign p call =
        let reserved =
          transition_call c.calls db.calls (w.clock 0) call.id CallState.reserved none in
        let (initiated, calls') =
          transition_call c.calls reserved.1 (w.clock 1) call.id CallState.initiated none in
        let db' : Db c = record db { calls = calls' } in
        let (early, db_early) = give_up db w p BorrowerReleaseOutcome.released in
        let (late, db_late) = give_up db' w p BorrowerReleaseOutcome.released in
        if call.state != CallState.queued
        then (early, db_early, m)
        else if is_some initiated
        then dial_initiated db' m w campaign p call
        else (late, db_late, m)

    -- `create_call`, then the rest. None from `create_call` is the exception that it raises, which
    -- this code does not catch: nothing is released.
    unfoldable pub dial_new :
        Db c
        → HealthManager floats
        → World
        → Campaign
        → ReservationPair
        → Option Bool × Db c × HealthManager floats
    unfolding dial_call
    dial_new db m w campaign p =
        let (call, calls') =
          create_call c.calls db.calls w.new_id (w.clock 7) campaign.id p.agent.id p.borrower.id
            campaign.provider_name p.worker_id (p.borrower.attempt_count + 1) in
        let db' : Db c = record db { calls = calls' } in
        elim call [ none ↦ (none, db', m) | some k ↦ dial_call db' m w campaign p k ]

    -- The retry gate is asked for a borrower that was dialled before.
    unfoldable pub dial :
        Db c
        → HealthManager floats
        → World
        → Campaign
        → ReservationPair
        → Option Bool × Db c × HealthManager floats
    unfolding dial_new give_up
    dial db m w campaign p =
        let (allowed, m') =
          should_retry floats settings.health m settings.base.max_call_attempts (w.clock 9)
            (w.time 0) p.borrower campaign.provider_name in
        let (dialled, db') = give_up db w p BorrowerReleaseOutcome.released in
        if ltb 0 p.borrower.attempt_count
        then (if allowed then dial_new db m' w campaign p else (dialled, db', m'))
        else dial_new db m w campaign p
