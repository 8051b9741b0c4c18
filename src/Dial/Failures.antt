-- ===== src/Dial/Failures.antt =====
-- A dial that fails gives the pair back.
use mathlib.Core.Path.{subst}
use smart_dialerss.Prelude.{
  ℕ, ◌+◌, ◌≡◌, Bool, false, Option, none, some, ◌!=◌, nat_eq, ltb, is_some, arith, Bool-cases,
  Option-cases, inl, inr,
}
use smart_dialerss.Enums.{CallState, call_state_eq}
use smart_dialerss.AgentSm.{allowed_sources}
use smart_dialerss.Models.{Call, Campaign}
use smart_dialerss.Floats.{Floats}
use smart_dialerss.Database.{Collections, Db}
use smart_dialerss.AgentRepo.{can_release}
use smart_dialerss.BorrowerRepo as Borrowers
use smart_dialerss.BorrowerRepo.{BorrowerReleaseOutcome}
use smart_dialerss.CallRepo.{create_call, transition_call, attach_provider_call_id}
use smart_dialerss.ProviderHealth.{HealthManager, should_retry}
use smart_dialerss.Reservation.{ReservationPair, Reserved, reserve_pair}
use smart_dialerss.Reservation.Pair.{IsWhole, reserve_pair-IsWhole}
use smart_dialerss.Reservation.Claiming.{Taken, TakenBorrower}
use smart_dialerss.Dial.{
  World, Originated, DialSettings, give_up, fail_call, after_originate, dial_initiated, dial_call,
  dial_new, dial,
}
use smart_dialerss.Dial.Holding.{
  IsHeldPair, IsFreedPair, give_up-frees, with_calls, start_dialing-IsHeldPair,
}

module _ (floats : Floats) (c : Collections) (settings : DialSettings floats) where
  -- What is claimed of a result of the dial: if it is False, the pair is free.
  abbrev Frees : ReservationPair → Option Bool → Db c → Type 0
  Frees p dialled db = dialled ≡ some false → IsFreedPair floats c settings db p

  gives_up :
      (db : Db c) (calls : c.calls.State) (w : World) (p : ReservationPair)
      (outcome : BorrowerReleaseOutcome)
      → IsHeldPair floats c settings db p
      → IsFreedPair floats c settings
          (give_up floats c settings (record db { calls = calls }) w p outcome).1
          p
  gives_up db calls w p outcome h =
      give_up-frees floats c settings _ w p outcome (with_calls floats c settings db calls p h)

  after_originate-Frees :
      (db : Db c) (w : World) (p : ReservationPair) (call : Call) (answer : Originated)
      → IsHeldPair floats c settings db p
      → Frees p
          (after_originate floats c settings db w p call answer).0
          (after_originate floats c settings db w p call answer).1
  unfolding after_originate fail_call
  after_originate-Frees db w p call Originated.unavailable h = λ false_is. cc
  after_originate-Frees db w p call Originated.timed_out h = λ false_is. gives_up db _ w p _ h
  after_originate-Frees db w p call (Originated.rejected reason) h =
      λ false_is. gives_up db _ w p _ h
  after_originate-Frees db w p call (Originated.declined latency code) h =
      λ false_is. gives_up db _ w p _ h
  after_originate-Frees db w p call (Originated.accepted latency pid) h =
      elim (Bool-cases
        (is_some (attach_provider_call_id c.calls db.calls (w.clock 3) call.id pid).0)) [
          | inl attached ↦ rw (attached, after_originate) (λ false_is. cc)
          | inr lost ↦ rw (lost, after_originate) (λ false_is. gives_up db _ w p _ h)
        ]

  dial_initiated-Frees :
      (db : Db c) (m : HealthManager floats) (w : World) (campaign : Campaign) (p : ReservationPair)
      (call : Call)
      → IsHeldPair floats c settings db p
      → Frees p
          (dial_initiated floats c settings db m w campaign p call).0
          (dial_initiated floats c settings db m w campaign p call).1
  unfolding dial_initiated
  dial_initiated-Frees db m w campaign p call h =
      after_originate-Frees _ w p call (w.originate call.id)
        (start_dialing-IsHeldPair floats c settings db w p call h)

  dial_call-Frees :
      (db : Db c) (m : HealthManager floats) (w : World) (campaign : Campaign) (p : ReservationPair)
      (call : Call)
      → IsHeldPair floats c settings db p
      → Frees p
          (dial_call floats c settings db m w campaign p call).0
          (dial_call floats c settings db m w campaign p call).1
  unfolding dial_call
  dial_call-Frees db m w campaign p call h =
      let reserved = transition_call c.calls db.calls (w.clock 0) call.id CallState.reserved none in
      let initiated =
        transition_call c.calls reserved.1 (w.clock 1) call.id CallState.initiated none in
      elim (Bool-cases (call.state != CallState.queued)) [
        | inl old ↦ rw (old, dial_call) (λ false_is. give_up-frees floats c settings db w p _ h)
        | inr fresh ↦ elim (Bool-cases (is_some initiated.0)) [
          | inl moved ↦
              rw (fresh, moved, dial_call)
                (dial_initiated-Frees (record db { calls = initiated.1 }) m w campaign p call
                  (with_calls floats c settings db _ p h))
          | inr stuck ↦ rw (fresh, stuck, dial_call) (λ false_is. gives_up db _ w p _ h)
        ]
      ]

  dial_new-Frees :
      (db : Db c) (m : HealthManager floats) (w : World) (campaign : Campaign) (p : ReservationPair)
      → IsHeldPair floats c settings db p
      → Frees p
          (dial_new floats c settings db m w campaign p).0
          (dial_new floats c settings db m w campaign p).1
  unfolding dial_new
  dial_new-Frees db m w campaign p h =
      let r =
        create_call c.calls db.calls w.new_id (w.clock 7) campaign.id p.agent.id p.borrower.id
          campaign.provider_name p.worker_id (p.borrower.attempt_count + 1) in
      elim (Option-cases r.0) [
        | inl raised ↦ rw (raised, dial_new) (λ false_is. cc)
        | inr (k, made) ↦
            rw (made, dial_new)
              (dial_call-Frees (record db { calls = r.1 }) m w campaign p k
                (with_calls floats c settings db _ p h))
      ]

  -- If the worker holds the pair and the dial returns False, whatever the reason (the retry gate, an
  -- earlier call under the key, a call that another worker moved, a provider that times out, rejects or
  -- declines, an id that is taken), then the agent is AVAILABLE with no holder, lease or call, and the
  -- borrower has no holder and no lease.
  pub dial-frees :
      (db : Db c) (m : HealthManager floats) (w : World) (campaign : Campaign) (p : ReservationPair)
      → IsHeldPair floats c settings db p
      → (dial floats c settings db m w campaign p).0 ≡ some false
      → IsFreedPair floats c settings (dial floats c settings db m w campaign p).1 p
  unfolding dial
  dial-frees db m w campaign p h =
      let gate =
        should_retry floats settings.health m settings.base.max_call_attempts (w.clock 9) (w.time 0)
          p.borrower campaign.provider_name in
      elim (Bool-cases (ltb 0 p.borrower.attempt_count)) [
        | inr first ↦ rw (first, dial) (dial_new-Frees db m w campaign p h)
        | inl again ↦ elim (Bool-cases gate.0) [
          | inl open_gate ↦ rw (again, open_gate, dial) (dial_new-Frees db gate.1 w campaign p h)
          | inr closed ↦
              rw (again, closed, dial) (λ false_is. give_up-frees floats c settings db w p _ h)
        ]
      ]

  -- A pair that was just reserved is held.
  reserved-IsHeldPair :
      (db : Db c) (worker_id : ℕ) (p : ReservationPair)
      → p.worker_id ≡ worker_id
      → c.agents.find_one db.agents p.agent.id ≡ some p.agent
      → Taken worker_id p.agent p.agent
      → c.borrowers.find_one db.borrowers p.borrower.id ≡ some p.borrower
      → TakenBorrower worker_id p.borrower p.borrower
      → IsHeldPair floats c settings db p
  unfolding can_release allowed_sources Borrowers.can_release
  reserved-IsHeldPair db worker_id p same found taken found_b taken_b = record {
    agent = p.agent;
    agent_stored = found;
    agent_held = ground (arith, same);
    borrower = p.borrower;
    borrower_stored = found_b;
    borrower_held = ground (arith, same);
  }

  -- For every pair that `reserve_pair` has just returned: if its dial returns False, then the agent is
  -- AVAILABLE with no holder, lease or call, and the borrower has no holder and no lease.
  pub reserve_pair-dial_frees :
      (db : Db c) (m : HealthManager floats) (w : World) (campaign : Campaign) (worker_id : ℕ)
      (p : ReservationPair)
      → let r =
          reserve_pair c settings.base db w.clock_a w.clock_b
            (w.clock 8)
            w.fault
            campaign.id
            worker_id in
        r.0 ≡ Reserved.pair p
        → (dial floats c settings r.1 m w campaign p).0 ≡ some false
        → IsFreedPair floats c settings (dial floats c settings r.1 m w campaign p).1 p
  reserve_pair-dial_frees db m w campaign worker_id p paired failed =
      let r =
        reserve_pair c settings.base db w.clock_a w.clock_b (w.clock 8) w.fault campaign.id
          worker_id in
      let (found, taken, found_b, taken_b, same) =
        subst (λ x. IsWhole c settings.base db campaign.id worker_id w.fault (x, r.1)) paired
          (reserve_pair-IsWhole c settings.base db w.clock_a w.clock_b (w.clock 8) w.fault
            campaign.id worker_id) in
      dial-frees r.1 m w campaign p
        (reserved-IsHeldPair r.1 worker_id p same found taken found_b taken_b) failed
