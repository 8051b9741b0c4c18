-- ===== src/System/Agents/Dials.antt =====
-- What the allocator does to the agents.
use Prim.Native.String.{String}
use smart_dialerss.Prelude.{
  ℕ, zero, suc, ◌≢◌, arith, ◌||◌, Option, none, some, Option-cases, Bool-cases, inl, inr, ◌!=◌, ltb,
  leb, is_some, ◌+◌,
}
use smart_dialerss.Enums.{AgentState, CallState, call_state_eq}
use smart_dialerss.AgentSm.{TransitionActor, validate_transition}
use smart_dialerss.Models.{Call, Campaign}
use smart_dialerss.AgentRepo.{transition_agent}
use smart_dialerss.AgentRepo.Reach.{
  Reaches, Reaches-refl, Reaches-trans, move-Reaches, bind-Reaches,
}
use smart_dialerss.BorrowerRepo.{BorrowerReleaseOutcome}
use smart_dialerss.CallRepo.{create_call, transition_call, attach_provider_call_id}
use smart_dialerss.Database.{Collections, Db}
use smart_dialerss.Floats.{Floats}
use smart_dialerss.ProviderHealth.{HealthManager, should_retry}
use smart_dialerss.Reservation.{ReservationPair, Reserved, reserve_pair, release_pair}
use smart_dialerss.Dial.{
  World, Originated, DialSettings, give_up, fail_call, after_originate, start_dialing,
  dial_initiated, dial_call, dial_new, dial,
}
use smart_dialerss.Allocator.{
  Round, Live, Progress, after_reserve, attempt, rounds, allocate, no_progress,
  max_consecutive_contentions,
}
use smart_dialerss.System.Agents.Claims.{release_reserved_agent-Reaches, reserve_pair-Reaches}

dialing_fresh : AgentState.dialing ≢ AgentState.reserved
dialing_fresh = ground arith

module _ (floats : Floats) (c : Collections) (settings : DialSettings floats) where
  give_up-Reaches :
      (db : Db c) (w : World) (p : ReservationPair) (outcome : BorrowerReleaseOutcome)
      → Reaches c.agents db.agents (give_up floats c settings db w p outcome).1.agents
  unfolding give_up release_pair
  give_up-Reaches db w p outcome =
      release_reserved_agent-Reaches c settings.base db (w.clock 5) p.agent.id p.worker_id

  fail_call-Reaches :
      (db : Db c) (w : World) (call : Call) (reason : Option String) (p : ReservationPair)
      (outcome : BorrowerReleaseOutcome)
      → Reaches c.agents db.agents
          (give_up floats c settings
            (fail_call floats c settings db w call reason)
            w
            p
            outcome).1.agents
  unfolding fail_call
  fail_call-Reaches db w call reason p outcome =
      give_up-Reaches (fail_call floats c settings db w call reason) w p outcome

  after_originate-Reaches :
      (db : Db c) (w : World) (p : ReservationPair) (call : Call) (answer : Originated)
      → Reaches c.agents db.agents (after_originate floats c settings db w p call answer).1.agents
  unfolding after_originate
  after_originate-Reaches db w p call Originated.unavailable = Reaches-refl c.agents db.agents
  after_originate-Reaches db w p call Originated.timed_out = fail_call-Reaches db w call _ p _
  after_originate-Reaches db w p call (Originated.rejected reason) =
      fail_call-Reaches db w call _ p _
  after_originate-Reaches db w p call (Originated.declined latency code) =
      fail_call-Reaches db w call _ p _
  after_originate-Reaches db w p call (Originated.accepted latency pid) =
      let r = attach_provider_call_id c.calls db.calls (w.clock 3) call.id pid in
      elim (Bool-cases (is_some r.0)) [
        | inl won ↦ rw (won, after_originate) (Reaches-refl c.agents db.agents)
        | inr lost ↦
            rw (lost, after_originate)
              (fail_call-Reaches (record db { calls = r.1 }) w call
                (some "provider_call_id_conflict") p BorrowerReleaseOutcome.retry)
      ]

  start_dialing-Reaches :
      (db : Db c) (w : World) (p : ReservationPair) (call : Call)
      → Reaches c.agents db.agents (start_dialing floats c settings db w p call).agents
  unfolding start_dialing transition_agent
  start_dialing-Reaches db w p call =
      elim (Option-cases
        (validate_transition AgentState.reserved AgentState.dialing TransitionActor.allocator)) [
          | inr (error, bad) ↦
              rw (bad, transition_agent, start_dialing) (Reaches-refl c.agents db.agents)
          | inl good ↦
              rw (good, transition_agent, start_dialing)
                (Reaches-trans c.agents
                  (move-Reaches c.agents db.agents (w.clock 2) p.agent.id AgentState.reserved
                    AgentState.dialing TransitionActor.allocator p.agent.state_version dialing_fresh
                    good)
                  (bind-Reaches c.agents _ p.agent.id p.worker_id call.id))
        ]

  dial_initiated-Reaches :
      (db : Db c) (m : HealthManager floats) (w : World) (campaign : Campaign) (p : ReservationPair)
      (call : Call)
      → Reaches c.agents db.agents
          (dial_initiated floats c settings db m w campaign p call).1.agents
  unfolding dial_initiated
  dial_initiated-Reaches db m w campaign p call =
      Reaches-trans c.agents (start_dialing-Reaches db w p call) (
        after_originate-Reaches (start_dialing floats c settings db w p call) w p call
          (w.originate call.id))

  dial_call-Reaches :
      (db : Db c) (m : HealthManager floats) (w : World) (campaign : Campaign) (p : ReservationPair)
      (call : Call)
      → Reaches c.agents db.agents (dial_call floats c settings db m w campaign p call).1.agents
  unfolding dial_call
  dial_call-Reaches db m w campaign p call =
      let reserved = transition_call c.calls db.calls (w.clock 0) call.id CallState.reserved none in
      let initiated =
        transition_call c.calls reserved.1 (w.clock 1) call.id CallState.initiated none in
      let db' : Db c = record db { calls = initiated.1 } in
      elim (Bool-cases (call.state != CallState.queued)) [
        | inl old ↦ rw (old, dial_call) (give_up-Reaches db w p BorrowerReleaseOutcome.released)
        | inr fresh ↦ elim (Bool-cases (is_some initiated.0)) [
          | inl won ↦ rw (fresh, won, dial_call) (dial_initiated-Reaches db' m w campaign p call)
          | inr lost ↦
              rw (fresh, lost, dial_call) (give_up-Reaches db' w p BorrowerReleaseOutcome.released)
        ]
      ]

  dial_new-Reaches :
      (db : Db c) (m : HealthManager floats) (w : World) (campaign : Campaign) (p : ReservationPair)
      → Reaches c.agents db.agents (dial_new floats c settings db m w campaign p).1.agents
  unfolding dial_new
  dial_new-Reaches db m w campaign p =
      let r =
        create_call c.calls db.calls w.new_id (w.clock 7) campaign.id p.agent.id p.borrower.id
          campaign.provider_name p.worker_id (p.borrower.attempt_count + 1) in
      elim (Option-cases r.0) [
        | inl raised ↦ rw (raised, dial_new) (Reaches-refl c.agents db.agents)
        | inr (k, made) ↦
            rw (made, dial_new) (dial_call-Reaches (record db { calls = r.1 }) m w campaign p k)
      ]

  dial-Reaches :
      (db : Db c) (m : HealthManager floats) (w : World) (campaign : Campaign) (p : ReservationPair)
      → Reaches c.agents db.agents (dial floats c settings db m w campaign p).1.agents
  unfolding dial
  dial-Reaches db m w campaign p =
      let gate =
        should_retry floats settings.health m settings.base.max_call_attempts (w.clock 9) (w.time 0)
          p.borrower campaign.provider_name in
      elim (Bool-cases (ltb 0 p.borrower.attempt_count)) [
        | inr first ↦ rw (first, dial) (dial_new-Reaches db m w campaign p)
        | inl again ↦ elim (Bool-cases gate.0) [
          | inl open_gate ↦ rw (again, open_gate, dial) (dial_new-Reaches db gate.1 w campaign p)
          | inr closed ↦
              rw (again, closed, dial) (give_up-Reaches db w p BorrowerReleaseOutcome.released)
        ]
      ]

  after_reserve-Reaches :
      (w : World) (campaign : Campaign) (g : Progress) (s : Live floats c settings) (r : Reserved)
      → Reaches c.agents s.db.agents (after_reserve floats c settings w campaign g s r).1.db.agents
  unfolding after_reserve
  after_reserve-Reaches w campaign g s Reserved.nothing = Reaches-refl c.agents s.db.agents
  after_reserve-Reaches w campaign g s Reserved.raised = Reaches-refl c.agents s.db.agents
  after_reserve-Reaches w campaign g s (Reserved.pair p) = dial-Reaches s.db s.health w campaign p

  attempt-Reaches :
      (s : Live floats c settings) (w : World) (campaign : Campaign) (worker_id : ℕ) (g : Progress)
      → Reaches c.agents s.db.agents
          (attempt floats c settings s w campaign worker_id g).1.db.agents
  unfolding attempt
  attempt-Reaches s w campaign worker_id g =
      let r =
        reserve_pair c settings.base s.db w.clock_a w.clock_b (w.clock 8) w.fault campaign.id
          worker_id in
      Reaches-trans c.agents
        (reserve_pair-Reaches c settings.base s.db w.clock_a w.clock_b (w.clock 8) w.fault
          campaign.id worker_id)
        (after_reserve-Reaches w campaign g (record s { db = r.1 }) r.0)

  -- What others write on agents before each round are the program's writes as well.
  abbrev pub AreFair : (ℕ → Round c) → Type 0
  AreFair each = (n : ℕ) (db : Db c) → Reaches c.agents db.agents ((each n).meanwhile db).agents

  rounds-Reaches :
      (n : ℕ) (s : Live floats c settings) (each : ℕ → Round c) (campaign : Campaign)
      (worker_id : ℕ) (g : Progress)
      → AreFair each
      → Reaches c.agents s.db.agents
          (rounds floats c settings n s each campaign worker_id g).1.db.agents
  unfolding rounds
  rounds-Reaches zero s each campaign worker_id g fair = Reaches-refl c.agents s.db.agents
  rounds-Reaches (suc n) s each campaign worker_id g fair =
      let before : Live floats c settings = record s { db = (each 0).meanwhile s.db } in
      let r = attempt floats c settings before (each 0).world campaign worker_id g in
      let one =
        Reaches-trans c.agents (fair 0 s.db)
          (attempt-Reaches before (each 0).world campaign worker_id g) in
      elim (Bool-cases
        (r.0.raised || leb max_consecutive_contentions r.0.consecutive_contentions)) [
          | inl stop ↦ rw (stop, rounds) one
          | inr go_on ↦
              rw (go_on, rounds)
                (Reaches-trans c.agents one (
                  rounds-Reaches n r.1 (λ k. each (suc k)) campaign worker_id r.0
                    (λ k. fair (suc k))))
        ]

  pub allocate-Reaches :
      (s : Live floats c settings) (each : ℕ → Round c) (campaign : Campaign)
      (approved worker_id : ℕ)
      → AreFair each
      → Reaches c.agents s.db.agents
          (allocate floats c settings s each campaign approved worker_id).1.db.agents
  unfolding allocate
  allocate-Reaches s each campaign approved worker_id fair =
      rounds-Reaches approved s each campaign worker_id no_progress fair
