-- ===== src/System/Dials.antt =====
-- What the allocator does to the calls.
use Prim.Native.String.{String}
use smart_dialerss.Prelude.{
  ℕ, zero, suc, ◌≡◌, arith, ◌||◌, Option, none, some, Option-cases, Bool-cases, inl, inr, ◌!=◌, ltb,
  leb, is_some, ◌+◌,
}
use smart_dialerss.Enums.{CallState, call_state_eq}
use smart_dialerss.Models.{Call, Campaign}
use smart_dialerss.BorrowerRepo.{BorrowerReleaseOutcome}
use smart_dialerss.CallRepo.{create_call, transition_call, attach_provider_call_id}
use smart_dialerss.CallRepo.Reach.{
  Reaches, Reaches-refl, Reaches-trans, Reaches-eq, transition_call-Reaches, create_call-Reaches,
  attach-Reaches,
}
use smart_dialerss.Database.{Collections, Db}
use smart_dialerss.Floats.{Floats}
use smart_dialerss.ProviderHealth.{HealthManager, should_retry}
use smart_dialerss.Reservation.{
  ReservationPair, Reserved, release_reserved_agent, reserve_pair, release_pair,
}
use smart_dialerss.Dial.{
  World, Originated, DialSettings, give_up, fail_call, after_originate, start_dialing,
  dial_initiated, dial_call, dial_new, dial,
}
use smart_dialerss.Allocator.{
  Round, Live, Progress, after_reserve, attempt, rounds, allocate, no_progress,
  max_consecutive_contentions,
}
use smart_dialerss.System.Claims.{reserve_pair-calls}

module _ (floats : Floats) (c : Collections) (settings : DialSettings floats) where
  give_up-Reaches :
      (db : Db c) (w : World) (p : ReservationPair) (outcome : BorrowerReleaseOutcome)
      → Reaches c.calls db.calls (give_up floats c settings db w p outcome).1.calls
  unfolding give_up release_pair release_reserved_agent
  give_up-Reaches db w p outcome = Reaches-refl c.calls db.calls

  fail_call-Reaches :
      (db : Db c) (w : World) (call : Call) (reason : Option String) (p : ReservationPair)
      (outcome : BorrowerReleaseOutcome)
      → Reaches c.calls db.calls
          (give_up floats c settings
            (fail_call floats c settings db w call reason)
            w
            p
            outcome).1.calls
  unfolding fail_call
  fail_call-Reaches db w call reason p outcome =
      Reaches-trans c.calls
        (transition_call-Reaches c.calls db.calls (w.clock 4) call.id CallState.failed reason)
        (give_up-Reaches (fail_call floats c settings db w call reason) w p outcome)

  after_originate-Reaches :
      (db : Db c) (w : World) (p : ReservationPair) (call : Call) (answer : Originated)
      → Reaches c.calls db.calls (after_originate floats c settings db w p call answer).1.calls
  unfolding after_originate
  after_originate-Reaches db w p call Originated.unavailable = Reaches-refl c.calls db.calls
  after_originate-Reaches db w p call Originated.timed_out = fail_call-Reaches db w call _ p _
  after_originate-Reaches db w p call (Originated.rejected reason) =
      fail_call-Reaches db w call _ p _
  after_originate-Reaches db w p call (Originated.declined latency code) =
      fail_call-Reaches db w call _ p _
  after_originate-Reaches db w p call (Originated.accepted latency pid) =
      let r = attach_provider_call_id c.calls db.calls (w.clock 3) call.id pid in
      let attached = attach-Reaches c.calls db.calls (w.clock 3) call.id pid in
      elim (Bool-cases (is_some r.0)) [
        | inl won ↦ rw (won, after_originate) attached
        | inr lost ↦
            rw (lost, after_originate)
              (Reaches-trans c.calls attached (
                fail_call-Reaches (record db { calls = r.1 }) w call
                  (some "provider_call_id_conflict") p BorrowerReleaseOutcome.retry))
      ]

  start_dialing-calls :
      (db : Db c) (w : World) (p : ReservationPair) (call : Call)
      → (start_dialing floats c settings db w p call).calls ≡ db.calls
  unfolding start_dialing
  start_dialing-calls db w p call = ground arith

  dial_initiated-Reaches :
      (db : Db c) (m : HealthManager floats) (w : World) (campaign : Campaign) (p : ReservationPair)
      (call : Call)
      → Reaches c.calls db.calls (dial_initiated floats c settings db m w campaign p call).1.calls
  unfolding dial_initiated
  dial_initiated-Reaches db m w campaign p call =
      Reaches-trans c.calls (Reaches-eq c.calls (start_dialing-calls db w p call)) (
        after_originate-Reaches (start_dialing floats c settings db w p call) w p call
          (w.originate call.id))

  dial_call-Reaches :
      (db : Db c) (m : HealthManager floats) (w : World) (campaign : Campaign) (p : ReservationPair)
      (call : Call)
      → Reaches c.calls db.calls (dial_call floats c settings db m w campaign p call).1.calls
  unfolding dial_call
  dial_call-Reaches db m w campaign p call =
      let reserved = transition_call c.calls db.calls (w.clock 0) call.id CallState.reserved none in
      let initiated =
        transition_call c.calls reserved.1 (w.clock 1) call.id CallState.initiated none in
      let moved =
        Reaches-trans c.calls
          (transition_call-Reaches c.calls db.calls (w.clock 0) call.id CallState.reserved none)
          (transition_call-Reaches c.calls reserved.1 (w.clock 1) call.id CallState.initiated
            none) in
      elim (Bool-cases (call.state != CallState.queued)) [
        | inl old ↦ rw (old, dial_call) (give_up-Reaches db w p BorrowerReleaseOutcome.released)
        | inr fresh ↦ elim (Bool-cases (is_some initiated.0)) [
          | inl won ↦
              rw (fresh, won, dial_call)
                (Reaches-trans c.calls moved
                  (dial_initiated-Reaches (record db { calls = initiated.1 }) m w campaign p call))
          | inr lost ↦
              rw (fresh, lost, dial_call)
                (Reaches-trans c.calls moved (
                  give_up-Reaches (record db { calls = initiated.1 }) w p
                    BorrowerReleaseOutcome.released))
        ]
      ]

  dial_new-Reaches :
      (db : Db c) (m : HealthManager floats) (w : World) (campaign : Campaign) (p : ReservationPair)
      → Reaches c.calls db.calls (dial_new floats c settings db m w campaign p).1.calls
  unfolding dial_new
  dial_new-Reaches db m w campaign p =
      let r =
        create_call c.calls db.calls w.new_id (w.clock 7) campaign.id p.agent.id p.borrower.id
          campaign.provider_name p.worker_id (p.borrower.attempt_count + 1) in
      let created =
        create_call-Reaches c.calls db.calls w.new_id (w.clock 7) campaign.id p.agent.id
          p.borrower.id campaign.provider_name p.worker_id (p.borrower.attempt_count + 1) in
      elim (Option-cases r.0) [
        | inl raised ↦ rw (raised, dial_new) created
        | inr (k, made) ↦
            rw (made, dial_new)
              (Reaches-trans c.calls created
                (dial_call-Reaches (record db { calls = r.1 }) m w campaign p k))
      ]

  dial-Reaches :
      (db : Db c) (m : HealthManager floats) (w : World) (campaign : Campaign) (p : ReservationPair)
      → Reaches c.calls db.calls (dial floats c settings db m w campaign p).1.calls
  unfolding dial
  dial-Reaches db m w campaign p =
      let gate =
        should_retry floats settings.health m settings.base.max_call_attempts (w.clock 9) (w.time 0)
          p.borrower campaign.provider_name in
      elim (Bool-cases (ltb 0 p.borrower.attempt_count)) [
        | inr first ↦ rw (first, dial) (dial_new-Reaches db m w campaign p)
        | inl again ↦ elim (Bool-cases gate.0) [
          | inl open_gate ↦ rw (again, open_gate, dial) (dial_new-Reaches db gate.1 w campaign p)
          | inr closed ↦
              rw (again, closed, dial) (give_up-Reaches db w p BorrowerReleaseOutcome.released)
        ]
      ]

  after_reserve-Reaches :
      (w : World) (campaign : Campaign) (g : Progress) (s : Live floats c settings) (r : Reserved)
      → Reaches c.calls s.db.calls (after_reserve floats c settings w campaign g s r).1.db.calls
  unfolding after_reserve
  after_reserve-Reaches w campaign g s Reserved.nothing = Reaches-refl c.calls s.db.calls
  after_reserve-Reaches w campaign g s Reserved.raised = Reaches-refl c.calls s.db.calls
  after_reserve-Reaches w campaign g s (Reserved.pair p) = dial-Reaches s.db s.health w campaign p

  attempt-Reaches :
      (s : Live floats c settings) (w : World) (campaign : Campaign) (worker_id : ℕ) (g : Progress)
      → Reaches c.calls s.db.calls (attempt floats c settings s w campaign worker_id g).1.db.calls
  unfolding attempt
  attempt-Reaches s w campaign worker_id g =
      let r =
        reserve_pair c settings.base s.db w.clock_a w.clock_b (w.clock 8) w.fault campaign.id
          worker_id in
      Reaches-trans c.calls
        (Reaches-eq c.calls (
          reserve_pair-calls c settings.base s.db w.clock_a w.clock_b (w.clock 8) w.fault
            campaign.id worker_id))
        (after_reserve-Reaches w campaign g (record s { db = r.1 }) r.0)

  -- What others write on calls before each round are the program's writes as well.
  abbrev pub AreFair : (ℕ → Round c) → Type 0
  AreFair each = (n : ℕ) (db : Db c) → Reaches c.calls db.calls ((each n).meanwhile db).calls

  rounds-Reaches :
      (n : ℕ) (s : Live floats c settings) (each : ℕ → Round c) (campaign : Campaign)
      (worker_id : ℕ) (g : Progress)
      → AreFair each
      → Reaches c.calls s.db.calls
          (rounds floats c settings n s each campaign worker_id g).1.db.calls
  unfolding rounds
  rounds-Reaches zero s each campaign worker_id g fair = Reaches-refl c.calls s.db.calls
  rounds-Reaches (suc n) s each campaign worker_id g fair =
      let before : Live floats c settings = record s { db = (each 0).meanwhile s.db } in
      let r = attempt floats c settings before (each 0).world campaign worker_id g in
      let one =
        Reaches-trans c.calls (fair 0 s.db)
          (attempt-Reaches before (each 0).world campaign worker_id g) in
      elim (Bool-cases
        (r.0.raised || leb max_consecutive_contentions r.0.consecutive_contentions)) [
          | inl stop ↦ rw (stop, rounds) one
          | inr go_on ↦
              rw (go_on, rounds)
                (Reaches-trans c.calls one (
                  rounds-Reaches n r.1 (λ k. each (suc k)) campaign worker_id r.0
                    (λ k. fair (suc k))))
        ]

  pub allocate-Reaches :
      (s : Live floats c settings) (each : ℕ → Round c) (campaign : Campaign)
      (approved worker_id : ℕ)
      → AreFair each
      → Reaches c.calls s.db.calls
          (allocate floats c settings s each campaign approved worker_id).1.db.calls
  unfolding allocate
  allocate-Reaches s each campaign approved worker_id fair =
      rounds-Reaches approved s each campaign worker_id no_progress fair
