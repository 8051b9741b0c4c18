-- ===== src/EventProcessor/Effects.antt =====
-- What a provider's event does to the call, its agent and its borrower.
use mathlib.Core.Option
use mathlib.Core.Path.{ap₂}
use smart_dialerss.Prelude.{
  ℕ, ◌+◌, ◌≡◌, ◌∙◌, refl, sym, ap, true, false, [], ◌∷◌, Option, none, some, if◌then◌else◌,
  contains, leb,
}
use smart_dialerss.Enums.{
  CallState, AgentState, BorrowerStatus, EventProcessingStatus, call_state_eq, agent_state_eq,
  borrower_status_eq,
}
use smart_dialerss.CallSm.{EventApplicability, should_apply_event, can_transition}
use smart_dialerss.Models.{Agent, Borrower, Call, StoredEvent}
use smart_dialerss.Config.{Settings}
use smart_dialerss.BorrowerRepo.{releasable_statuses}
use smart_dialerss.CallRepo.{derive, advance, find_by_provider_call_id}
use smart_dialerss.CallRepo.Progress.{IsWellFormed}
use smart_dialerss.EventRepo.{
  ProviderEvent, event_key, event_key_eq, same_event_iff, mark_processed,
}
use smart_dialerss.Database.{Collections, Db}
use smart_dialerss.EventProcessor.{
  event_type_to_call_state, failure_reason, finish, apply_agent_transition, release_call_borrower,
  apply_to_parties, apply_to_call, apply_event,
}
use smart_dialerss.EventProcessor.Parties.{
  is_abort, can_advance-of-apply, abort_frees, applied, parties_kept, abort_ends, moved,
  freed_agent, freed_borrower, agent_part,
}
use smart_dialerss.EventProcessor.Ignored.{ignored-status, status_of_ignored}

module _ (c : Collections) (settings : Settings) where
  -- An event of a known call and type for whose state the table has no transition from the call's changes
  -- no call, agent or borrower. It is reported, and the stored event is marked, without a transition: as
  -- invalid if the call is QUEUED or RESERVED, before it was placed, and as stale otherwise.
  pub apply_event-ignored :
      (db : Db c) (clock : ℕ → ℕ) (e : ProviderEvent) (call : Call) (target : CallState)
      → find_by_provider_call_id c.calls db.calls e.provider_name e.provider_call_id ≡ some call
      → event_type_to_call_state e.event_type ≡ some target
      → can_transition call.state target ≡ false
      → let r = apply_event c settings db clock e in
        let status = status_of_ignored call.state in
        (r.1.calls ≡ db.calls)
        × (r.1.agents ≡ db.agents)
        × (r.1.borrowers ≡ db.borrowers)
        × (r.0.status ≡ status)
        × (r.0.applied_transition ≡ none)
        × (c.events.find_one r.1.events (event_key e)
            ≡ Option.map
                (λ (d : StoredEvent). record d {
                  processing_status = some status;
                  applied_transition = none;
                })
                (c.events.find_one db.events (event_key e)))
  unfolding apply_event finish mark_processed
  apply_event-ignored db clock e call target found known impossible =
      let is = ignored-status e.event_type call.state target known impossible in
      let marks = λ (d : StoredEvent). record d {
        processing_status = some (status_of_ignored call.state);
        applied_transition = none;
      } in
      let marked =
        c.events.update_stored db.events (event_key e) (λ _. true) marks (λ d. refl)
          (event_key e) in
      rw (found, known, apply_event, is, apply_to_call)
        (
          refl,
          refl,
          refl,
          refl,
          refl,
          marked ∙ rw ((same_event_iff (event_key e) (event_key e)).1 refl) refl,
        )

  -- A call, its agent and its borrower as they are stored, while the worker that created the call
  -- holds both.
  pub record IsUnderWay (db : Db c) (call : Call) (a : Agent) (b : Borrower) : Type 0 where
    pub call_stored : c.calls.find_one db.calls call.id ≡ some call
    pub well_formed : IsWellFormed call
    pub agent_stored : c.agents.find_one db.agents call.agent_id ≡ some a
    pub agent_busy : contains a.state (AgentState.dialing ∷ AgentState.connected ∷ []) ≡ true
    pub agent_held : a.reserved_by ≡ some call.created_by_worker
    pub borrower_stored : c.borrowers.find_one db.borrowers call.borrower_id ≡ some b
    pub borrower_busy : contains b.status releasable_statuses ≡ true
    pub borrower_held : b.reserved_by ≡ some call.created_by_worker

  -- What an aborting event leaves of the three.
  pub record IsAborted (db : Db c) (call : Call) (target : CallState) (b : Borrower) : Type 0 where
    pub call_after : Call
    pub call_stored : c.calls.find_one db.calls call.id ≡ some call_after
    pub call_ended : (call_after.state ≡ target) × (call_after.terminal ≡ true)
    pub agent_after : Agent
    pub agent_stored : c.agents.find_one db.agents call.agent_id ≡ some agent_after
    pub agent_free : agent_after.state ≡ AgentState.available
    pub agent_released : (agent_after.reserved_by ≡ none) × (agent_after.lease_expires_at ≡ none)
    pub agent_unbound : agent_after.current_call_id ≡ none
    pub borrower_after : Borrower
    pub borrower_stored : c.borrowers.find_one db.borrowers call.borrower_id ≡ some borrower_after
    pub borrower_released : borrower_after.reserved_by ≡ none
    pub attempt_counted : borrower_after.attempt_count ≡ b.attempt_count + 1
    pub borrower_status : borrower_after.status ≡ (
        if leb settings.max_call_attempts (b.attempt_count + 1)
        then BorrowerStatus.exhausted
        else BorrowerStatus.pending)

  IsAborted-parties :
      (db : Db c) (clock : ℕ → ℕ) (call call' : Call) (target : CallState) (a : Agent)
      (b : Borrower)
      → is_abort target ≡ true
      → IsUnderWay db call a b
      → call'.agent_id ≡ call.agent_id
      → call'.borrower_id ≡ call.borrower_id
      → call'.created_by_worker ≡ call.created_by_worker
      → (calls' : c.calls.State) (stored : Call) → c.calls.find_one calls' call.id ≡ some stored
      → (stored.state ≡ target) × (stored.terminal ≡ true)
      → IsAborted
          (apply_to_parties c settings (record db { calls = calls' }) clock call' target)
          call
          target
          b
  unfolding apply_to_parties
  IsAborted-parties db clock call call' target a b abort way ag bo wo calls' stored kept ended =
      let db' : Db c = record db { calls = calls' } in
      let (a', found_a, free, unheld, unleased, unbound) =
        freed_agent c settings db' (clock 1) call' target a abort
          (ap (c.agents.find_one db.agents) ag ∙ way.agent_stored) way.agent_busy
          (way.agent_held ∙ ap some (sym wo)) in
      let moved_db = apply_agent_transition c settings db' (clock 1) call' target in
      let same = agent_part c settings db' (clock 1) call' target in
      let (b', found_b, unreserved, counted, status) =
        freed_borrower c settings moved_db (clock 2) call' target b abort
          (ap₂ c.borrowers.find_one same.0 bo ∙ way.borrower_stored) way.borrower_busy
          (way.borrower_held ∙ ap some (sym wo)) in
      rw ((abort_frees target abort).1, apply_to_parties)
        (record {
          call_after = stored;
          call_stored = ap (λ s. c.calls.find_one s call.id) same.1 ∙ kept;
          call_ended = ended;
          agent_after = a';
          agent_stored = ap (c.agents.find_one moved_db.agents) (sym ag) ∙ found_a;
          agent_free = free;
          agent_released = (unheld, unleased);
          agent_unbound = unbound;
          borrower_after = b';
          borrower_stored =
              ap
                (c.borrowers.find_one
                  (release_call_borrower c settings moved_db (clock 2) call' target).borrowers)
                (sym bo)
              ∙ found_b;
          borrower_released = unreserved;
          attempt_counted = counted;
          borrower_status = status;
        })

  finish-IsAborted :
      (db : Db c) (e : ProviderEvent) (status : EventProcessingStatus)
      (transition : Option (CallState × CallState)) (call : Call) (target : CallState)
      (b : Borrower)
      → IsAborted db call target b
      → IsAborted (finish c settings db e status transition).1 call target b
  unfolding finish
  finish-IsAborted db e status transition call target b h = record {
    call_after = h.call_after;
    call_stored = h.call_stored;
    call_ended = h.call_ended;
    agent_after = h.agent_after;
    agent_stored = h.agent_stored;
    agent_free = h.agent_free;
    agent_released = h.agent_released;
    agent_unbound = h.agent_unbound;
    borrower_after = h.borrower_after;
    borrower_stored = h.borrower_stored;
    borrower_released = h.borrower_released;
    attempt_counted = h.attempt_counted;
    borrower_status = h.borrower_status;
  }

  -- A FAILED or CANCELLED event that is applied to a call under way ends the call in that state, makes
  -- its agent AVAILABLE with no holder, lease or call, and releases its borrower with one more
  -- attempt, as EXHAUSTED if the attempts are used up and as PENDING otherwise.
  pub apply_event-aborts :
      (db : Db c) (clock : ℕ → ℕ) (e : ProviderEvent) (call : Call) (target : CallState) (a : Agent)
      (b : Borrower)
      → find_by_provider_call_id c.calls db.calls e.provider_name e.provider_call_id ≡ some call
      → event_type_to_call_state e.event_type ≡ some target
      → is_abort target ≡ true
      → should_apply_event call.state target ≡ EventApplicability.apply
      → IsUnderWay db call a b
      → let r = apply_event c settings db clock e in
        (r.0.status ≡ EventProcessingStatus.processed) × IsAborted r.1 call target b
  unfolding apply_event
  apply_event-aborts db clock e call target a b found known abort applies way =
      let reason = failure_reason e target in
      let (returned, stored) =
        moved c settings db.calls (clock 0) call target reason way.call_stored
          (can_advance-of-apply call target way.well_formed applies) in
      let call' = derive (advance target reason (clock 0) call) in
      let same = parties_kept call target reason (clock 0) in
      rw (found, known, apply_event, applied applies, apply_to_call, returned)
        (
          unfold finish in refl,
          finish-IsAborted _ e _ _ call target b (
              IsAborted-parties db clock call call' target a b abort way same.0 same.1 same.2 _ _
                stored (abort_ends call target reason (clock 0) abort)),
        )
