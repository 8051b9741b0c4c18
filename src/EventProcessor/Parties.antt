-- ===== src/EventProcessor/Parties.antt =====
-- What an event that ends a call does to the agent and to the borrower of the call.
use Prim.Native.String.{String}
use mathlib.Core.Option
use mathlib.Core.Path.{subst}
use smart_dialerss.Prelude.{
  ℕ, ◌+◌, ◌≡◌, refl, sym, ap, Bool, true, false, ◌&&◌, [], ◌∷◌, Option, none, some, is_some,
  if◌then◌else◌, arith, contains, ◌==◌, leb,
}
use smart_dialerss.Enums.{
  CallState, AgentState, BorrowerStatus, call_state_eq, agent_state_eq, borrower_status_eq,
}
use smart_dialerss.AgentSm.{TransitionActor, allowed_sources}
use smart_dialerss.CallSm.{
  EventApplicability, agent_state_for_call_state, should_apply_event, is_terminal,
}
use smart_dialerss.Models.{Agent, Borrower, Call}
use smart_dialerss.Config.{Settings}
use smart_dialerss.Store.Laws.{update-hits}
use smart_dialerss.AgentRepo.{release_agent, can_release, release}
use smart_dialerss.AgentRepo.Release.{release_agent-hits}
use smart_dialerss.BorrowerRepo
use smart_dialerss.BorrowerRepo.{BorrowerReleaseOutcome, releasable_statuses}
use smart_dialerss.CallRepo.{derive, can_advance, advance, transition_call}
use smart_dialerss.CallRepo.Progress.{IsWellFormed, advance-id}
use smart_dialerss.Database.{Collections, Db}
use smart_dialerss.EventProcessor.{
  agent_releasing_call_states, outcome_for_terminal_call, ignored_applicability_status, move_agent,
  apply_agent_transition, release_call_borrower,
}

-- The target of an event that ends a call before anybody was reached.
abbrev pub is_abort : CallState → Bool
is_abort target = contains target (CallState.failed ∷ CallState.cancelled ∷ [])

pub can_advance-of-apply :
    (call : Call) (target : CallState)
    → IsWellFormed call
    → should_apply_event call.state target ≡ EventApplicability.apply
    → can_advance target call ≡ true
unfolding can_advance should_apply_event
can_advance-of-apply call target wf may = ground arith

derive_self : (call : Call) → IsWellFormed call → derive call ≡ call
unfolding derive
derive_self call wf = ground arith

pub abort_frees :
    (target : CallState)
    → is_abort target ≡ true
    → (agent_state_for_call_state target ≡ some AgentState.available)
      × (contains target agent_releasing_call_states ≡ true)
unfolding agent_state_for_call_state
abort_frees target abort = ground arith

may_free :
    (worker_id : ℕ) (a : Agent)
    → contains a.state (AgentState.dialing ∷ AgentState.connected ∷ []) ≡ true
    → a.reserved_by ≡ some worker_id
    → can_release worker_id (allowed_sources AgentState.available TransitionActor.event_processor) a
      ≡ true
unfolding can_release allowed_sources
may_free worker_id a busy held = ground arith

not_available :
    (a : Agent)
    → contains a.state (AgentState.dialing ∷ AgentState.connected ∷ []) ≡ true
    → (a.state == AgentState.available) ≡ false
not_available a busy = ground arith

abort_retries :
    (target : CallState) (answered_at : Option ℕ)
    → is_abort target ≡ true
    → outcome_for_terminal_call (target == CallState.completed && is_some answered_at)
      ≡ BorrowerReleaseOutcome.retry
unfolding outcome_for_terminal_call
abort_retries target answered_at abort = ground arith

pub applied :
    {a : EventApplicability} → a ≡ EventApplicability.apply → ignored_applicability_status a ≡ none
unfolding ignored_applicability_status
applied h = ground arith

pub parties_kept :
    (call : Call) (target : CallState) (reason : Option String) (now : ℕ)
    → ((derive (advance target reason now call)).agent_id ≡ call.agent_id)
      × ((derive (advance target reason now call)).borrower_id ≡ call.borrower_id)
      × ((derive (advance target reason now call)).created_by_worker ≡ call.created_by_worker)
unfolding derive advance
parties_kept call target reason now = ground arith

pub abort_ends :
    (call : Call) (target : CallState) (reason : Option String) (now : ℕ)
    → is_abort target ≡ true
    → ((advance target reason now call).state ≡ target)
      × ((advance target reason now call).terminal ≡ true)
unfolding advance is_terminal
abort_ends call target reason now abort = ground arith

module _ (c : Collections) (settings : Settings) where
  pub moved :
      (s : c.calls.State) (now : ℕ) (call : Call) (target : CallState) (reason : Option String)
      → c.calls.find_one s call.id ≡ some call
      → can_advance target call ≡ true
      → let r = transition_call c.calls s now call.id target reason in
        (r.0 ≡ some (derive (advance target reason now call)))
        × (c.calls.find_one r.1 call.id ≡ some (advance target reason now call))
  unfolding transition_call
  moved s now call target reason here may =
      let (returned, stored) =
        update-hits c.calls s call.id (can_advance target) (advance target reason now) call
          (advance-id target reason now) here may in
      (ap (Option.map derive) returned, stored)

  -- The agent of an aborted call.
  pub freed_agent :
      (db : Db c) (now : ℕ) (call : Call) (target : CallState) (a : Agent)
      → is_abort target ≡ true
      → c.agents.find_one db.agents call.agent_id ≡ some a
      → contains a.state (AgentState.dialing ∷ AgentState.connected ∷ []) ≡ true
      → a.reserved_by ≡ some call.created_by_worker
      → (b : Agent) × (c.agents.find_one
            (apply_agent_transition c settings db now call target).agents
            call.agent_id
          ≡ some b)
        × (b.state ≡ AgentState.available)
        × (b.reserved_by ≡ none)
        × (b.lease_expires_at ≡ none)
        × (b.current_call_id ≡ none)
  unfolding apply_agent_transition move_agent
  freed_agent db now call target a abort here busy held =
      let frees = abort_frees target abort in
      let may = may_free call.created_by_worker a busy held in
      let (_, stored) =
        release_agent-hits c.agents db.agents now call.agent_id call.created_by_worker
          AgentState.available TransitionActor.event_processor a here may in
      (
        release (allowed_sources AgentState.available TransitionActor.event_processor)
            AgentState.available now a,
        rw (frees.0, here, apply_agent_transition, not_available a busy, frees.1, move_agent)
            (subst
              (λ i.
                c.agents.find_one
                  (release_agent c.agents db.agents now i call.created_by_worker
                    AgentState.available TransitionActor.event_processor).1
                  call.agent_id
                ≡ some (
                    release (allowed_sources AgentState.available TransitionActor.event_processor)
                      AgentState.available now a))
              (sym (c.agents.find_one_key db.agents call.agent_id a here)) stored),
        unfold release in refl,
        unfold release in refl,
        unfold release in refl,
        unfold release in refl,
      )

  -- The borrower of an aborted call.
  pub freed_borrower :
      (db : Db c) (now : ℕ) (call : Call) (target : CallState) (b : Borrower)
      → is_abort target ≡ true
      → c.borrowers.find_one db.borrowers call.borrower_id ≡ some b
      → contains b.status releasable_statuses ≡ true
      → b.reserved_by ≡ some call.created_by_worker
      → (d : Borrower) × (c.borrowers.find_one
            (release_call_borrower c settings db now call target).borrowers
            call.borrower_id
          ≡ some d)
        × (d.reserved_by ≡ none)
        × (d.attempt_count ≡ b.attempt_count + 1)
        × (d.status ≡ (
            if leb settings.max_call_attempts (b.attempt_count + 1)
            then BorrowerStatus.exhausted
            else BorrowerStatus.pending))
  unfolding release_call_borrower BorrowerRepo.release_borrower
  freed_borrower db now call target b abort here busy held =
      let retries = abort_retries target call.answered_at abort in
      let (_, stored) =
        update-hits c.borrowers db.borrowers call.borrower_id
          (BorrowerRepo.can_release call.created_by_worker)
          (BorrowerRepo.release BorrowerReleaseOutcome.retry now settings.max_call_attempts
            settings.retry_backoff_base_seconds)
          b (λ d. unfold BorrowerRepo.release in refl) here
          (unfold BorrowerRepo.can_release in rw (held, busy) (ground arith)) in
      (
        BorrowerRepo.release BorrowerReleaseOutcome.retry now settings.max_call_attempts
            settings.retry_backoff_base_seconds b,
        rw (retries, release_call_borrower) stored,
        unfold BorrowerRepo.release in refl,
        unfold BorrowerRepo.release in refl,
        unfold BorrowerRepo.release in refl,
      )

  pub agent_part :
      (db : Db c) (now : ℕ) (call : Call) (target : CallState)
      → ((apply_agent_transition c settings db now call target).borrowers ≡ db.borrowers)
        × ((apply_agent_transition c settings db now call target).calls ≡ db.calls)
  unfolding apply_agent_transition move_agent
  agent_part db now call target = ground arith
