-- ===== src/Recovery.antt =====
-- app/workers/recovery_worker.py: the five sweeps. The driver and the services raise nothing here, so
-- that only the state machine can end a sweep; an agent is read just before it is moved, by the same state
-- machine, so that a transition that the machine refuses ends its sweep there. `now` is the time at
-- which the sweeps begin, and `later` that of the writes. The background task and logging are left out.
pub mod Completion
use mathlib.Core.Option
use smart_dialerss.Prelude.{
  ℕ, suc, ◌+◌, ◌*◌, ◌-◌, Bool, true, false, List, [], ◌∷◌, ◌++◌, Option, none, some, Eq, ◌==◌,
  is_some, length, if◌then◌else◌,
}
use Prim.Native.String.{String}
use smart_dialerss.Enums.{AgentState, CallState, call_state_eq}
use smart_dialerss.AgentSm.{TransitionActor, returns, raises}
use smart_dialerss.Models.{Agent, Call, seconds}
use smart_dialerss.Config.{Settings}
use smart_dialerss.AgentRepo.{
  find_expired_agent_leases, release_expired_agent_lease, find_heartbeat_expired,
  find_expired_wrap_ups, transition_agent, release_agent,
}
use smart_dialerss.BorrowerRepo.{reclaim_expired_borrower_leases, release_borrower}
use smart_dialerss.CallRepo.{find_by_id, find_stale_calls, transition_call}
use smart_dialerss.Database.{Collections, Db}
use smart_dialerss.EventProcessor.{outcome_for_terminal_call}

-- ProviderCallStatus of app/providers/base.py
pub data ProviderCallStatus : Type 0 where
  active completed failed unknown : ProviderCallStatus

-- PROVIDER_STATUS_TO_CALL_STATE.get(status, FAILED)
unfoldable pub call_state_of_status : ProviderCallStatus → CallState
call_state_of_status ProviderCallStatus.completed = CallState.completed
call_state_of_status _ = CallState.failed

-- The provider is a parameter: the status that it reports for the id of a call, or none for a
-- ProviderError.
unfoldable pub reconcile_with_provider : (ℕ → ℕ → Option ProviderCallStatus) → Call → CallState
unfolding call_state_of_status
reconcile_with_provider status call = elim call.provider_call_id [
  | none ↦ CallState.failed
  | some pid ↦ elim (status call.provider_name pid) [
    | none ↦ CallState.failed
    | some s ↦ call_state_of_status s
  ]
]

pub record RecoverySweepCounts : Type 0 where
  pub expired_agent_leases : ℕ
  pub expired_borrower_leases : ℕ
  pub orphaned_calls : ℕ
  pub heartbeat_timeouts : ℕ
  pub stuck_wrap_ups : ℕ
  pub errors : List String

abbrev pub seconds_before : ℕ → ℕ → ℕ
seconds_before now n = now - seconds n

-- One more, if something was done
abbrev pub tally {ℓ} : {A : Type ℓ} → Option A → ℕ → ℕ
tally none n = n
tally (some _) n = suc n

module _ (c : Collections) (settings : Settings) where
  -- `_release_borrower`
  unfoldable pub release_lost_borrower : Db c → ℕ → Call → Db c
  unfolding outcome_for_terminal_call
  release_lost_borrower db later call = record db {
    borrowers =
        (release_borrower c.borrowers db.borrowers later call.borrower_id call.created_by_worker
          (outcome_for_terminal_call false) settings.max_call_attempts
          settings.retry_backoff_base_seconds).1;
  }

  unfoldable pub release_parties : Db c → ℕ → Call → Db c
  unfolding release_lost_borrower
  release_parties db later call =
      let agents' =
        (release_agent c.agents db.agents later call.agent_id call.created_by_worker
          AgentState.available TransitionActor.recovery).1 in
      release_lost_borrower (record db { agents = agents' }) later call

  -- `_cancel_bound_call` for a call that was found
  unfoldable pub cancel_call : Db c → ℕ → String → Call → Db c
  unfolding release_lost_borrower
  cancel_call db later reason call =
      let (cancelled, calls') =
        transition_call c.calls db.calls later call.id CallState.cancelled (some reason) in
      let db' : Db c = record db { calls = calls' } in
      if call.terminal
      then db
      else elim cancelled [ none ↦ db' | some k ↦ release_lost_borrower db' later k ]

  unfoldable pub cancel_bound_call : Db c → ℕ → String → Agent → Db c
  unfolding cancel_call
  cancel_bound_call db later reason agent = elim agent.current_call_id [
    | none ↦ db
    | some call_id ↦ elim (find_by_id c.calls db.calls call_id) [
      | none ↦ db
      | some call ↦ cancel_call db later reason call
    ]
  ]

  unfoldable pub sweep_leases : Db c → ℕ → ℕ → List Agent → ℕ × Db c
  unfolding cancel_bound_call
  sweep_leases db now later [] = (0, db)
  sweep_leases db now later (agent ∷ agents) =
      let db' = cancel_bound_call db later "agent_lease_expired" agent in
      let (released, agents') = release_expired_agent_lease c.agents db'.agents agent now in
      let (n, db'') = sweep_leases (record db' { agents = agents' }) now later agents in
      (tally released n, db'')

  unfoldable pub sweep_expired_agent_leases : Db c → ℕ → ℕ → ℕ → ℕ × Db c
  unfolding sweep_leases
  sweep_expired_agent_leases db now later limit =
      sweep_leases db now later (find_expired_agent_leases c.agents db.agents now limit)

  unfoldable pub sweep_expired_borrower_leases : Db c → ℕ → ℕ → ℕ × Db c
  sweep_expired_borrower_leases db now limit =
      let (reclaimed, borrowers') =
        reclaim_expired_borrower_leases c.borrowers db.borrowers now limit in
      (length reclaimed, record db { borrowers = borrowers' })

  unfoldable pub sweep_calls : (ℕ → ℕ → Option ProviderCallStatus) → Db c → ℕ → List Call → ℕ × Db c
  unfolding reconcile_with_provider release_parties
  sweep_calls status db later [] = (0, db)
  sweep_calls status db later (call ∷ calls) =
      let target_state = reconcile_with_provider status call in
      let (finished, calls') =
        transition_call c.calls db.calls later call.id target_state
          (if target_state == CallState.failed then some "orphaned" else none) in
      let db' : Db c = record db { calls = calls' } in
      let (n, db'') =
        sweep_calls status (elim finished [ none ↦ db' | some k ↦ release_parties db' later k ])
          later calls in
      (tally finished n, db'')

  unfoldable pub sweep_orphaned_calls :
      (ℕ → ℕ → Option ProviderCallStatus) → Db c → ℕ → ℕ → ℕ → ℕ × Db c
  unfolding sweep_calls
  sweep_orphaned_calls status db now later limit = sweep_calls status db later (
      find_stale_calls c.calls db.calls (seconds_before now settings.call_stale_timeout_seconds)
        limit)

  -- The counts of the two sweeps that move agents by `transition_agent`, whose exception ends the sweep:
  -- none stands for it.
  unfoldable pub move_each :
      (Agent → Db c → Db c)
      → (Agent → AgentState)
      → AgentState
      → Db c
      → ℕ
      → List Agent
      → Option ℕ × Db c
  move_each before from_state to_state db later [] = (some 0, db)
  move_each before from_state to_state db later (agent ∷ agents) =
      let db' = before agent db in
      elim (transition_agent c.agents db'.agents later agent.id (from_state agent) to_state
        TransitionActor.recovery agent.state_version) [
          | raises error ↦ (none, db')
          | returns r ↦
              let (n, db'') =
                move_each before from_state to_state (record db' { agents = r.1 }) later agents in
              (Option.map (tally r.0) n, db'')
        ]

  unfoldable pub sweep_heartbeat_timeouts : Db c → ℕ → ℕ → ℕ → Option ℕ × Db c
  unfolding move_each
  sweep_heartbeat_timeouts db now later limit =
      move_each (λ agent d. cancel_bound_call d later "agent_disappeared" agent)
        (λ agent. agent.state) AgentState.offline db later
        (find_heartbeat_expired c.agents db.agents
          (seconds_before now settings.agent_heartbeat_timeout_seconds) limit)

  unfoldable pub sweep_stuck_wrap_ups : Db c → ℕ → ℕ → ℕ → Option ℕ × Db c
  unfolding move_each
  sweep_stuck_wrap_ups db now later limit =
      let grace = settings.wrap_up_seconds * 2 in
      move_each (λ agent d. d) (λ agent. AgentState.wrap_up) AgentState.available db later
        (find_expired_wrap_ups c.agents db.agents
          (seconds_before now (settings.wrap_up_seconds + grace)) limit none)

  -- The count of a sweep, and its name among the errors if it raised
  abbrev pub count_or_zero : Option ℕ → ℕ
  count_or_zero none = 0
  count_or_zero (some n) = n

  abbrev pub error_of : String → Option ℕ → List String
  error_of name none = name ∷ []
  error_of name (some n) = []

  -- `clock n` is the time of the writes of the n-th sweep.
  unfoldable pub run_sweeps :
      (ℕ → ℕ → Option ProviderCallStatus) → Db c → ℕ → (ℕ → ℕ) → RecoverySweepCounts × Db c
  unfolding sweep_expired_agent_leases sweep_expired_borrower_leases sweep_orphaned_calls
      sweep_heartbeat_timeouts sweep_stuck_wrap_ups
  run_sweeps status db now clock =
      let limit = settings.recovery_sweep_limit in
      let leases = sweep_expired_agent_leases db now (clock 0) limit in
      let borrowers = sweep_expired_borrower_leases leases.1 now limit in
      let orphans = sweep_orphaned_calls status borrowers.1 now (clock 2) limit in
      let timeouts = sweep_heartbeat_timeouts orphans.1 now (clock 3) limit in
      let wrap_ups = sweep_stuck_wrap_ups timeouts.1 now (clock 4) limit in
      (
        record {
          expired_agent_leases = leases.0;
          expired_borrower_leases = borrowers.0;
          orphaned_calls = orphans.0;
          heartbeat_timeouts = count_or_zero timeouts.0;
          stuck_wrap_ups = count_or_zero wrap_ups.0;
          errors = error_of "heartbeat_timeouts" timeouts.0 ++ error_of "stuck_wrap_ups" wrap_ups.0;
        },
        wrap_ups.1,
      )
