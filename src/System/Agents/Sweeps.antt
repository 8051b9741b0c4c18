-- ===== src/System/Agents/Sweeps.antt =====
-- What recovery and the release of finished wrap-ups do to the agents.
use Prim.Native.String.{String}
use smart_dialerss.Prelude.{
  ℕ, suc, ◌≡◌, ◌≢◌, refl, arith, false, List, [], ◌∷◌, Option, none, some, Option-cases, Bool-cases,
  inl, inr, ◌==◌, if◌then◌else◌, ◌*◌, ◌+◌,
}
use smart_dialerss.Enums.{AgentState, CallState, call_state_eq}
use smart_dialerss.AgentSm.{TransitionActor, validate_transition}
use smart_dialerss.Models.{Agent, Call}
use smart_dialerss.Config.{Settings}
use smart_dialerss.AgentRepo.{
  AgentCollection, find_expired_agent_leases, release_expired_agent_lease, find_heartbeat_expired,
  find_expired_wrap_ups, transition_agent, can_move, move,
}
use smart_dialerss.AgentRepo.Leases.{in_call}
use smart_dialerss.AgentRepo.Reach.{
  Reaches, Reaches-refl, Reaches-trans, Reaches-eq, release-Reaches, expire-Reaches, move-Reaches,
}
use smart_dialerss.CallRepo.{find_by_id, find_stale_calls, transition_call}
use smart_dialerss.Database.{Collections, Db}
use smart_dialerss.Recovery.{
  ProviderCallStatus, reconcile_with_provider, release_lost_borrower, release_parties, cancel_call,
  cancel_bound_call, sweep_leases, sweep_expired_agent_leases, sweep_expired_borrower_leases,
  sweep_calls, sweep_orphaned_calls, move_each, sweep_heartbeat_timeouts, sweep_stuck_wrap_ups,
  run_sweeps, seconds_before,
}
use smart_dialerss.Worker.{release_each}

pub available_out : in_call AgentState.available ≡ false
available_out = refl

offline_fresh : AgentState.offline ≢ AgentState.reserved
offline_fresh = ground arith

available_fresh : AgentState.available ≢ AgentState.reserved
available_fresh = ground arith

module _ (agents : AgentCollection) where
  pub release_each-Reaches :
      (found : List Agent) (s : agents.State) (clock : ℕ → ℕ)
      → Reaches agents s (release_each agents s clock found)
  unfolding release_each transition_agent
  release_each-Reaches [] s clock = Reaches-refl agents s
  release_each-Reaches (agent ∷ found) s clock =
      elim (Option-cases (
        validate_transition AgentState.wrap_up AgentState.available TransitionActor.worker_timer)) [
          | inr (error, bad) ↦ rw (bad, transition_agent, release_each) (Reaches-refl agents s)
          | inl good ↦
              rw (good, transition_agent, release_each)
                (Reaches-trans agents
                  (move-Reaches agents s (clock 0) agent.id AgentState.wrap_up AgentState.available
                    TransitionActor.worker_timer agent.state_version available_fresh good)
                  (release_each-Reaches found _ (λ k. clock (suc k))))
        ]

module _ (c : Collections) (settings : Settings) where
  cancel_call-agents :
      (db : Db c) (later : ℕ) (reason : String) (call : Call)
      → (cancel_call c settings db later reason call).agents ≡ db.agents
  unfolding cancel_call release_lost_borrower
  cancel_call-agents db later reason call =
      let r = transition_call c.calls db.calls later call.id CallState.cancelled (some reason) in
      elim (Bool-cases call.terminal) [
        | inl over ↦ rw (over, cancel_call) refl
        | inr alive ↦ elim (Option-cases r.0) [
          | inl lost ↦ rw (alive, lost, cancel_call) refl
          | inr (k, won) ↦ rw (alive, won, cancel_call) refl
        ]
      ]

  cancel_bound_call-agents :
      (db : Db c) (later : ℕ) (reason : String) (agent : Agent)
      → (cancel_bound_call c settings db later reason agent).agents ≡ db.agents
  unfolding cancel_bound_call
  cancel_bound_call-agents db later reason agent = elim (Option-cases agent.current_call_id) [
    | inl free ↦ rw (free, cancel_bound_call) refl
    | inr (call_id, bound) ↦ elim (Option-cases (find_by_id c.calls db.calls call_id)) [
      | inl gone ↦ rw (bound, gone, cancel_bound_call) refl
      | inr (call, found) ↦
          rw (bound, found, cancel_bound_call) (cancel_call-agents db later reason call)
    ]
  ]

  sweep_leases-Reaches :
      (found : List Agent) (db : Db c) (now later : ℕ)
      → Reaches c.agents db.agents (sweep_leases c settings db now later found).1.agents
  unfolding sweep_leases
  sweep_leases-Reaches [] db now later = Reaches-refl c.agents db.agents
  sweep_leases-Reaches (agent ∷ found) db now later =
      let db' = cancel_bound_call c settings db later "agent_lease_expired" agent in
      let s' = (release_expired_agent_lease c.agents db'.agents agent now).1 in
      Reaches-trans c.agents
        (Reaches-eq c.agents (cancel_bound_call-agents db later "agent_lease_expired" agent))
        (Reaches-trans c.agents (expire-Reaches c.agents db'.agents agent now)
          (sweep_leases-Reaches found (record db' { agents = s' }) now later))

  after_finish : Db c → ℕ → Option Call → Db c
  after_finish db later none = db
  after_finish db later (some k) = release_parties c settings db later k

  after_finish-Reaches :
      (db : Db c) (later : ℕ) (k : Option Call)
      → Reaches c.agents db.agents (after_finish db later k).agents
  unfolding after_finish release_parties release_lost_borrower
  after_finish-Reaches db later none = Reaches-refl c.agents db.agents
  after_finish-Reaches db later (some k) =
      release-Reaches c.agents db.agents later k.agent_id k.created_by_worker AgentState.available
        TransitionActor.recovery available_out

  sweep_calls-Reaches :
      (status : ℕ → ℕ → Option ProviderCallStatus) (stale : List Call) (db : Db c) (later : ℕ)
      → Reaches c.agents db.agents (sweep_calls c settings status db later stale).1.agents
  unfolding sweep_calls after_finish
  sweep_calls-Reaches status [] db later = Reaches-refl c.agents db.agents
  sweep_calls-Reaches status (call ∷ stale) db later =
      let target = reconcile_with_provider status call in
      let reason = if target == CallState.failed then some "orphaned" else none in
      let r = transition_call c.calls db.calls later call.id target reason in
      let db' : Db c = record db { calls = r.1 } in
      Reaches-trans c.agents (after_finish-Reaches db' later r.0)
        (sweep_calls-Reaches status stale (after_finish db' later r.0) later)

  move_each-Reaches :
      (before : Agent → Db c → Db c) (from_state : Agent → AgentState) (to_state : AgentState)
      → (to_state ≢ AgentState.reserved)
      → ((agent : Agent) (db : Db c) → Reaches c.agents db.agents (before agent db).agents)
      → (agents : List Agent) (db : Db c) (later : ℕ)
      → Reaches c.agents db.agents
          (move_each c settings before from_state to_state db later agents).1.agents
  unfolding move_each transition_agent
  move_each-Reaches before from_state to_state fresh keeps [] db later =
      Reaches-refl c.agents db.agents
  move_each-Reaches before from_state to_state fresh keeps (agent ∷ agents) db later =
      let db' = before agent db in
      elim (Option-cases
        (validate_transition (from_state agent) to_state TransitionActor.recovery)) [
          | inr (error, bad) ↦ rw (bad, transition_agent, move_each) (keeps agent db)
          | inl good ↦
              rw (good, transition_agent, move_each)
                (Reaches-trans c.agents (keeps agent db) (
                  Reaches-trans c.agents
                    (move-Reaches c.agents db'.agents later agent.id (from_state agent) to_state
                      TransitionActor.recovery agent.state_version fresh good)
                    (move_each-Reaches before from_state to_state fresh keeps agents
                      (record db' {
                        agents =
                            (c.agents.find_one_and_update db'.agents agent.id
                              (can_move (from_state agent) agent.state_version)
                              (move (from_state agent) to_state later)).1;
                      })
                      later)))
        ]

  pub run_sweeps-Reaches :
      (status : ℕ → ℕ → Option ProviderCallStatus) (db : Db c) (now : ℕ) (clock : ℕ → ℕ)
      → Reaches c.agents db.agents (run_sweeps c settings status db now clock).1.agents
  unfolding run_sweeps sweep_expired_agent_leases sweep_expired_borrower_leases sweep_orphaned_calls
      sweep_heartbeat_timeouts sweep_stuck_wrap_ups
  run_sweeps-Reaches status db now clock =
      let limit = settings.recovery_sweep_limit in
      let leases = sweep_expired_agent_leases c settings db now (clock 0) limit in
      let borrowers = sweep_expired_borrower_leases c settings leases.1 now limit in
      let orphans = sweep_orphaned_calls c settings status borrowers.1 now (clock 2) limit in
      let timeouts = sweep_heartbeat_timeouts c settings orphans.1 now (clock 3) limit in
      Reaches-trans c.agents
        (sweep_leases-Reaches (find_expired_agent_leases c.agents db.agents now limit) db now
          (clock 0))
        (Reaches-trans c.agents
          (sweep_calls-Reaches status
            (find_stale_calls c.calls borrowers.1.calls
              (seconds_before now settings.call_stale_timeout_seconds) limit)
            borrowers.1 (clock 2))
          (Reaches-trans c.agents
            (move_each-Reaches
              (λ agent d. cancel_bound_call c settings d (clock 3) "agent_disappeared" agent)
              (λ agent. agent.state) AgentState.offline offline_fresh
              (λ agent d.
                Reaches-eq c.agents
                  (cancel_bound_call-agents d (clock 3) "agent_disappeared" agent))
              (find_heartbeat_expired c.agents orphans.1.agents
                (seconds_before now settings.agent_heartbeat_timeout_seconds) limit)
              orphans.1 (clock 3))
            (move_each-Reaches (λ agent d. d) (λ agent. AgentState.wrap_up) AgentState.available
              available_fresh (λ agent d. Reaches-refl c.agents d.agents)
              (find_expired_wrap_ups c.agents timeouts.1.agents
                (seconds_before now (settings.wrap_up_seconds + settings.wrap_up_seconds * 2)) limit
                none)
              timeouts.1 (clock 4))))
