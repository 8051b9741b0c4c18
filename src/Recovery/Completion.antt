-- ===== src/Recovery/Completion.antt =====
-- The two sweeps that move agents through the state machine are never stopped by it.
use mathlib.Core.Option
use native.Mathlib.Nat.{le_trans}
use smart_dialerss.Prelude.{
  Bool, ℕ, suc, ◌+◌, ◌*◌, ◌≤◌, ◌≡◌, ◌≢◌, refl, ◌&&◌, List, [], ◌∷◌, Option, none, some, ◌!=◌, ◌==◌,
  arith, All, length, leb, ◌⊎◌, inl, inr, Bool-cases, nat_eq,
}
use smart_dialerss.Enums.{AgentState, agent_state_eq}
use smart_dialerss.AgentSm.{TransitionActor, validate_transition}
use smart_dialerss.Models.{Agent}
use smart_dialerss.Config.{Settings}
use smart_dialerss.AgentRepo.{
  find_heartbeat_expired, find_expired_wrap_ups, transition_agent, before, in_campaign,
}
use smart_dialerss.Database.{Collections, Db}
use smart_dialerss.Recovery.{
  ProviderCallStatus, run_sweeps, sweep_expired_agent_leases, sweep_expired_borrower_leases,
  sweep_orphaned_calls, seconds_before, tally, move_each, sweep_heartbeat_timeouts,
  sweep_stuck_wrap_ups, cancel_bound_call,
}

All-map :
    {A : Type 0} {P Q : A → Type 0} → ((a : A) → P a → Q a) → (xs : List A) → All P xs → All Q xs
All-map f [] h = tt
All-map f (x ∷ xs) h = (f x h.0, All-map f xs h.1)

online-may_leave :
    (state : AgentState)
    → state ≢ AgentState.offline
    → validate_transition state AgentState.offline TransitionActor.recovery ≡ none
unfolding validate_transition
online-may_leave state h = ground arith

module _ (c : Collections) (settings : Settings) where
  -- A sweep that returned, with a count of at most `n`
  abbrev pub Returns : ℕ → Option ℕ → Type 0
  Returns n o = (k : ℕ) × (o ≡ some k) × (k ≤ n)

  -- A count keeps to a limit, if there is one: the driver takes the limit 0 for none.
  abbrev pub KeepsTo : ℕ → ℕ → Type 0
  KeepsTo limit k = (limit ≡ 0) ⊎ (k ≤ limit)

  abbrev pub ReturnsWithin : ℕ → Option ℕ → Type 0
  ReturnsWithin limit o = (k : ℕ) × (o ≡ some k) × KeepsTo limit k

  within :
      (s : c.agents.State) (p : Agent → Bool) (limit : ℕ) (o : Option ℕ)
      → Returns (length (c.agents.find s p limit)) o
      → ReturnsWithin limit o
  within s p limit o (k, is, below) = elim (Bool-cases (limit == 0)) [
    | inl unlimited ↦ (k, is, inl (ground (arith, unlimited)))
    | inr limited ↦
        let bound = c.agents.find_limit s p limit (λ zero_limit. ground (arith, limited)) in
        (k, is, inr (le_trans below bound))
  ]

  tally-Returns :
      (r : Option Agent) (n : ℕ) (o : Option ℕ)
      → Returns n o
      → Returns (suc n) (Option.map (tally r) o)
  tally-Returns none n o (k, is, below) = (k, rw is refl, omega arith)
  tally-Returns (some a) n o (k, is, below) = (suc k, rw is refl, omega arith)

  move_each-Returns :
      (act : Agent → Db c → Db c) (from_state : Agent → AgentState) (to_state : AgentState)
      (later : ℕ) (agents : List Agent)
      → All
          (λ a. validate_transition (from_state a) to_state TransitionActor.recovery ≡ none)
          agents
      → (db : Db c)
      → Returns (length agents) (move_each c settings act from_state to_state db later agents).0
  unfolding move_each transition_agent
  move_each-Returns act from_state to_state later [] valid db = (0, refl, omega arith)
  move_each-Returns act from_state to_state later (a ∷ agents) valid db =
      rw (valid.0, move_each, transition_agent)
        (tally-Returns _ (length agents) _
          (move_each-Returns act from_state to_state later agents valid.1 _))

  -- For every database, the sweep of lost heartbeats returns a count, of at most its limit unless that is 0: the state
  -- machine lets recovery take each agent that the sweep finds OFFLINE.
  pub sweep_heartbeat_timeouts-Returns :
      (db : Db c) (now later limit : ℕ)
      → ReturnsWithin limit (sweep_heartbeat_timeouts c settings db now later limit).0
  unfolding sweep_heartbeat_timeouts find_heartbeat_expired
  sweep_heartbeat_timeouts-Returns db now later limit =
      let cutoff = seconds_before now settings.agent_heartbeat_timeout_seconds in
      let p = λ (a : Agent). a.state != AgentState.offline && before a.last_heartbeat_at cutoff in
      let found = c.agents.find db.agents p limit in
      within db.agents p limit _ (
        move_each-Returns
          (λ agent d. cancel_bound_call c settings d later "agent_disappeared" agent) (λ a. a.state)
          AgentState.offline later found
          (All-map (λ a h. online-may_leave a.state (λ off. ground (arith, h.0, off))) found
            (c.agents.find_members db.agents p limit))
          db)

  -- For every database, the sweep of wrap-ups returns a count, of at most its limit unless that is 0.
  pub sweep_stuck_wrap_ups-Returns :
      (db : Db c) (now later limit : ℕ)
      → ReturnsWithin limit (sweep_stuck_wrap_ups c settings db now later limit).0
  unfolding sweep_stuck_wrap_ups find_expired_wrap_ups validate_transition
  sweep_stuck_wrap_ups-Returns db now later limit =
      let cutoff = seconds_before now (settings.wrap_up_seconds + settings.wrap_up_seconds * 2) in
      let p = λ (a : Agent).
        a.state == AgentState.wrap_up && leb a.state_changed_at cutoff && in_campaign none a in
      let found = c.agents.find db.agents p limit in
      within db.agents p limit _ (
        move_each-Returns (λ agent d. d) (λ a. AgentState.wrap_up) AgentState.available later found
          (All-map (λ a h. refl) found (c.agents.find_members db.agents p limit)) db)

  -- For every database and every answer of the provider, the run of all sweeps records no error, and
  -- takes at most RECOVERY_SWEEP_LIMIT agents OFFLINE and out of WRAP_UP each, unless that limit is 0, which
  -- the driver takes for no limit.
  pub run_sweeps-errors :
      (status : ℕ → ℕ → Option ProviderCallStatus) (db : Db c) (now : ℕ) (clock : ℕ → ℕ)
      → let counts = (run_sweeps c settings status db now clock).0 in
        (counts.errors ≡ [])
        × KeepsTo settings.recovery_sweep_limit counts.heartbeat_timeouts
        × KeepsTo settings.recovery_sweep_limit counts.stuck_wrap_ups
  unfolding run_sweeps
  run_sweeps-errors status db now clock =
      let limit = settings.recovery_sweep_limit in
      let leases = sweep_expired_agent_leases c settings db now (clock 0) limit in
      let borrowers = sweep_expired_borrower_leases c settings leases.1 now limit in
      let orphans = sweep_orphaned_calls c settings status borrowers.1 now (clock 2) limit in
      let timeouts = sweep_heartbeat_timeouts c settings orphans.1 now (clock 3) limit in
      let (k, is, below) = sweep_heartbeat_timeouts-Returns orphans.1 now (clock 3) limit in
      let (k', is', below') = sweep_stuck_wrap_ups-Returns timeouts.1 now (clock 4) limit in
      rw (is, is', run_sweeps) (refl, below, below')
