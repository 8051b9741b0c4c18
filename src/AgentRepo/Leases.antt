-- ===== src/AgentRepo/Leases.antt =====
-- Every agent in a call has a lease, through which recovery gets it back.
use smart_dialerss.Prelude.{
  ℕ, ◌<◌, ◌≡◌, ◌≢◌, ◌∙◌, refl, Bool, true, false, List, [], ◌∷◌, none, some, arith, nat_eq,
  contains, is_some, All, Option-cases, inl, inr,
}
use smart_dialerss.Enums.{AgentState, agent_state_eq, agent_index_iff}
use smart_dialerss.AgentSm.{TransitionActor, validate_transition}
use smart_dialerss.Models.{Agent}
use smart_dialerss.AgentRepo.{
  AgentCollection, reserve, release, move, expire, can_expire, can_move,
  release_expired_agent_lease,
}
use smart_dialerss.AgentRepo.Writes.{
  Write, reserves, releases, transitions, binds, expires, beats, effect, run, run_invariant,
}

-- The states in which an agent is set aside for a call or takes one.
abbrev pub in_call : AgentState → Bool
in_call state =
    contains state (AgentState.reserved ∷ AgentState.dialing ∷ AgentState.connected ∷ [])

-- The program releases to AVAILABLE and WRAP_UP only, and reserves by `try_reserve_agent` only.
abbrev pub IsIssued : Write → Type 0
IsIssued (releases _ target _) = in_call target ≡ false
IsIssued (transitions _ target _ _) = target ≢ AgentState.reserved
IsIssued _ = Unit

abbrev pub IsLeased : Agent → Type 0
IsLeased a =
    in_call a.state ≡ true → (is_some a.reserved_by ≡ true) × (is_some a.lease_expires_at ≡ true)

-- Only a call goes on to a call state by `transition_agent`.
enters_call :
    (from_state target : AgentState) (actor : TransitionActor)
    → validate_transition from_state target actor ≡ none
    → target ≢ AgentState.reserved
    → in_call target ≡ true
    → in_call from_state ≡ true
unfolding validate_transition
enters_call from_state target actor valid fresh h = ground arith

transition-IsLeased :
    (now : ℕ) (from_state target : AgentState) (actor : TransitionActor) (version : ℕ) (a : Agent)
    → target ≢ AgentState.reserved
    → IsLeased a
    → IsLeased (effect now (transitions from_state target actor version) a)
unfolding effect move can_move
transition-IsLeased now from_state target actor version a fresh h =
    elim (Option-cases (validate_transition from_state target actor)) [
      | inr (error, refused) ↦ rw (refused, effect) h
      | inl valid ↦
          rw (valid, effect)
            (ground
              (arith, enters_call from_state target actor, agent_index_iff a.state from_state))
    ]

effect-IsLeased :
    (now : ℕ) (w : Write) (a : Agent) → IsIssued w → IsLeased a → IsLeased (effect now w a)
unfolding effect
effect-IsLeased now (reserves campaign_id worker_id ttl) a issued h = unfold reserve in ground arith
effect-IsLeased now (releases worker_id target actor) a issued h = unfold release in ground arith
effect-IsLeased now (transitions from_state target actor version) a issued h =
    transition-IsLeased now from_state target actor version a issued h
effect-IsLeased now (binds worker_id call_id) a issued h = ground arith
effect-IsLeased now (expires seen) a issued h = unfold expire in ground arith
effect-IsLeased now beats a issued h = h

All-IsLeased :
    (steps : List (ℕ × ℕ × Write))
    → All (λ st. IsIssued st.2) steps
    → All (λ st. (a : Agent) → IsLeased a → IsLeased (effect st.0 st.2 a)) steps
All-IsLeased [] issued = tt
All-IsLeased ((now, i, w) ∷ steps) issued =
    (λ a h. effect-IsLeased now w a issued.0 h, All-IsLeased steps issued.1)

can_expire_self :
    (a : Agent) (deadline now : ℕ)
    → a.lease_expires_at ≡ some deadline
    → deadline < now
    → can_expire a now a ≡ true
unfolding can_expire
can_expire_self a deadline now due late =
    rw due (ground (arith, (agent_index_iff a.state a.state).1 refl))

module _ (agents : AgentCollection) where
  open agents use {State, find_one, update_result}

  -- After any sequence of the program's writes, at any times and by any workers, an agent that is
  -- RESERVED, DIALING or CONNECTED has a holder and a lease, if this holds at the start.
  pub run-IsLeased :
      (s : State) (steps : List (ℕ × ℕ × Write))
      → All (λ st. IsIssued st.2) steps
      → ((j : ℕ) (a : Agent) → find_one s j ≡ some a → IsLeased a)
      → (j : ℕ) (a : Agent) → find_one (run agents s steps) j ≡ some a
      → IsLeased a
  run-IsLeased s steps issued start =
      run_invariant agents (λ _. IsLeased) s steps (All-IsLeased steps issued) start

  -- For a stored agent that is RESERVED, DIALING or CONNECTED with a holder and a lease, at any time after
  -- the end of the lease recovery's release of the expired lease, from the same state of the database,
  -- returns the agent AVAILABLE and without a holder.
  pub leased-recoverable :
      (s : State) (a : Agent)
      → find_one s a.id ≡ some a
      → IsLeased a
      → in_call a.state ≡ true
      → (deadline : ℕ) × (a.lease_expires_at ≡ some deadline)
        × ((now : ℕ)
            → deadline < now
            → (b : Agent) × ((release_expired_agent_lease agents s a now).0 ≡ some b)
              × (b.state ≡ AgentState.available)
              × (b.reserved_by ≡ none))
  unfolding release_expired_agent_lease
  leased-recoverable s a here leased busy = elim (Option-cases a.lease_expires_at) [
    | inl missing ↦ absurd (ground (arith, leased busy))
    | inr (t, due) ↦ (
      t,
      due,
      λ now late. (
        expire now a,
        update_result s a.id (can_expire a now) (expire now)
            ∙ rw here (rw (can_expire_self a t now due late)),
        unfold expire in refl,
        unfold expire in refl,
      ),
    )
  ]
