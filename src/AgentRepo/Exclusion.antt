-- ===== src/AgentRepo/Exclusion.antt =====
-- Who wins a race: the reservation of an agent is exclusive until its holder, its deadline or the
-- agent's departure ends it, and of two transitions from one reading only the first takes effect.
use smart_dialerss.Prelude.{
  ℕ, ◌+◌, ◌≤◌, ◌≡◌, ◌≢◌, ◌∙◌, refl, sym, ap, true, List, [], ◌∷◌, none, some, arith, nat_eq, All,
  Option-cases, inl, inr,
}
use smart_dialerss.Enums.{AgentState, agent_state_eq}
use smart_dialerss.AgentSm.{
  TransitionActor, StateMachineError, returns, raises, validate_transition,
}
use mathlib.Core.Path.{subst}
use mathlib.Core.Option.{some-injective}
use smart_dialerss.Store.Laws.{update-unmatched, update-won, update-lost, update-found}
use smart_dialerss.Models.{Agent, seconds}
use smart_dialerss.AgentRepo.{
  AgentCollection, reserve, move, can_reserve, can_release, can_expire, can_move, try_reserve_agent,
  transition_agent,
}
use smart_dialerss.AgentRepo.Writes.{
  Write, reserves, releases, transitions, binds, expires, beats, effect, run, run_invariant,
}
use smart_dialerss.AgentRepo.Leases.{in_call}

-- The agent is set aside by the worker, and its lease ends at the deadline.
pub record IsHeld (worker_id deadline : ℕ) (a : Agent) : Type 0 where
  pub set_aside : in_call a.state ≡ true
  pub holder : a.reserved_by ≡ some worker_id
  pub ends : a.lease_expires_at ≡ some deadline

-- A write that does not end the reservation: a release by another worker, an expiry that is not yet
-- due, a transition to a call state (none to AVAILABLE, OFFLINE, WRAP_UP or PAUSED), or any other.
abbrev pub Spares : ℕ → ℕ → ℕ → Write → Type 0
Spares worker_id deadline now (releases other _ _) = other ≢ worker_id
Spares worker_id deadline now (expires _) = now ≤ deadline
Spares worker_id deadline now (transitions _ target _ _) = in_call target ≡ true
Spares worker_id deadline now _ = Unit

effect-IsHeld :
    (worker_id deadline now : ℕ) (w : Write) (a : Agent)
    → Spares worker_id deadline now w
    → IsHeld worker_id deadline a
    → IsHeld worker_id deadline (effect now w a)
unfolding effect
effect-IsHeld worker_id deadline now (reserves campaign_id other ttl) a spares h =
    unfold can_reserve reserve in ground arith
effect-IsHeld worker_id deadline now (releases other target actor) a spares h =
    unfold can_release in rw (h.holder) (ground arith)
effect-IsHeld worker_id deadline now (transitions from_state target actor version) a spares h =
    elim (Option-cases (validate_transition from_state target actor)) [
      | inr (error, refused) ↦ rw (refused, effect) h
      | inl valid ↦ rw (valid, effect) (unfold move in ground arith)
    ]
effect-IsHeld worker_id deadline now (binds other call_id) a spares h = ground arith
effect-IsHeld worker_id deadline now (expires seen) a spares h = unfold can_expire in ground arith
effect-IsHeld worker_id deadline now beats a spares h = ground arith

All-IsHeld :
    (i worker_id deadline : ℕ) (steps : List (ℕ × ℕ × Write))
    → All (λ st. st.1 ≡ i → Spares worker_id deadline st.0 st.2) steps
    → All
        (λ st.
          (a : Agent)
          → (st.1 ≡ i → IsHeld worker_id deadline a)
          → st.1 ≡ i
          → IsHeld worker_id deadline (effect st.0 st.2 a))
        steps
All-IsHeld i worker_id deadline [] spares = tt
All-IsHeld i worker_id deadline ((now, k, w) ∷ steps) spares = (
  λ a held same. effect-IsHeld worker_id deadline now w a (spares.0 same) (held same),
  All-IsHeld i worker_id deadline steps spares.1,
)

returns-injective : {A : Type 0} {x y : A} → returns x ≡ returns y → x ≡ y
returns-injective h = cc

raises-ne-returns : {A : Type 0} {x : A} {error : StateMachineError} → raises error ≡ returns x → ⊥
raises-ne-returns h = cc

pair_of_first : {A B : Type 0} (r : A × B) (x : A) → r.0 ≡ x → r ≡ (x, r.1)
pair_of_first r x h = λ i. (h i, r.1)

module _ (agents : AgentCollection) where
  open agents use {State, find_one, update_result, update_stored}

  reserved-IsHeld :
      (s : State) (now campaign_id i worker_id ttl : ℕ) (a : Agent)
      → (try_reserve_agent agents s now campaign_id i worker_id ttl).0 ≡ some a
      → (j : ℕ) (b : Agent)
      → find_one (try_reserve_agent agents s now campaign_id i worker_id ttl).1 j ≡ some b
      → j ≡ i
      → IsHeld worker_id (now + seconds ttl) b
  unfolding try_reserve_agent
  reserved-IsHeld s now campaign_id i worker_id ttl a won j b found same =
      let (c, here, passes, is) = update-won agents s i _ _ a won in
      let stored = update-found agents s i _ _ (λ d. refl) a won in
      let b-is : b ≡ a = some-injective _ _ (sym found ∙ rw same stored) in
      rw (b-is, is) (record { set_aside = refl; holder = refl; ends = refl })

  refused :
      (s : State) (now campaign_id i worker_id ttl : ℕ)
      → ((b : Agent) → find_one s i ≡ some b → in_call b.state ≡ true)
      → (try_reserve_agent agents s now campaign_id i worker_id ttl).0 ≡ none
  unfolding try_reserve_agent can_reserve
  refused s now campaign_id i worker_id ttl busy =
      update-lost agents s i _ _ (λ b found. ground (arith, busy b found))

  -- If a worker's reservation of an agent succeeds, then after any sequence of writes in which none on
  -- that agent ends the reservation, every further attempt to reserve the agent is refused.
  pub reserve-excludes :
      (s : State) (now campaign_id i worker_id ttl : ℕ) (a : Agent)
      → (try_reserve_agent agents s now campaign_id i worker_id ttl).0 ≡ some a
      → (steps : List (ℕ × ℕ × Write))
      → All (λ st. st.1 ≡ i → Spares worker_id (now + seconds ttl) st.0 st.2) steps
      → (later campaign' worker' ttl' : ℕ)
      → let s' = run agents (try_reserve_agent agents s now campaign_id i worker_id ttl).1 steps in
        (try_reserve_agent agents s' later campaign' i worker' ttl').0 ≡ none
  reserve-excludes s now campaign_id i worker_id ttl a won steps spares later campaign' worker'
        ttl' =
      refused _ later campaign' i worker' ttl' λ b found.
        (run_invariant agents (λ k c. k ≡ i → IsHeld worker_id (now + seconds ttl) c) _ steps
          (All-IsHeld i worker_id (now + seconds ttl) steps spares)
          (reserved-IsHeld s now campaign_id i worker_id ttl a won) i b found refl).set_aside

  stale :
      (s s' : State) (now later i version : ℕ) (source target source' target' : AgentState)
      (a : Agent)
      → agents.find_one_and_update s i (can_move source version) (move source target now)
        ≡ (some a, s')
      → (agents.find_one_and_update s' i (can_move source' version) (move source' target' later)).0
        ≡ none
  unfolding move can_move
  stale s s' now later i version source target source' target' a won =
      let (c, here, passes, is) = update-won agents s i _ _ a (ap (λ r. r.0) won) in
      let stored : find_one s' i ≡ some a =
        subst (λ t. find_one t i ≡ some a) (ap (λ r. r.1) won)
          (update-found agents s i _ _ (λ d. refl) a (ap (λ r. r.0) won)) in
      update-lost agents s' i _ _
        λ b found. ground (arith, stored, found, is, some-injective a b (sym stored ∙ found))

  -- Of two transitions from one reading of an agent, the second, if the state machine lets it through,
  -- returns None and leaves every agent as it is once the first has taken effect.
  pub transition-once :
      (s s' : State) (now later i version : ℕ) (source target source' target' : AgentState)
      (actor actor' : TransitionActor) (a : Agent)
      → transition_agent agents s now i source target actor version ≡ returns (some a, s')
      → validate_transition source' target' actor' ≡ none
      → (s'' : State) × (transition_agent agents s' later i source' target' actor' version
          ≡ returns (none, s''))
        × ((j : ℕ) → find_one s'' j ≡ find_one s' j)
  unfolding transition_agent
  transition-once s s' now later i version source target source' target' actor actor' a won valid =
      elim (Option-cases (validate_transition source target actor)) [
        | inr (error, refuses) ↦ absurd (raises-ne-returns (rw (refuses, transition_agent) at won))
        | inl goes ↦
            let first = returns-injective (rw (goes, transition_agent) at won) in
            (
              (agents.find_one_and_update s' i (can_move source' version)
                  (move source' target' later)).1,
              rw (valid, transition_agent)
                  (ap returns (
                    pair_of_first _ _
                      (stale s s' now later i version source target source' target' a first))),
              update-unmatched agents s' i (can_move source' version) (move source' target' later)
                  (λ d. unfold move in refl)
                  (stale s s' now later i version source target source' target' a first),
            )
      ]
