-- ===== src/AgentRepo/Writes.antt =====
-- Each method of app/repositories/agent_repo.py is one atomic write, so what several workers and
-- recovery do to the agents is a sequence of writes; here each write, and what it does to an agent.
use mathlib.Core.Option
use mathlib.Core.Option.{some-injective}
use mathlib.Core.Path.{subst, fun_ext}
use smart_dialerss.Prelude.{
  ap, sym, ◌∙◌, ℕ, ◌≡◌, refl, Bool, true, false, List, [], ◌∷◌, Option, none, some, arith, nat_eq,
  nat_beq, nat_beq_iff, is_empty, if◌then◌else◌, All, Bool-cases, Option-cases, inl, inr,
}
use smart_dialerss.Enums.{AgentState, agent_state_eq}
use smart_dialerss.AgentSm.{
  TransitionActor, Outcome, returns, raises, validate_transition, allowed_sources,
}
use smart_dialerss.Models.{Agent}
use smart_dialerss.AgentRepo.{
  AgentCollection, can_reserve, reserve, can_release, release, can_move, move, can_expire, expire,
  holds, try_reserve_agent, release_agent, transition_agent, bind_call, release_expired_agent_lease,
  heartbeat,
}

-- The writes that the program makes on an agent, with the arguments of the repository's methods.
pub data Write : Type 0 where
  reserves : ℕ → ℕ → ℕ → Write
  releases : ℕ → AgentState → TransitionActor → Write
  transitions : AgentState → AgentState → TransitionActor → ℕ → Write
  binds : ℕ → ℕ → Write
  expires : Agent → Write
  beats : Write

-- What a write does to the agent that it names.
unfoldable pub effect : ℕ → Write → Agent → Agent
effect now (reserves campaign_id worker_id ttl) a =
    if can_reserve campaign_id a then reserve worker_id ttl now a else a
effect now (releases worker_id target actor) a =
    let sources = allowed_sources target actor in
    if can_release worker_id sources a then release sources target now a else a
effect now (transitions from_state target actor version) a =
    elim (validate_transition from_state target actor) [
      | some _ ↦ a
      | none ↦ if can_move from_state version a then move from_state target now a else a
    ]
effect now (binds worker_id call_id) a =
    if holds a.reserved_by worker_id then record a { current_call_id = some call_id } else a
effect now (expires seen) a = if can_expire seen now a then expire now a else a
effect now beats a = record a { last_heartbeat_at = some now }

unfoldable pub after_outcome : {A S : Type 0} → S → Outcome (A × S) → S
after_outcome s (returns r) = r.1
after_outcome s (raises _) = s

module _ (agents : AgentCollection) where
  open agents use {State, find_one, update_result, update_stored}

  unfoldable pub perform : State → ℕ → ℕ → Write → State
  unfolding after_outcome
  perform s now i (reserves campaign_id worker_id ttl) =
      (try_reserve_agent agents s now campaign_id i worker_id ttl).1
  perform s now i (releases worker_id target actor) =
      (release_agent agents s now i worker_id target actor).1
  perform s now i (transitions from_state target actor version) =
      after_outcome s (transition_agent agents s now i from_state target actor version)
  perform s now i (binds worker_id call_id) = (bind_call agents s i worker_id call_id).1
  perform s now i (expires seen) =
      (release_expired_agent_lease agents s (record seen { id = i }) now).1
  perform s now i beats = (heartbeat agents s now i).1

  untouched :
      (b : Bool) (e : Agent → Agent) (o : Option Agent)
      → ((a : Agent) → e a ≡ a)
      → o ≡ (if b then Option.map e o else o)
  untouched true e none same = refl
  untouched true e (some a) same = ap some (sym (same a))
  untouched false e o same = refl

  stored_as :
      (e : Agent → Agent) (s : State) (i : ℕ) (p : Agent → Bool) (f : Agent → Agent)
      → ((a : Agent) → (f a).id ≡ a.id)
      → ((a : Agent) → (if p a then f a else a) ≡ e a)
      → (j : ℕ)
      → find_one (agents.find_one_and_update s i p f).1 j
        ≡ (if nat_beq i j then Option.map e (find_one s j) else find_one s j)
  stored_as e s i p f same_id as_effect j =
      subst
        (λ (g : Agent → Agent).
          find_one (agents.find_one_and_update s i p f).1 j
          ≡ (if nat_beq i j then Option.map g (find_one s j) else find_one s j))
        (fun_ext as_effect) (update_stored s i p f same_id j)

  no_source :
      (worker_id : ℕ) (sources : List AgentState) (now : ℕ) (target : AgentState) (a : Agent)
      → is_empty sources ≡ true
      → (if can_release worker_id sources a then release sources target now a else a) ≡ a
  unfolding can_release
  no_source worker_id [] now target a h = ground arith
  no_source worker_id (x ∷ xs) now target a h = cc

  release_stored :
      (s : State) (now i worker_id : ℕ) (target : AgentState) (actor : TransitionActor) (j : ℕ)
      → find_one (release_agent agents s now i worker_id target actor).1 j ≡ (
          if nat_beq i j
          then Option.map (effect now (releases worker_id target actor)) (find_one s j)
          else find_one s j)
  unfolding release_agent effect
  release_stored s now i worker_id target actor j =
      let sources = allowed_sources target actor in
      elim (Bool-cases (is_empty sources)) [
        | inl nobody ↦ rw nobody (
            untouched (nat_beq i j) (effect now (releases worker_id target actor)) (find_one s j)
              (λ a. no_source worker_id sources now target a nobody))
        | inr somebody ↦ rw somebody (stored_as _ s i _ _ (λ a. refl) (λ a. refl) j)
      ]

  transition_stored :
      (s : State) (now i : ℕ) (from_state target : AgentState) (actor : TransitionActor)
      (version j : ℕ)
      → find_one
          (after_outcome s (transition_agent agents s now i from_state target actor version))
          j
        ≡ (if nat_beq i j
            then Option.map
                (effect now (transitions from_state target actor version))
                (find_one s j)
            else find_one s j)
  unfolding transition_agent effect after_outcome
  transition_stored s now i from_state target actor version j =
      elim (Option-cases (validate_transition from_state target actor)) [
        | inl valid ↦
            rw (valid, after_outcome) (stored_as _ s i _ _ (λ a. refl) (λ a. rw (valid, effect)) j)
        | inr (error, refused) ↦
            rw (refused, after_outcome)
              (untouched (nat_beq i j) _ (find_one s j) (λ a. rw (refused, effect)))
      ]

  -- Each write changes the agent that it names by its effect, and no other.
  pub perform_lem :
      (s : State) (now i : ℕ) (w : Write) (j : ℕ)
      → find_one (perform s now i w) j
        ≡ (if nat_beq i j then Option.map (effect now w) (find_one s j) else find_one s j)
  unfolding perform effect
  perform_lem s now i (reserves campaign_id worker_id ttl) j =
      unfold try_reserve_agent reserve in stored_as _ s i _ _ (λ a. refl) (λ a. refl) j
  perform_lem s now i (releases worker_id target actor) j =
      release_stored s now i worker_id target actor j
  perform_lem s now i (transitions from_state target actor version) j =
      transition_stored s now i from_state target actor version j
  perform_lem s now i (binds worker_id call_id) j =
      unfold bind_call in stored_as _ s i _ _ (λ a. refl) (λ a. refl) j
  perform_lem s now i (expires seen) j =
      unfold release_expired_agent_lease can_expire expire in
      stored_as _ s i _ _ (λ a. refl) (λ a. refl) j
  perform_lem s now i beats j = unfold heartbeat in stored_as _ s i _ _ (λ a. refl) (λ a. refl) j

  map_keeps :
      (P : Agent → Type 0) (e : Agent → Agent) (o : Option Agent) (hit : Bool)
      → (hit ≡ true → (a : Agent) → P a → P (e a))
      → ((a : Agent) → o ≡ some a → P a)
      → (b : Agent) → (if hit then Option.map e o else o) ≡ some b
      → P b
  map_keeps P e none hit keep start b h = absurd (ground arith)
  map_keeps P e (some a) true keep start b h =
      subst P (some-injective _ _ h) (keep refl a (start a refl))
  map_keeps P e (some a) false keep start b h = start b h

  one :
      (P : ℕ → Agent → Type 0) (s : State) (now i : ℕ) (w : Write)
      → ((a : Agent) → P i a → P i (effect now w a))
      → ((j : ℕ) (a : Agent) → find_one s j ≡ some a → P j a)
      → (k : ℕ) (b : Agent) → find_one (perform s now i w) k ≡ some b
      → P k b
  one P s now i w keep start k b found =
      map_keeps (P k) (effect now w) (find_one s k) (nat_beq i k)
        (λ hit.
          subst (λ (n : ℕ). (a : Agent) → P n a → P n (effect now w a)) ((nat_beq_iff i k).0 hit)
            keep)
        (start k) b (sym (perform_lem s now i w k) ∙ found)

  -- Writes in the order in which they reach the database: the time, the agent and the write of each.
  unfoldable pub run : State → List (ℕ × ℕ × Write) → State
  unfolding perform
  run s [] = s
  run s ((now, i, w) ∷ steps) = run (perform s now i w) steps

  -- An invariant of agents that every write of a sequence keeps holds after the sequence.
  pub run_invariant :
      (P : ℕ → Agent → Type 0) (s : State) (steps : List (ℕ × ℕ × Write))
      → All (λ st. (a : Agent) → P st.1 a → P st.1 (effect st.0 st.2 a)) steps
      → ((j : ℕ) (a : Agent) → find_one s j ≡ some a → P j a)
      → (j : ℕ) (a : Agent) → find_one (run s steps) j ≡ some a
      → P j a
  unfolding run
  run_invariant P s [] keep start j a h = start j a h
  run_invariant P s ((now, i, w) ∷ steps) keep start j a h =
      run_invariant P (perform s now i w) steps keep.1
        (λ k b found. one P s now i w keep.0 start k b found) j a h
