-- ===== src/AgentRepo/Release.antt =====
-- A release by the holder, from a state that the actor may leave.
use smart_dialerss.Prelude.{
  ℕ, ◌≡◌, refl, true, false, List, [], ◌∷◌, some, is_empty, arith, Bool-cases, inl, inr, ◌==◌,
  nat_eq,
}
use smart_dialerss.Enums.{AgentState, agent_state_eq}
use smart_dialerss.AgentSm.{TransitionActor, allowed_sources}
use smart_dialerss.Models.{Agent}
use smart_dialerss.Store.Laws.{update-hits, update-other}
use smart_dialerss.AgentRepo.{AgentCollection, can_release, release, release_agent}

not_empty :
    (worker_id : ℕ) (sources : List AgentState) (a : Agent)
    → can_release worker_id sources a ≡ true
    → is_empty sources ≡ false
unfolding can_release
not_empty worker_id [] a h = absurd (ground arith)
not_empty worker_id (x ∷ xs) a h = refl

module _ (agents : AgentCollection) where
  open agents use {State, find_one}

  pub release_agent-hits :
      (s : State) (now i worker_id : ℕ) (target : AgentState) (actor : TransitionActor) (a : Agent)
      → find_one s i ≡ some a
      → can_release worker_id (allowed_sources target actor) a ≡ true
      → let r = release_agent agents s now i worker_id target actor in
        (r.0 ≡ some (release (allowed_sources target actor) target now a))
        × (find_one r.1 i ≡ some (release (allowed_sources target actor) target now a))
  unfolding release_agent
  release_agent-hits s now i worker_id target actor a here may =
      let sources = allowed_sources target actor in
      rw (not_empty worker_id sources a may, release_agent)
        (update-hits agents s i (can_release worker_id sources) (release sources target now) a
          (λ d. unfold release in refl) here may)

  -- Other agents are as before.
  pub release_agent-other :
      (s : State) (now i worker_id : ℕ) (target : AgentState) (actor : TransitionActor) (j : ℕ)
      → i == j ≡ false
      → find_one (release_agent agents s now i worker_id target actor).1 j ≡ find_one s j
  unfolding release_agent
  release_agent-other s now i worker_id target actor j other =
      let sources = allowed_sources target actor in
      elim (Bool-cases (is_empty sources)) [
        | inl none_left ↦ rw (none_left, release_agent)
        | inr some_left ↦
            rw (some_left, release_agent)
              (update-other agents s i (can_release worker_id sources) (release sources target now)
                (λ d. unfold release in refl) j other)
      ]
