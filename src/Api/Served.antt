-- ===== src/Api/Served.antt =====
-- The answers to requests on agents, and what a request that is served does to the agent.
use Prim.Native.String.{String}
use text.Mathlib.Text.{◌==◌ as str_eq}
use mathlib.Core.Path.{subst}
use smart_dialerss.Prelude.{
  ℕ, ◌+◌, ◌≡◌, ◌∙◌, refl, sym, ap, ◌⊎◌, inl, inr, Bool, true, none, some, Bool-cases, nat_eq,
  nat_beq, arith,
}
use smart_dialerss.Enums.{AgentState, agent_state_eq}
use smart_dialerss.AgentSm.{TransitionActor, validate_transition}
use smart_dialerss.Models.{Agent}
use smart_dialerss.Store.Laws.{update-won, update-other, update-found, update-hits}
use smart_dialerss.AgentRepo.{AgentCollection, heartbeat, can_move, move, find_by_id}
use smart_dialerss.Api.{Failure, Answer, status_code, answer_of, agent_actions, beat}

module _ (agents : AgentCollection) where
  open agents use {State, find_one}

  -- The same agents
  abbrev pub SameAgents : State → State → Type 0
  SameAgents s t = (j : ℕ) → find_one s j ≡ find_one t j

  -- Why a request may be refused, and what it leaves: a missing key or an unknown agent or action leaves
  -- what was there, a conflict what others wrote.
  abbrev pub Refusal : State → (State → State) → Failure → State → Type 0
  Refusal s meanwhile failure s' =
      ((status_code failure ≡ 401) × SameAgents s' s)
      ⊎ ((status_code failure ≡ 404) × SameAgents s' s)
      ⊎ ((status_code failure ≡ 409) × SameAgents s' (meanwhile s))

  -- No other agent differs.
  abbrev pub OthersKept : State → ℕ → State → Type 0
  OthersKept s i s' = (j : ℕ) → (i ≡ j) ⊎ (find_one s' j ≡ find_one s j)

  -- The heartbeat of the agent: from `s` on only the time of its last heartbeat changed.
  abbrev pub IsBeat : State → ℕ → String → Agent → State → Type 0
  IsBeat s i action a s' =
      (str_eq action "heartbeat" ≡ true)
      × (b : Agent) × (now : ℕ) × (find_one s i ≡ some b)
      × (a ≡ record b { last_heartbeat_at = some now })
      × OthersKept s i s'

  -- The move that the action asks for: from `s` on the agent took one transition that the state machine lets
  -- agents take, to the state of the action.
  abbrev pub IsMoved : State → ℕ → String → Agent → State → Type 0
  IsMoved s i action a s' =
      (b : Agent) × (find_one s i ≡ some b)
      × (agent_actions action ≡ some a.state)
      × (validate_transition b.state a.state TransitionActor.agent ≡ none)
      × (a.state_version ≡ b.state_version + 1)
      × OthersKept s i s'

  -- The answer is the agent as it is stored, after its heartbeat or its move; what others wrote is there.
  abbrev pub IsServed : State → (State → State) → ℕ → String → Agent → State → Type 0
  IsServed s meanwhile i action a s' =
      (find_one s' i ≡ some a) × (IsBeat s i action a s' ⊎ IsMoved (meanwhile s) i action a s')

  -- An answer is the agent, served, or a refusal.
  abbrev pub IsExplained : State → (State → State) → ℕ → String → Answer Agent × State → Type 0
  IsExplained s meanwhile i action (Answer.answers a, s') = IsServed s meanwhile i action a s'
  IsExplained s meanwhile i action (Answer.fails failure, s') = Refusal s meanwhile failure s'

  unfoldable pub beaten : ℕ → Agent → Agent
  beaten now a = record a { last_heartbeat_at = some now }

  others_kept :
      (s : State) (i : ℕ) (p : Agent → Bool) (f : Agent → Agent)
      → ((d : Agent) → (f d).id ≡ d.id)
      → OthersKept s i (agents.find_one_and_update s i p f).1
  others_kept s i p f same j = elim (Bool-cases (nat_beq i j)) [
    | inl this ↦ inl ((nat_eq.beq_iff i j).0 this)
    | inr other ↦ inr (update-other agents s i p f same j other)
  ]

  pub kept_after : (s t u : State) (i : ℕ) → OthersKept s i t → OthersKept t i u → OthersKept s i u
  kept_after s t u i h k j = elim (h j) [
    | inl this ↦ inl this
    | inr first ↦ elim (k j) [ inl this ↦ inl this | inr second ↦ inr (second ∙ first) ]
  ]

  -- What a heartbeat answers and leaves
  pub beat-answers :
      (s : State) (now i : ℕ) (a : Agent)
      → find_one s i ≡ some a
      → let r = beat agents s now i in
        (r.0 ≡ Answer.answers (beaten now a))
        × (find_one r.1 i ≡ some (beaten now a))
        × OthersKept s i r.1
  unfolding beat heartbeat find_by_id beaten
  beat-answers s now i a here =
      let f = λ (d : Agent). beaten now d in
      let stored = (update-hits agents s i (λ _. true) f a (λ d. refl) here refl).1 in
      (ap answer_of stored, stored, others_kept s i (λ _. true) f (λ d. refl))

  pub move-id :
      (from_state target : AgentState) (now : ℕ) (d : Agent)
      → (move from_state target now d).id ≡ d.id
  unfolding move
  move-id from_state target now d = refl

  -- A transition that was won moved the agent.
  pub won-IsMoved :
      (s : State) (now i : ℕ) (action : String) (from_state target : AgentState) (version : ℕ)
      → agent_actions action ≡ some target
      → validate_transition from_state target TransitionActor.agent ≡ none
      → (a : Agent)
      → let r =
          agents.find_one_and_update s i
            (can_move from_state version)
            (move from_state target now) in
        r.0 ≡ some a → (find_one r.1 i ≡ some a) × IsMoved s i action a r.1
  unfolding can_move move
  won-IsMoved s now i action from_state target version asked good a won =
      let p = can_move from_state version in
      let f = move from_state target now in
      let same = move-id from_state target now in
      let (b, was, passes, is) = update-won agents s i p f a won in
      let from : from_state ≡ b.state = ground (arith, passes) in
      let to : target ≡ a.state = sym (ap (λ (d : Agent). d.state) is) in
      (
        update-found agents s i p f same a won,
        (
          b,
          was,
          asked ∙ ap some to,
          subst (λ x. validate_transition x a.state TransitionActor.agent ≡ none) from
              (subst (λ x. validate_transition from_state x TransitionActor.agent ≡ none) to good),
          ap (λ (d : Agent). d.state_version) is,
          others_kept s i p f same,
        ),
      )
