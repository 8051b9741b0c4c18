-- ===== src/Worker/WrapUps.antt =====
-- Which agents the dialer worker makes available.
use smart_dialerss.Prelude.{
  ℕ, suc, ◌-◌, ◌≤◌, ◌≡◌, ◌⊎◌, inl, inr, refl, sym, ap, ◌∙◌, ◌&&◌, Bool, true, false, List, [], ◌∷◌,
  Option, some, Bool-cases, All, arith, if◌then◌else◌, nat_eq, ◌==◌, leb,
}
use mathlib.Core.Path.{subst}
use smart_dialerss.Store.Laws.{update-hits, update-other}
use smart_dialerss.Enums.{AgentState, agent_state_eq}
use smart_dialerss.AgentSm.{validate_transition, can_transition, is_actor_allowed}
use smart_dialerss.Models.{Agent, seconds}
use smart_dialerss.Store.{modified}
use smart_dialerss.AgentRepo.{
  AgentCollection, can_move, move, transition_agent, find_expired_wrap_ups, in_campaign,
}
use smart_dialerss.Worker.{
  find_finished_wrap_ups, release_each, release_finished_wrap_ups, wrap_up_sweep_limit,
}

module _ (campaign_id older_than : ℕ) where
  -- The agent was in WRAP_UP, in the campaign, at least since then.
  abbrev pub IsDue : Agent → Type 0
  IsDue a =
      (a.state ≡ AgentState.wrap_up)
      × (a.campaign_id ≡ campaign_id)
      × (a.state_changed_at ≤ older_than)

  -- Such an agent became AVAILABLE.
  abbrev pub IsReleased : Option Agent → Option Agent → Type 0
  IsReleased before after =
      (a : Agent) × (t : ℕ) × (before ≡ some a)
      × IsDue a
      × (after ≡ some (move AgentState.wrap_up AgentState.available t a))

  abbrev pub IsKept : Option Agent → Option Agent → Type 0
  IsKept before after = (after ≡ before) ⊎ IsReleased before after

  released_stays :
      (version t : ℕ) (b : Agent)
      → (b.state ≡ AgentState.available)
      → can_move AgentState.wrap_up version b ≡ false
  unfolding can_move
  released_stays version t b h = ground arith

  moved-available :
      (t : ℕ) (a : Agent)
      → (move AgentState.wrap_up AgentState.available t a).state ≡ AgentState.available
  unfolding move
  moved-available t a = refl

  still :
      (b : Bool) (p : Agent → Bool) (f : Agent → Agent) (o : Option Agent) (x : Agent)
      → o ≡ some x
      → p x ≡ false
      → (if b then modified p f o else o) ≡ some x
  still true p f o x h fails = ap (modified p f) h ∙ rw fails refl
  still false p f o x h fails = h

  may_move :
      (d : Agent)
      → d.state ≡ AgentState.wrap_up
      → can_move AgentState.wrap_up d.state_version d ≡ true
  unfolding can_move
  may_move d h = ground arith

  same_id : (t : ℕ) (a : Agent) → (move AgentState.wrap_up AgentState.available t a).id ≡ a.id
  unfolding move
  same_id t a = refl

  module _ (agents : AgentCollection) where
    open agents use {State, find_one, update_stored}

    abbrev step : State → ℕ → Agent → State
    step s now d =
        (agents.find_one_and_update s d.id (can_move AgentState.wrap_up d.state_version)
          (move AgentState.wrap_up AgentState.available now)).1

    release_each-step :
        (s : State) (clock : ℕ → ℕ) (d : Agent) (rest : List Agent)
        → release_each agents s clock (d ∷ rest)
          ≡ release_each agents (step s (clock 0) d) (λ k. clock (suc k)) rest
    unfolding release_each transition_agent validate_transition can_transition is_actor_allowed
    release_each-step s clock d rest = refl

    step-IsReleased :
        (before : Option Agent) (s : State) (now : ℕ) (d : Agent) (j : ℕ)
        → IsReleased before (find_one s j)
        → IsReleased before (find_one (step s now d) j)
    step-IsReleased before s now d j (a, t, was, wrapped, is) = (
      a,
      t,
      was,
      wrapped,
      update_stored s d.id _ _ (same_id now) j
          ∙ still (d.id == j) (can_move AgentState.wrap_up d.state_version)
              (move AgentState.wrap_up AgentState.available now) (find_one s j)
              (move AgentState.wrap_up AgentState.available t a) is
              (released_stays d.state_version now (move AgentState.wrap_up AgentState.available t a)
                (moved-available t a)),
    )

    step-hits :
        (before : Option Agent) (s : State) (now : ℕ) (d : Agent) (j : ℕ)
        → d.id ≡ j
        → (before ≡ some d) × IsDue d
        → find_one s j ≡ before
        → IsReleased before (find_one (step s now d) j)
    step-hits before s now d j at (was, wrapped) same = (
      d,
      now,
      was,
      wrapped,
      subst
          (λ i.
            find_one (step s now d) i ≡ some (move AgentState.wrap_up AgentState.available now d))
          at
          (update-hits agents s d.id _ _ d (same_id now) (ap (find_one s) at ∙ same ∙ was)
            (may_move d wrapped.0)).1,
    )

    step-named :
        (before : Option Agent) (s : State) (now : ℕ) (d : Agent) (j : ℕ)
        → d.id ≡ j
        → (before ≡ some d) × IsDue d
        → IsKept before (find_one s j)
        → IsReleased before (find_one (step s now d) j)
    step-named before s now d j at found (inl same) = step-hits before s now d j at found same
    step-named before s now d j at found (inr moved) = step-IsReleased before s now d j moved

    step-Kept :
        (before : Option Agent) (s : State) (now : ℕ) (d : Agent) (j : ℕ)
        → (d.id ≡ j → (before ≡ some d) × IsDue d)
        → IsKept before (find_one s j)
        → IsKept before (find_one (step s now d) j)
    step-Kept before s now d j named kept = elim (Bool-cases (d.id == j)) [
      | inl hit ↦
          let at = (nat_eq.beq_iff d.id j).0 hit in
          inr (step-named before s now d j at (named at) kept)
      | inr other ↦ elim kept [
        | inl same ↦ inl (update-other agents s d.id _ _ (same_id now) j other ∙ same)
        | inr moved ↦ inr (step-IsReleased before s now d j moved)
      ]
    ]

    -- What each agent of a list was in a state of the collection, and that it was in WRAP_UP
    abbrev IsFound : State → Agent → Type 0
    IsFound s d = (find_one s d.id ≡ some d) × IsDue d

    at_key :
        (s : State) (d : Agent) (j : ℕ) → IsFound s d → d.id ≡ j → (find_one s j ≡ some d) × IsDue d
    at_key s d j (here, wrapped) at = (ap (find_one s) (sym at) ∙ here, wrapped)

    release_each-Kept :
        (start s : State) (clock : ℕ → ℕ) (list : List Agent) (j : ℕ)
        → All (IsFound start) list
        → IsKept (find_one start j) (find_one s j)
        → IsKept (find_one start j) (find_one (release_each agents s clock list) j)
    unfolding release_each
    release_each-Kept start s clock [] j found kept = kept
    release_each-Kept start s clock (d ∷ rest) j (here, found) kept =
        subst (λ t. IsKept (find_one start j) (find_one t j))
          (sym (release_each-step s clock d rest))
          (release_each-Kept start (step s (clock 0) d) (λ k. clock (suc k)) rest j found
            (step-Kept _ s (clock 0) d j (at_key start d j here) kept))

    release_each-IsReleased :
        (before : Option Agent) (s : State) (clock : ℕ → ℕ) (list : List Agent) (j : ℕ)
        → IsReleased before (find_one s j)
        → IsReleased before (find_one (release_each agents s clock list) j)
    unfolding release_each
    release_each-IsReleased before s clock [] j moved = moved
    release_each-IsReleased before s clock (d ∷ rest) j moved =
        subst (λ t. IsReleased before (find_one t j)) (sym (release_each-step s clock d rest))
          (release_each-IsReleased before (step s (clock 0) d) (λ k. clock (suc k)) rest j
            (step-IsReleased before s (clock 0) d j moved))

    release_each-All :
        (start s : State) (clock : ℕ → ℕ) (list : List Agent)
        → All (IsFound start) list
        → ((j : ℕ) → IsKept (find_one start j) (find_one s j))
        → All
            (λ d.
              IsReleased (find_one start d.id) (find_one (release_each agents s clock list) d.id))
            list
    release_each-All start s clock [] found kept = tt
    release_each-All start s clock (d ∷ rest) (here, found) kept =
        subst (λ t. All (λ k. IsReleased (find_one start k.id) (find_one t k.id)) (d ∷ rest))
          (sym (release_each-step s clock d rest))
          (
            release_each-IsReleased (find_one start d.id) (step s (clock 0) d) (λ k. clock (suc k))
                rest d.id (step-named _ s (clock 0) d d.id refl here (kept d.id)),
            release_each-All start (step s (clock 0) d) (λ k. clock (suc k)) rest found
                (λ j. step-Kept _ s (clock 0) d j (at_key start d j here) (kept j)),
          )

    wrap_ups-IsFound :
        (s : State) (list : List Agent)
        → All
            (λ a.
              ((a.state == AgentState.wrap_up
                  && leb a.state_changed_at older_than
                  && in_campaign (some campaign_id) a)
                ≡ true)
              × (find_one s a.id ≡ some a))
            list
        → All (IsFound s) list
    wrap_ups-IsFound s [] h = tt
    wrap_ups-IsFound s (a ∷ rest) ((passes, here), h) =
        ((here, (ground arith, ground arith, ground arith)), wrap_ups-IsFound s rest h)

module _ (agents : AgentCollection) where
  open agents use {State, find_one}

  -- Every agent that `find_finished_wrap_ups` finds is made AVAILABLE, from the state it was found in; and
  -- every agent is as it was, or was one of the campaign's agents in WRAP_UP, at least for the seconds of
  -- the settings, and is made AVAILABLE.
  pub release_finished_wrap_ups-releases :
      (s : State) (now : ℕ) (clock : ℕ → ℕ) (wrap_up_seconds campaign_id : ℕ)
      → let s' = release_finished_wrap_ups agents s now clock wrap_up_seconds campaign_id in
        let since = now - seconds wrap_up_seconds in
        All
          (λ d. IsReleased campaign_id since (find_one s d.id) (find_one s' d.id))
          (find_finished_wrap_ups agents s now wrap_up_seconds campaign_id)
        × ((j : ℕ) → IsKept campaign_id since (find_one s j) (find_one s' j))
  unfolding release_finished_wrap_ups find_finished_wrap_ups find_expired_wrap_ups
  release_finished_wrap_ups-releases s now clock wrap_up_seconds campaign_id =
      let list = find_finished_wrap_ups agents s now wrap_up_seconds campaign_id in
      let since = now - seconds wrap_up_seconds in
      let found =
        wrap_ups-IsFound campaign_id since agents s list
          (agents.find_members s _ wrap_up_sweep_limit) in
      (
        release_each-All campaign_id since agents s s clock list found (λ j. inl refl),
        λ j. release_each-Kept campaign_id since agents s s clock list j found (inl refl),
      )
