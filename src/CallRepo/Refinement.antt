-- ===== src/CallRepo/Refinement.antt =====
-- The calls collection as an abstract register of states, which only move up.
use mathlib.Core.Option
use mathlib.Core.Option.{Option-elim}
use native.Mathlib.Nat.{ℕ_set}
use mathlib.Core.List.{foldr, filter_map, Perm}
use mathlib.Core.List.Perm
use Prim.Native.String.{String}
use smart_dialerss.Prelude.{
  ℕ, ◌≡◌, ◌∙◌, ◌⊎◌, inl, inr, refl, sym, ap, true, false, List, [], ◌∷◌, Option, none, some, max,
  nat_eq, nat_beq, ◌==◌, ltb, if◌then◌else◌, arith, Bool-cases,
}
use smart_dialerss.Enums.{CallState}
use smart_dialerss.CallSm.{rank, is_terminal}
use smart_dialerss.Models.{Call}
use smart_dialerss.CallRepo.{CallCollection, can_advance, advance, attach, transition_call}
use smart_dialerss.CallRepo.Progress.{
  IsWellFormed, Change-Follows, Write, perform, run, creates, transitions, attaches_id, creation,
  attachment, advance-id, advances,
}
use smart_dialerss.Store.{modified}

-- What a target state makes of a state: it is taken if it is higher and the state is not an end.
abbrev pub absorb : CallState → CallState → CallState
absorb state target =
    if is_terminal state then state else if ltb (rank state) (rank target) then target else state

abbrev pub absorb_all : CallState → List CallState → CallState
absorb_all state [] = state
absorb_all state (target ∷ targets) = absorb_all (absorb state target) targets

-- The target that a write has for a call, if it is a transition of that call
abbrev pub target_of : ℕ → ℕ × Write → Option CallState
target_of call_id (now, transitions id target reason) = if id == call_id then some target else none
target_of call_id (now, _) = none

abbrev pub absorb_target : CallState → Option CallState → CallState
absorb_target state none = state
absorb_target state (some target) = absorb state target

-- What a write makes of a call: it stays well formed, and its state absorbs the target.
Absorbs : Option CallState → Call → Call → Type 0
Absorbs target c d = IsWellFormed c → IsWellFormed d × (d.state ≡ absorb_target c.state target)

advance-state :
    (c : Call) (target : CallState) (reason : Option String) (now : ℕ)
    → (advance target reason now c).state ≡ target
unfolding advance
advance-state c target reason now = ground arith

may_absorb :
    (c : Call) (target : CallState)
    → IsWellFormed c
    → can_advance target c ≡ true
    → absorb c.state target ≡ target
unfolding can_advance
may_absorb c target wf may = ground arith

may_not_absorb :
    (c : Call) (target : CallState)
    → IsWellFormed c
    → can_advance target c ≡ false
    → absorb c.state target ≡ c.state
unfolding can_advance
may_not_absorb c target wf may = ground arith

attached-Absorbs : (c : Call) (pid now : ℕ) → Absorbs none c (attach pid now c)
unfolding Absorbs attach
attached-Absorbs c pid now wf = (ground arith, refl)

module _ (calls : CallCollection) where
  open calls use {State, find_one}

  transition_absorbs :
      (s : State) (now i : ℕ) (target : CallState) (reason : Option String) (j : ℕ) (c : Call)
      → find_one s j ≡ some c
      → IsWellFormed c
      → (d : Call) × (find_one (perform calls s now (transitions i target reason)) j ≡ some d)
        × IsWellFormed d
        × (d.state ≡ absorb_target c.state (target_of j (now, transitions i target reason)))
  unfolding perform transition_call
  transition_absorbs s now i target reason j c here wf =
      let stored =
        calls.update_stored s i (can_advance target) (advance target reason now)
          (advance-id target reason now) j in
      elim (Bool-cases (nat_beq i j)) [
        | inr other ↦ (c, stored ∙ rw other here, wf, rw other refl)
        | inl hit ↦ elim (Bool-cases (can_advance target c)) [
          | inr fails ↦ (
            c,
            stored
                ∙ rw hit (
                    ap (modified (can_advance target) (advance target reason now)) here
                    ∙ rw fails refl),
            wf,
            rw hit (sym (may_not_absorb c target wf fails)),
          )
          | inl passes ↦ (
            advance target reason now c,
            stored
                ∙ rw hit (
                    ap (modified (can_advance target) (advance target reason now)) here
                    ∙ rw passes refl),
            (Change-Follows wf (advances target reason now passes refl)).well_formed,
            rw hit (advance-state c target reason now ∙ sym (may_absorb c target wf passes)),
          )
        ]
      ]

  perform_absorbs :
      (s : State) (now : ℕ) (w : Write) (j : ℕ) (c : Call)
      → find_one s j ≡ some c
      → IsWellFormed c
      → (d : Call) × (find_one (perform calls s now w) j ≡ some d)
        × IsWellFormed d
        × (d.state ≡ absorb_target c.state (target_of j (now, w)))
  unfolding Absorbs
  perform_absorbs s now (creates n) j c here wf = (c, creation calls s now n c j here, wf, refl)
  perform_absorbs s now (transitions i target reason) j c here wf =
      transition_absorbs s now i target reason j c here wf
  perform_absorbs s now (attaches_id i pid) j c here wf =
      let (d, found, absorbs) =
        attachment calls (Absorbs none) (λ d wf'. (wf', refl)) s now i pid j c
          (attached-Absorbs c pid now) here in
      let (wf', state) = absorbs wf in (d, found, wf', state)

  absorb_next :
      (target : Option CallState) (state : CallState) (targets : List CallState)
      → absorb_all state (Option-elim target targets (λ t. t ∷ targets))
        ≡ absorb_all (absorb_target state target) targets
  unfolding Option-elim
  absorb_next none state targets = refl
  absorb_next (some t) state targets = refl

  -- Through any sequence of creations, transitions and attachments, on any calls, the state of a
  -- well-formed call is that of a register that is given the targets of the call's own transitions in
  -- their order, and takes each that ranks higher until it has taken an end.
  pub run-absorb_all :
      (steps : List (ℕ × Write)) (s : State) (j : ℕ) (c : Call)
      → find_one s j ≡ some c
      → IsWellFormed c
      → Option.map (λ (d : Call). d.state) (find_one (run calls s steps) j)
        ≡ some (absorb_all c.state (filter_map (target_of j) steps))
  unfolding run filter_map
  run-absorb_all [] s j c here wf = ap (Option.map (λ (d : Call). d.state)) here
  run-absorb_all ((now, w) ∷ steps) s j c here wf =
      let (d, found, wf', state) = perform_absorbs s now w j c here wf in
      run-absorb_all steps (perform calls s now w) j d found wf'
      ∙ ap (λ st. some (absorb_all st (filter_map (target_of j) steps))) state
      ∙ ap some (sym (absorb_next (target_of j (now, w)) c.state (filter_map (target_of j) steps)))

-- The higher of the target's rank and a rank
abbrev higher : CallState → ℕ → ℕ
higher target n = max (rank target) n

absorb-rank :
    (state target : CallState) → rank (absorb state target) ≡ max (rank target) (rank state)
unfolding is_terminal rank
absorb-rank state target = ground arith

foldr-higher :
    (targets : List CallState) (m n : ℕ)
    → foldr higher (max m n) targets ≡ max m (foldr higher n targets)
foldr-higher [] m n = refl
foldr-higher (t ∷ targets) m n = let rest = foldr-higher targets m n in omega arith

absorb_all-rank :
    (targets : List CallState) (state : CallState)
    → rank (absorb_all state targets) ≡ foldr higher (rank state) targets
absorb_all-rank [] state = refl
absorb_all-rank (t ∷ targets) state =
    absorb_all-rank targets (absorb state t)
    ∙ ap (λ n. foldr higher n targets) (absorb-rank state t)
    ∙ foldr-higher targets (rank t) (rank state)

rank_determines :
    (a b : CallState)
    → rank a ≡ rank b
    → (a ≡ b) ⊎ ((is_terminal a ≡ true) × (is_terminal b ≡ true))
unfolding rank is_terminal
rank_determines a b h = ground arith

higher_comm : (a b : CallState) (n : ℕ) → higher a (higher b n) ≡ higher b (higher a n)
higher_comm a b n = omega arith

absorb_all-perm :
    (state : CallState) (ts us : List CallState)
    → Perm ts us
    → let a = absorb_all state ts in
      let b = absorb_all state us in (a ≡ b) ⊎ ((is_terminal a ≡ true) × (is_terminal b ≡ true))
absorb_all-perm state ts us p = rank_determines (absorb_all state ts) (absorb_all state us) (
    absorb_all-rank ts state
    ∙ Perm.foldr-eq ℕ_set higher higher_comm p (rank state)
    ∙ sym (absorb_all-rank us state))

-- The two stored calls are in the same state, or have both ended.
abbrev pub AgreeOn : Option Call → Option Call → Type 0
AgreeOn none _ = ⊥
AgreeOn (some d) none = ⊥
AgreeOn (some d) (some e) =
    (d.state ≡ e.state) ⊎ ((is_terminal d.state ≡ true) × (is_terminal e.state ≡ true))

agree :
    (o o' : Option Call) (a b : CallState)
    → Option.map (λ (d : Call). d.state) o ≡ some a
    → Option.map (λ (d : Call). d.state) o' ≡ some b
    → (a ≡ b) ⊎ ((is_terminal a ≡ true) × (is_terminal b ≡ true))
    → AgreeOn o o'
agree none o' a b h k same = absurd (ground arith)
agree (some d) none a b h k same = absurd (ground arith)
agree (some d) (some e) a b h k (inl same) = inl (ground arith)
agree (some d) (some e) a b h k (inr (left, right)) = inr (ground arith, ground arith)

module _ (calls : CallCollection) where
  -- Whatever the order in which the same writes reach the database, a stored call is left in the same
  -- state, unless each order ends it.
  pub run-perm :
      (steps steps' : List (ℕ × Write)) (s : calls.State) (j : ℕ) (c : Call)
      → calls.find_one s j ≡ some c
      → IsWellFormed c
      → Perm steps steps'
      → AgreeOn (calls.find_one (run calls s steps) j) (calls.find_one (run calls s steps') j)
  run-perm steps steps' s j c here wf p =
      agree _ _ _ _ (run-absorb_all calls steps s j c here wf)
        (run-absorb_all calls steps' s j c here wf)
        (absorb_all-perm c.state _ _ (Perm.filter_map (target_of j) p))
