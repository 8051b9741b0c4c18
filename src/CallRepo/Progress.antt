-- ===== src/CallRepo/Progress.antt =====
-- How a stored call evolves under the writes of app/repositories/call_repo.py, in any order and by any
-- workers.
use Prim.Native.String.{String}
use native.Mathlib.Nat.{le_trans}
use smart_dialerss.Prelude.{
  ℕ, ◌≤◌, ◌≡◌, ◌∙◌, refl, sym, ap, Bool, true, false, not, ◌&&◌, List, [], ◌∷◌, Option, none, some,
  nat_eq, nat_beq, nat_beq_iff, is_some, if◌then◌else◌, arith, Bool-cases, Option-cases, inl, inr,
}
use smart_dialerss.Enums.{CallState, call_state_eq}
use smart_dialerss.CallSm.{rank, is_terminal}
use smart_dialerss.Models.{Call}
use smart_dialerss.Store.{modified}
use smart_dialerss.CallRepo.{
  CallCollection, call_clash, new_call, can_advance, advance, attach, create_call,
  attach_provider_call_id, transition_call,
}

-- The rank, the flag and the end date that are stored agree with the state.
pub record IsWellFormed (c : Call) : Type 0 where
  pub rank_of_state : c.state_rank ≡ rank c.state
  pub flag_of_state : c.terminal ≡ is_terminal c.state
  pub end_of_flag : is_some c.ended_at ≡ is_terminal c.state

-- What one write does to a call that is stored.
pub data Change (c d : Call) : Type 0 where
  stays : d ≡ c → Change c d
  advances :
      (target : CallState) (reason : Option String) (now : ℕ)
      → can_advance target c ≡ true
      → d ≡ advance target reason now c
      → Change c d
  attaches : (provider_call_id now : ℕ) → d ≡ attach provider_call_id now c → Change c d

-- The later call `d` follows the earlier call `c`: its rank is no lower, and if `c` had ended then
-- its state, its end date and its reason are those of `c`.
pub record Follows (c d : Call) : Type 0 where
  pub well_formed : IsWellFormed d
  pub rank_grows : rank c.state ≤ rank d.state
  pub end_is_final :
      is_terminal c.state ≡ true
      → (d.state ≡ c.state) × (d.ended_at ≡ c.ended_at) × (d.failure_reason ≡ c.failure_reason)

advance-Follows :
    (c : Call) (target : CallState) (reason : Option String) (now : ℕ)
    → IsWellFormed c
    → can_advance target c ≡ true
    → Follows c (advance target reason now c)
unfolding can_advance advance is_terminal
advance-Follows c CallState.queued reason now wf may = unfold rank in absurd (ground arith)
advance-Follows c CallState.reserved reason now wf may = ground arith
advance-Follows c CallState.initiated reason now wf may = ground arith
advance-Follows c CallState.ringing reason now wf may = ground arith
advance-Follows c CallState.answered reason now wf may = ground arith
advance-Follows c CallState.connected reason now wf may = ground arith
advance-Follows c CallState.completed reason now wf may = ground arith
advance-Follows c CallState.failed reason now wf may = ground arith
advance-Follows c CallState.cancelled reason now wf may = ground arith

pub Change-Follows : {c d : Call} → IsWellFormed c → Change c d → Follows c d
Change-Follows wf (stays e) = ground arith
Change-Follows {c} wf (advances target reason now may e) =
    rw e (advance-Follows c target reason now wf may)
Change-Follows wf (attaches provider_call_id now e) = unfold attach in ground arith

Follows-trans : {c d f : Call} → Follows c d → Follows d f → Follows c f
Follows-trans {c} {d} {f} h k = record {
  well_formed = k.well_formed;
  rank_grows = le_trans h.rank_grows k.rank_grows;
  end_is_final = λ over.
      let (state, end, reason) = h.end_is_final over in
      let (state', end', reason') = k.end_is_final (ap is_terminal state ∙ over) in
      (state' ∙ state, end' ∙ end, reason' ∙ reason);
}

Follows-refl : {c : Call} → IsWellFormed c → Follows c c
Follows-refl wf = ground arith

pub record Creation : Type 0 where
  pub id : ℕ
  pub campaign_id : ℕ
  pub agent_id : ℕ
  pub borrower_id : ℕ
  pub provider_name : ℕ
  pub worker_id : ℕ
  pub attempt : ℕ

-- The writes on the calls, with the arguments of the repository's methods.
pub data Write : Type 0 where
  creates : Creation → Write
  transitions : ℕ → CallState → Option String → Write
  attaches_id : ℕ → ℕ → Write

and_false : (b : Bool) → (b && false) ≡ false
and_false true = refl
and_false false = refl

none_of_inserted : {o : Option Call} → not (is_some o) ≡ true → o ≡ none
none_of_inserted {o} h = ground arith

pub advance-id :
    (target : CallState) (reason : Option String) (now : ℕ) (c : Call)
    → (advance target reason now c).id ≡ c.id
unfolding advance
advance-id target reason now c = ground arith

guarded : {A : Type 0} (b : Bool) (x : A) {r : A} → (if b then none else some x) ≡ some r → r ≡ x
guarded true x h = cc
guarded false x h = cc

module _ (calls : CallCollection) where
  open calls use {State, find_one, find_one_and_update}

  unfoldable pub perform : State → ℕ → Write → State
  perform s now (creates n) =
      (create_call calls s n.id now n.campaign_id n.agent_id n.borrower_id n.provider_name
        n.worker_id n.attempt).1
  perform s now (transitions call_id target reason) =
      (transition_call calls s now call_id target reason).1
  perform s now (attaches_id call_id provider_call_id) =
      (attach_provider_call_id calls s now call_id provider_call_id).1

  -- The writes in the order in which they reach the database, with the time of each.
  unfoldable pub run : State → List (ℕ × Write) → State
  unfolding perform
  run s [] = s
  run s ((now, w) ∷ steps) = run (perform s now w) steps

  -- A relation that holds of a call and itself, and of a call and its update, holds of what is stored.
  pub updated :
      (R : Call → Call → Type 0)
      → ((d : Call) → R d d)
      → (s : State) (i j : ℕ) (p : Call → Bool) (f : Call → Call) (c : Call)
      → ((d : Call) → (f d).id ≡ d.id)
      → (i ≡ j → p c ≡ true → R c (f c))
      → find_one s j ≡ some c
      → (d : Call) × (find_one (find_one_and_update s i p f).1 j ≡ some d) × R c d
  updated R same s i j p f c same_id change here =
      let stored = calls.update_stored s i p f same_id j in
      elim (Bool-cases (nat_beq i j)) [
        | inr other ↦ (c, stored ∙ rw other here, same c)
        | inl hit ↦ elim (Bool-cases (p c)) [
          | inr fails ↦ (c, stored ∙ rw hit (ap (modified p f) here ∙ rw fails refl), same c)
          | inl passes ↦ (
            f c,
            stored ∙ rw hit (ap (modified p f) here ∙ rw passes refl),
            change ((nat_beq_iff i j).0 hit) passes,
          )
        ]
      ]

  clash_same_id : (n c : Call) → call_clash n c ≡ false → n.id ≡ c.id → ⊥
  clash_same_id n c h same = ground arith

  -- A call that is stored under an id is never overwritten by an insertion.
  insertion :
      (s : State) (n c : Call) (j : ℕ)
      → find_one s j ≡ some c
      → find_one (calls.insert_one s n).1 j ≡ some c
  insertion s n c j here =
      let stored = calls.insert_stored s n j in
      elim (Bool-cases (nat_beq n.id j)) [
        | inr other ↦ stored ∙ rw (other, and_false) here
        | inl same ↦ elim (Bool-cases (calls.insert_one s n).0) [
          | inr refused ↦ stored ∙ rw refused here
          | inl inserted ↦ absurd (
              clash_same_id n c
                (calls.find_one_where_none s (call_clash n) j c
                  (none_of_inserted (sym (calls.insert_result s n) ∙ inserted)) here)
                ((nat_beq_iff n.id j).0 same ∙ sym (calls.find_one_key s j c here)))
        ]
      ]

  pub creation :
      (s : State) (now : ℕ) (n : Creation) (c : Call) (j : ℕ)
      → find_one s j ≡ some c
      → find_one (perform s now (creates n)) j ≡ some c
  unfolding perform create_call
  creation s now n c j here =
      let call =
        new_call n.id now n.campaign_id n.agent_id n.borrower_id n.provider_name n.worker_id
          n.attempt in
      elim (Bool-cases (calls.insert_one s call).0) [
        | inl inserted ↦ rw (inserted, perform, create_call) (insertion s call c j here)
        | inr refused ↦ rw (refused, perform, create_call) (insertion s call c j here)
      ]

  pub attachment :
      (R : Call → Call → Type 0)
      → ((d : Call) → R d d)
      → (s : State) (now i pid j : ℕ) (c : Call) → R c (attach pid now c)
      → find_one s j ≡ some c
      → (d : Call) × (find_one (perform s now (attaches_id i pid)) j ≡ some d) × R c d
  unfolding perform attach_provider_call_id
  attachment R same_call s now i pid j c change here =
      let law = calls.update_unique s i (λ d. not (is_some d.provider_call_id)) (attach pid now) in
      elim (Option-cases (
        calls.find_one_and_update_unique s i (λ d. not (is_some d.provider_call_id))
          (attach pid now))) [
            | inl clashes ↦ (c, rw (clashes, perform, attach_provider_call_id) here, same_call c)
            | inr (r, goes) ↦
                let same = guarded _ _ (sym law ∙ goes) in
                rw (goes, perform, attach_provider_call_id, same)
                  (updated R same_call s i j (λ d. not (is_some d.provider_call_id))
                    (attach pid now) c (λ d. unfold attach in refl) (λ at may. change) here)
          ]

  pub perform-Change :
      (s : State) (now : ℕ) (w : Write) (j : ℕ) (c : Call)
      → find_one s j ≡ some c
      → (d : Call) × (find_one (perform s now w) j ≡ some d) × Change c d
  unfolding perform transition_call
  perform-Change s now (creates n) j c here = (c, creation s now n c j here, stays refl)
  perform-Change s now (transitions call_id target reason) j c here =
      updated Change (λ d. stays refl) s call_id j (can_advance target) (advance target reason now)
        c (advance-id target reason now) (λ at may. advances target reason now may refl) here
  perform-Change s now (attaches_id call_id pid) j c here =
      attachment Change (λ d. stays refl) s now call_id pid j c (attaches pid now refl) here

  -- Through any sequence of creations, transitions and attachments, a well-formed call stays stored
  -- under its id and well formed, its rank never falls, and once it has ended its state, its end date
  -- and its reason never change.
  pub run-Follows :
      (steps : List (ℕ × Write)) (s : State) (j : ℕ) (c : Call)
      → find_one s j ≡ some c
      → IsWellFormed c
      → (d : Call) × (find_one (run s steps) j ≡ some d) × Follows c d
  unfolding run
  run-Follows [] s j c here wf = (c, here, Follows-refl wf)
  run-Follows ((now, w) ∷ steps) s j c here wf =
      let (d, found, change) = perform-Change s now w j c here in
      let first = Change-Follows wf change in
      let (f, last, rest) = run-Follows steps (perform s now w) j d found first.well_formed in
      (f, last, Follows-trans first rest)
