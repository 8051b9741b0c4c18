-- ===== src/Simulation/Checks.antt =====
-- What the invariant checker finds.
use smart_dialerss.Prelude.{
  ℕ, ◌≡◌, ◌≤◌, ◌↔◌, inl, inr, refl, Bool, true, false, ◌&&◌, List, [], ◌∷◌, ◌++◌, map, length,
  Option, none, some, nat_eq, ◌==◌, contains, is_some, is_empty, arith, if◌then◌else◌, Option-cases,
  leb,
}
use smart_dialerss.Enums.{AgentState, agent_state_eq, all_agent_states}
use smart_dialerss.Models.{Call}
use smart_dialerss.Config.{Settings}
use smart_dialerss.AgentRepo.{count_by_state}
use smart_dialerss.CallRepo.{find_active}
use smart_dialerss.Database.{Collections, Db}
use smart_dialerss.Simulation.{
  InvariantName, Offender, offenders, violation_of, check_duplicate_bindings, sum_usable, call_ids,
  check_capacity, check_final_state, stale_calls_of, check,
}

-- No two calls have the same key.
abbrev pub distinct : (Call → ℕ) → List Call → Bool
distinct key [] = true
distinct key (call ∷ calls) =
    (if contains (key call) (map key calls) then false else true) && distinct key calls

-- No call has a key that was seen.
abbrev fresh : (Call → ℕ) → (ℕ → Option ℕ) → List Call → Bool
fresh key seen [] = true
fresh key seen (call ∷ calls) =
    (if is_some (seen (key call)) then false else true) && fresh key seen calls

mark : (Call → ℕ) → (ℕ → Option ℕ) → Call → ℕ → Option ℕ
mark key seen call i = if key call == i then some call.id else seen i

fresh-mark :
    (key : Call → ℕ) (seen : ℕ → Option ℕ) (call : Call) (calls : List Call)
    → fresh key (mark key seen call) calls
      ≡ ((if contains (key call) (map key calls) then false else true) && fresh key seen calls)
unfolding mark
fresh-mark key seen call [] = refl
fresh-mark key seen call (c ∷ calls) = let rest = fresh-mark key seen call calls in ground arith

offenders-empty :
    (key : Call → ℕ) (seen : ℕ → Option ℕ) (calls : List Call)
    → is_empty (offenders key seen calls) ≡ (distinct key calls && fresh key seen calls)
unfolding offenders mark
offenders-empty key seen [] = refl
offenders-empty key seen (call ∷ calls) =
    let rest = offenders-empty key (mark key seen call) calls in
    let now = fresh-mark key seen call calls in
    elim (Option-cases (seen (key call))) [
      | inl new ↦ rw (new, offenders) (ground arith)
      | inr (other, old) ↦ rw (old, offenders) (ground arith)
    ]

nothing_seen : (key : Call → ℕ) (calls : List Call) → fresh key (λ i. none) calls ≡ true
nothing_seen key [] = refl
nothing_seen key (call ∷ calls) = nothing_seen key calls

append-empty : {A : Type 0} (xs ys : List A) → is_empty (xs ++ ys) ≡ (is_empty xs && is_empty ys)
append-empty [] ys = refl
append-empty (x ∷ xs) ys = refl

append3-empty :
    {A : Type 0} (xs ys zs : List A)
    → is_empty (xs ++ ys ++ zs) ≡ (is_empty xs && is_empty ys && is_empty zs)
append3-empty [] [] zs = refl
append3-empty [] (y ∷ ys) zs = refl
append3-empty (x ∷ xs) ys zs = refl

violation-empty :
    (name : InvariantName) (os : List Offender) → is_empty (violation_of name os) ≡ is_empty os
violation-empty name [] = refl
violation-empty name (o ∷ os) = refl

call_ids-empty : (calls : List Call) → is_empty (call_ids calls) ≡ is_empty calls
call_ids-empty [] = refl
call_ids-empty (call ∷ calls) = refl

duplicate_bindings-empty :
    (calls : List Call)
    → is_empty (check_duplicate_bindings calls)
      ≡ (distinct (λ c. c.agent_id) calls && distinct (λ c. c.borrower_id) calls)
unfolding check_duplicate_bindings
duplicate_bindings-empty calls =
    let agents = offenders-empty (λ c. c.agent_id) (λ i. none) calls in
    let borrowers = offenders-empty (λ c. c.borrower_id) (λ i. none) calls in
    rw
      (
        append-empty
            (violation_of InvariantName.agent_double_booked
              (offenders (λ c. c.agent_id) (λ i. none) calls))
            (violation_of InvariantName.borrower_double_booked
              (offenders (λ c. c.borrower_id) (λ i. none) calls)),
        violation-empty,
        violation-empty,
        agents,
        borrowers,
        nothing_seen (λ c. c.agent_id) calls,
      )
      (ground arith)

capacity-empty :
    (calls : List Call) (counts : AgentState → ℕ)
    → is_empty (check_capacity calls counts)
      ≡ leb (length calls) (sum_usable counts all_agent_states)
unfolding check_capacity
capacity-empty calls counts = ground arith

final_state-empty :
    (stale : List Call) (counts : AgentState → ℕ)
    → is_empty (check_final_state stale counts)
      ≡ (is_empty stale && counts AgentState.reserved == 0)
unfolding check_final_state
final_state-empty [] counts = ground arith
final_state-empty (call ∷ stale) counts = refl

final-empty :
    (final : Bool) (stale : List Call) (counts : AgentState → ℕ)
    → is_empty (if final then check_final_state stale counts else [])
      ≡ (if final then is_empty stale && counts AgentState.reserved == 0 else true)
final-empty true stale counts = final_state-empty stale counts
final-empty false stale counts = refl

all_true :
    (agents borrowers stale final : Bool) (m n reserved : ℕ)
    → (((agents && borrowers) && leb m n && (if final then stale && reserved == 0 else true))
        ≡ true)
      ↔ ((agents ≡ true)
          × (borrowers ≡ true)
          × (m ≤ n)
          × (final ≡ true → (stale ≡ true) × (reserved ≡ 0)))
all_true agents borrowers stale true m n reserved = ground arith
all_true agents borrowers stale false m n reserved = ground arith

module _ (c : Collections) (settings : Settings) (db : Db c) (now campaign_id : ℕ)
    (final : Bool) where
  -- The checker reports nothing just if no two of the campaign's active calls name the same agent, no two
  -- name the same borrower, there are no more of them than agents that are neither OFFLINE nor PAUSED, and,
  -- in the final check, no stale call is found and no agent is RESERVED.
  pub check_iff :
      let calls = find_active c.calls db.calls campaign_id 5000 in
      let counts = count_by_state c.agents db.agents campaign_id in
      (is_empty (check c settings db now campaign_id final) ≡ true) ↔ (
        (distinct (λ k. k.agent_id) calls ≡ true)
        × (distinct (λ k. k.borrower_id) calls ≡ true)
        × (length calls ≤ sum_usable counts all_agent_states)
        × (final ≡ true
            → (is_empty (stale_calls_of c settings db now campaign_id) ≡ true)
              × (counts AgentState.reserved ≡ 0)))
  unfolding check
  check_iff =
      let calls = find_active c.calls db.calls campaign_id 5000 in
      let counts = count_by_state c.agents db.agents campaign_id in
      let stale = stale_calls_of c settings db now campaign_id in
      rw
        (
          check,
          append3-empty (check_duplicate_bindings calls) (check_capacity calls counts)
              (if final then check_final_state stale counts else []),
          duplicate_bindings-empty calls,
          capacity-empty calls counts,
          final-empty final stale counts,
        )
        (all_true (distinct (λ k. k.agent_id) calls) (distinct (λ k. k.borrower_id) calls)
          (is_empty stale) final (length calls) (sum_usable counts all_agent_states)
          (counts AgentState.reserved))
