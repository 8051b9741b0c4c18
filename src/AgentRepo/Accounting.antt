-- ===== src/AgentRepo/Accounting.antt =====
-- The accounting of time in app/repositories/agent_repo.py: the `$switch` of an update pipeline
-- against the plain accounting of the state that the agent leaves.
use smart_dialerss.Prelude.{
  ℕ, ◌+◌, ◌≡◌, refl, ◌∙◌, Bool, true, false, ◌||◌, Bool-cases, inl, inr, List, [], ◌∷◌, arith,
  contains, if◌then◌else◌, ◌==◌,
}
use smart_dialerss.Enums.{AgentState, agent_state_eq, agent_index_iff}
use smart_dialerss.Models.{Agent}
use smart_dialerss.AgentRepo.{
  TimeField, has_field, time_accounting_fields, elapsed, accounted, switch, conditional_accounting,
  time_accounting_updates,
}

-- One branch of the `$switch`, over the values of its tests.
branch :
    (present here later : Bool) (plain with_time rest : ℕ)
    → rest ≡ (if later then (if present then with_time else plain) else plain)
    → (if present then (if here then with_time else rest) else rest)
      ≡ (if here || later then (if present then with_time else plain) else plain)
branch present here later plain with_time rest h = ground arith

both : (b : Bool) (n : ℕ) → (if b then n else n) ≡ n
both true n = refl
both false n = refl

switch-contains :
    (sources : List AgentState) (now : ℕ) (f : TimeField) (a : Agent) (value : ℕ)
    → switch sources now f a value
      ≡ (if contains a.state sources then accounted a.state now f a value else value)
unfolding switch
switch-contains [] now f a value = refl
switch-contains (source ∷ sources) now f a value =
    let rest = switch-contains sources now f a value in
    elim (Bool-cases (a.state == source)) [
      | inl hit ↦
          let same : a.state ≡ source = (agent_index_iff a.state source).0 hit in
          rw (← same) (
            branch (has_field f (time_accounting_fields a.state)) (a.state == a.state)
              (contains a.state sources) value (value + elapsed now a) _ rest)
      | inr miss ↦ rw miss (both (has_field f (time_accounting_fields source)) _ ∙ rest)
    ]

on_field :
    (sources : List AgentState) (now : ℕ) (f : TimeField) (a : Agent) (value : ℕ)
    → contains a.state sources ≡ true
    → switch sources now f a value ≡ accounted a.state now f a value
on_field sources now f a value h = switch-contains sources now f a value ∙ rw h

-- For an agent in one of the sources, the pipeline that `release_agent` builds accounts for the
-- elapsed time exactly as the transition out of the agent's own state does.
pub conditional-eq-plain :
    (sources : List AgentState) (now : ℕ) (a : Agent)
    → contains a.state sources ≡ true
    → conditional_accounting sources now a ≡ time_accounting_updates a.state now a
unfolding conditional_accounting time_accounting_updates
conditional-eq-plain sources now a h = rw (
  on_field sources now TimeField.available_time a a.available_time_ms h,
  on_field sources now TimeField.busy_time a a.busy_time_ms h,
  on_field sources now TimeField.connected_time a a.connected_time_ms h,
  on_field sources now TimeField.wrap_up_time a a.wrap_up_time_ms h,
)
