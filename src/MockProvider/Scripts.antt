-- ===== src/MockProvider/Scripts.antt =====
-- Where the scripts of the mock providers lead a call.
use smart_dialerss.Prelude.{
  ℕ, zero, suc, ◌≡◌, ◌∙◌, refl, ap, Bool, true, false, List, [], ◌∷◌, Option, none, some, arith,
}
use smart_dialerss.Enums.{CallState, call_state_eq}
use smart_dialerss.CallSm.{EventApplicability, should_apply_event}
use smart_dialerss.EventRepo.{ProviderEvent}
use smart_dialerss.EventProcessor.{event_type_to_call_state}
use smart_dialerss.Floats.{Floats}
use smart_dialerss.Recovery.{call_state_of_status}
use smart_dialerss.MockProvider.{
  MockBehaviour, ScriptDraws, swap_at, repeat_at, apply_out_of_order, apply_duplication, steps_of,
  schedule, build_event_script,
}

abbrev pub if_applies : EventApplicability → CallState → CallState → CallState
if_applies EventApplicability.apply target state = target
if_applies _ target state = state

-- The state of a call after an event of a type, by the table and the applicability of events
abbrev pub next : CallState → Option CallState → CallState
next state none = state
next state (some target) = if_applies (should_apply_event state target) target state

next-twice :
    (state : CallState) (target : Option CallState)
    → next (next state target) target ≡ next state target
unfolding should_apply_event
next-twice state none = refl
next-twice state (some target) = ground arith

swap_at-nil : {A : Type 0} (n : ℕ) → swap_at {A = A} n [] ≡ []
unfolding swap_at
swap_at-nil zero = refl
swap_at-nil (suc n) = refl

module _ (floats : Floats) where
  abbrev pub follow : CallState → List (floats.F × ProviderEvent) → CallState
  follow state [] = state
  follow state ((delay, event) ∷ rest) =
      follow (next state (event_type_to_call_state event.event_type)) rest

  follow-repeat_at :
      (n : ℕ) (script : List (floats.F × ProviderEvent)) (state : CallState)
      → follow state (repeat_at floats n script) ≡ follow state script
  unfolding repeat_at
  follow-repeat_at n [] state = refl
  follow-repeat_at zero ((delay, event) ∷ rest) state =
      ap (λ s. follow s rest) (next-twice state (event_type_to_call_state event.event_type))
  follow-repeat_at (suc n) ((delay, event) ∷ rest) state =
      follow-repeat_at n rest (next state (event_type_to_call_state event.event_type))

  follow-duplication :
      (n : Option ℕ) (script : List (floats.F × ProviderEvent)) (state : CallState)
      → follow state (apply_duplication floats n script) ≡ follow state script
  follow-duplication none script state = refl
  follow-duplication (some n) script state = follow-repeat_at n script state

  module _ (name : ℕ) (behaviour : MockBehaviour floats) (provider_call_id : ℕ)
      (event_id clock : ℕ → ℕ) where
    abbrev scheduled : ScriptDraws floats → List (floats.F × ProviderEvent)
    scheduled draws =
        schedule floats name provider_call_id event_id clock 0 (steps_of floats behaviour draws).0

    follow-swapped :
        (answered : Bool) (talk_time : floats.F) (swap duplicate : Option ℕ)
        → let draws : ScriptDraws floats = record {
          answered = answered;
          talk_time = talk_time;
          swap_index = swap;
          duplicate_index = duplicate;
        } in
          follow CallState.initiated (apply_out_of_order floats swap (scheduled draws))
          ≡ call_state_of_status (steps_of floats behaviour draws).1
    unfolding swap_at steps_of schedule event_type_to_call_state should_apply_event
        call_state_of_status
    follow-swapped true talk_time none duplicate = refl
    follow-swapped true talk_time (some zero) duplicate = refl
    follow-swapped true talk_time (some (suc zero)) duplicate = refl
    follow-swapped true talk_time (some (suc (suc zero))) duplicate = refl
    follow-swapped true talk_time (some (suc (suc (suc zero)))) duplicate = refl
    follow-swapped true talk_time (some (suc (suc (suc (suc n))))) duplicate =
        ap (follow CallState.completed) (swap_at-nil n)
    follow-swapped false talk_time none duplicate = refl
    follow-swapped false talk_time (some zero) duplicate = refl
    follow-swapped false talk_time (some (suc zero)) duplicate = refl
    follow-swapped false talk_time (some (suc (suc n))) duplicate =
        ap (follow CallState.failed) (swap_at-nil n)

    -- Whichever two neighbouring events of a script are delivered in the wrong order and whichever is
    -- delivered twice, a call that is INITIATED ends in the state that recovery would give it by the
    -- status that the provider reports at the end of the script.
    pub build_event_script-ends :
        (draws : ScriptDraws floats)
        → let (script, final_status) =
            build_event_script floats name behaviour draws provider_call_id event_id clock in
          follow CallState.initiated script ≡ call_state_of_status final_status
    unfolding build_event_script
    build_event_script-ends draws =
        follow-duplication draws.duplicate_index
          (apply_out_of_order floats draws.swap_index (scheduled draws)) CallState.initiated
        ∙ follow-swapped draws.answered draws.talk_time draws.swap_index draws.duplicate_index
