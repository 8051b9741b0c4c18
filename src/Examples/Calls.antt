-- ===== src/Examples/Calls.antt =====
-- The theorems on calls and on the provider's events at concrete inputs.
use smart_dialerss.Prelude.{ℕ, ◌≡◌, ◌↔◌, refl, List, [], ◌∷◌, none, some, true, nat_eq}
use smart_dialerss.Enums.{CallState, EventProcessingStatus}
use smart_dialerss.CallSm.{
  EventApplicability, rank, is_terminal, can_transition, should_apply_event,
}
use smart_dialerss.CallSm.Order.{should_apply-iff-can_transition}
use mathlib.Core.Option
use smart_dialerss.EventRepo.{event_key}
use smart_dialerss.Models.{Call, StoredEvent, build_idempotency_key}
use smart_dialerss.Store.Memory.{memory, read, lookup_where, scan, first}
use smart_dialerss.CallRepo.{create_call, derive, find_by_provider_call_id}
use smart_dialerss.CallRepo.Progress.{IsWellFormed, Follows, Write, transitions, run, run-Follows}
use smart_dialerss.CallRepo.Idempotency.{create_call-taken}
use smart_dialerss.EventProcessor.{event_type_to_call_state, apply_event, process_event}
use smart_dialerss.EventProcessor.Duplicates.{process_all, process_event-again}
use smart_dialerss.EventProcessor.Effects.{
  IsUnderWay, IsAborted, apply_event-ignored, apply_event-aborts,
}
use smart_dialerss.Examples.{
  calls_in_memory, in_memory, settings, busy_agent, busy_borrower, ringing_call, under_way,
  cancelled_event, ringing_event, clock,
}

should_apply-iff-can_transition_example :
    (should_apply_event CallState.ringing CallState.cancelled ≡ EventApplicability.apply)
    ↔ (can_transition CallState.ringing CallState.cancelled ≡ true)
should_apply-iff-can_transition_example =
    should_apply-iff-can_transition CallState.ringing CallState.cancelled

pub ringing-IsWellFormed : IsWellFormed ringing_call
unfolding rank is_terminal
ringing-IsWellFormed = record { rank_of_state = refl; flag_of_state = refl; end_of_flag = refl }

abbrev steps : List (ℕ × Write)
steps =
    (500, transitions 3 CallState.failed (some "busy"))
    ∷ (600, transitions 3 CallState.completed none)
    ∷ []

run-Follows_example :
    (d : Call) × (calls_in_memory.find_one (run calls_in_memory (under_way).calls steps) 3 ≡ some d)
    × Follows ringing_call d
unfolding memory read
run-Follows_example =
    run-Follows calls_in_memory steps (under_way).calls 3 ringing_call refl ringing-IsWellFormed

create_call-taken_example :
    let r = create_call calls_in_memory (under_way).calls 4 700 7 1 2 9 6 1 in
    ((k : ℕ) → calls_in_memory.find_one r.1 k ≡ calls_in_memory.find_one (under_way).calls k)
    × (d : Call) × (r.0 ≡ some d)
    × (d.idempotency_key ≡ ringing_call.idempotency_key)
unfolding memory read build_idempotency_key
create_call-taken_example =
    create_call-taken calls_in_memory (under_way).calls ringing_call 4 700 7 1 2 9 6 1 refl refl

process_event-again_example :
    let before =
      process_all in_memory settings
        (process_event in_memory settings under_way clock cancelled_event).1
        ((clock, ringing_event) ∷ []) in
    let r = process_event in_memory settings before clock cancelled_event in
    (r.0.status ≡ EventProcessingStatus.duplicate_ignored)
    × (r.1.calls ≡ before.calls)
    × (r.1.agents ≡ before.agents)
    × (r.1.borrowers ≡ before.borrowers)
process_event-again_example =
    process_event-again in_memory settings under_way clock clock cancelled_event cancelled_event
      ((clock, ringing_event) ∷ []) refl

apply_event-ignored_example :
    let r = apply_event in_memory settings under_way clock ringing_event in
    (r.1.calls ≡ (under_way).calls)
    × (r.1.agents ≡ (under_way).agents)
    × (r.1.borrowers ≡ (under_way).borrowers)
    × (r.0.status ≡ EventProcessingStatus.stale_ignored)
    × (r.0.applied_transition ≡ none)
    × ((in_memory).events.find_one r.1.events (event_key ringing_event)
        ≡ Option.map
            (λ (d : StoredEvent). record d {
              processing_status = some EventProcessingStatus.stale_ignored;
              applied_transition = none;
            })
            ((in_memory).events.find_one (under_way).events (event_key ringing_event)))
unfolding memory read lookup_where scan first find_by_provider_call_id derive rank is_terminal
    event_type_to_call_state can_transition
apply_event-ignored_example =
    apply_event-ignored in_memory settings under_way clock ringing_event ringing_call
      CallState.ringing refl refl refl

ringing-IsUnderWay : IsUnderWay in_memory settings under_way ringing_call busy_agent busy_borrower
unfolding memory read
ringing-IsUnderWay = record {
  call_stored = refl;
  well_formed = ringing-IsWellFormed;
  agent_stored = refl;
  agent_busy = refl;
  agent_held = refl;
  borrower_stored = refl;
  borrower_busy = refl;
  borrower_held = refl;
}

apply_event-aborts_example :
    let r = apply_event in_memory settings under_way clock cancelled_event in
    (r.0.status ≡ EventProcessingStatus.processed)
    × IsAborted in_memory settings r.1 ringing_call CallState.cancelled busy_borrower
unfolding memory read lookup_where scan first find_by_provider_call_id derive rank is_terminal
    event_type_to_call_state should_apply_event can_transition
apply_event-aborts_example =
    apply_event-aborts in_memory settings under_way clock cancelled_event ringing_call
      CallState.cancelled busy_agent busy_borrower refl refl refl refl ringing-IsUnderWay
