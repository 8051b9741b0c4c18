-- ===== src/Examples/Replaying.antt =====
-- The theorems on the order of writes, on replayed events, on the simulation's checks, on the scripts of the
-- mock providers and on the API at concrete inputs.
use mathlib.Core.Option
use mathlib.Core.List.{filter_map}
use mathlib.Core.List.Perm
use smart_dialerss.Prelude.{
  ℕ, ◌≡◌, ◌≤◌, ◌↔◌, ◌+◌, refl, List, [], ◌∷◌, none, some, true, length, is_empty, nat_eq,
}
use smart_dialerss.Enums.{AgentState, CallState, all_agent_states}
use smart_dialerss.Models.{Call}
use smart_dialerss.Store.Memory.{memory, read}
use smart_dialerss.AgentRepo.{count_by_state}
use smart_dialerss.CallRepo.{find_active}
use smart_dialerss.CallRepo.Progress.{Write, transitions, run}
use smart_dialerss.CallRepo.Refinement.{absorb_all, target_of, AgreeOn, run-absorb_all, run-perm}
use smart_dialerss.EventRepo.{event_key, to_provider_event, find_by_provider_event_id}
use smart_dialerss.EventProcessor.{process_event}
use smart_dialerss.EventProcessor.Duplicates.{process_all}
use smart_dialerss.EventProcessor.Replays.{as_kept, process_event-read_back}
use smart_dialerss.Recovery.{call_state_of_status}
use smart_dialerss.Simulation.{
  check, stale_calls_of, sum_usable, duplicate_event_burst, out_of_order_burst,
}
use smart_dialerss.Simulation.Bursts.{IsUnchanged, bursts-IsUnchanged}
use smart_dialerss.Simulation.Checks.{distinct, check_iff}
use smart_dialerss.MockProvider.{ScriptDraws, build_event_script}
use smart_dialerss.MockProvider.Scripts.{follow, build_event_script-ends}
use smart_dialerss.Api.{post_agent_action}
use smart_dialerss.Api.Served.{IsExplained}
use smart_dialerss.Api.Errors.{post_agent_action-IsExplained}
use smart_dialerss.Examples.{
  agents_in_memory, calls_in_memory, in_memory, settings, ringing_call, under_way, idle,
  cancelled_event, ringing_event, clock, fractions,
}
use smart_dialerss.Examples.Calls.{ringing-IsWellFormed}

abbrev answer_then_end : List (ℕ × Write)
answer_then_end =
    (500, transitions 3 CallState.answered none)
    ∷ (600, transitions 3 CallState.completed none)
    ∷ []

abbrev end_then_answer : List (ℕ × Write)
end_then_answer =
    (600, transitions 3 CallState.completed none)
    ∷ (500, transitions 3 CallState.answered none)
    ∷ []

run-absorb_all_example :
    Option.map
      (λ (d : Call). d.state)
      (calls_in_memory.find_one (run calls_in_memory (under_way).calls answer_then_end) 3)
    ≡ some (absorb_all CallState.ringing (filter_map (target_of 3) answer_then_end))
unfolding memory read
run-absorb_all_example =
    run-absorb_all calls_in_memory answer_then_end (under_way).calls 3 ringing_call refl
      ringing-IsWellFormed

run-perm_example :
    AgreeOn
      (calls_in_memory.find_one (run calls_in_memory (under_way).calls answer_then_end) 3)
      (calls_in_memory.find_one (run calls_in_memory (under_way).calls end_then_answer) 3)
unfolding memory read
run-perm_example =
    run-perm calls_in_memory answer_then_end end_then_answer (under_way).calls 3 ringing_call refl
      ringing-IsWellFormed (Perm.swap _ _ [])

process_event-read_back_example :
    Option.map to_provider_event (
      find_by_provider_event_id
        (in_memory).events
        (process_all in_memory settings
          (process_event in_memory settings under_way clock cancelled_event).1
          ((clock, ringing_event) ∷ [])).events
        (event_key cancelled_event))
    ≡ some (as_kept cancelled_event)
unfolding memory read
process_event-read_back_example =
    process_event-read_back in_memory settings under_way clock cancelled_event
      ((clock, ringing_event) ∷ []) refl

bursts-IsUnchanged_example :
    let db = (process_event in_memory settings under_way clock cancelled_event).1 in
    IsUnchanged in_memory settings db
      (duplicate_event_burst in_memory settings db (λ n. clock) (some 77)).1
    × IsUnchanged in_memory settings db
        (out_of_order_burst in_memory settings db (λ n. clock) (some 77)).1
bursts-IsUnchanged_example =
    bursts-IsUnchanged in_memory settings
      (process_event in_memory settings under_way clock cancelled_event).1 (λ n. clock) (some 77)

check_iff_example :
    let calls = find_active (in_memory).calls (under_way).calls 7 5000 in
    let counts = count_by_state (in_memory).agents (under_way).agents 7 in
    (is_empty (check in_memory settings under_way 200 7 true) ≡ true) ↔ (
      (distinct (λ k. k.agent_id) calls ≡ true)
      × (distinct (λ k. k.borrower_id) calls ≡ true)
      × (length calls ≤ sum_usable counts all_agent_states)
      × (true ≡ true
          → (is_empty (stale_calls_of in_memory settings under_way 200 7) ≡ true)
            × (counts AgentState.reserved ≡ 0)))
check_iff_example = check_iff in_memory settings under_way 200 7 true

abbrev draws : ScriptDraws fractions
draws = record {
  answered = true;
  talk_time = (30, 1);
  swap_index = some 2;
  duplicate_index = some 0;
}

build_event_script-ends_example :
    let (script, final_status) =
      build_event_script fractions 9
        (record { ring_duration = (3, 1) })
        draws
        77
        (λ n. 500 + n)
        clock in
    follow fractions CallState.initiated script ≡ call_state_of_status final_status
build_event_script-ends_example =
    build_event_script-ends fractions 9 (record { ring_duration = (3, 1) }) 77 (λ n. 500 + n) clock
      draws

post_agent_action-IsExplained_example :
    IsExplained agents_in_memory
      (idle).agents
      (λ s. s)
      1
      "pause"
      (post_agent_action agents_in_memory "secret"
        (some "secret")
        (idle).agents
        (λ s. s)
        clock
        1
        "pause")
post_agent_action-IsExplained_example =
    post_agent_action-IsExplained agents_in_memory "secret" (some "secret") (idle).agents (λ s. s)
      clock 1 "pause"
