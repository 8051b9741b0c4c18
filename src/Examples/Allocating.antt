-- ===== src/Examples/Allocating.antt =====
-- The theorems on the allocator at concrete inputs.
use smart_dialerss.Prelude.{refl, some}
use smart_dialerss.Enums.{AgentState, BorrowerStatus}
use smart_dialerss.AgentSm as AgentSm
use smart_dialerss.CallSm as CallSm
use smart_dialerss.Models.{Agent, Borrower, build_idempotency_key}
use smart_dialerss.AgentRepo as Agents
use smart_dialerss.BorrowerRepo as Borrowers
use smart_dialerss.CallRepo as Calls
use smart_dialerss.Store.Memory.{memory, read, update, lookup_where, scan, first}
use smart_dialerss.Reservation as Reservation
use smart_dialerss.Reservation.{Fault, ReservationPair, reserve_pair}
use smart_dialerss.Allocator.{Round}
use smart_dialerss.Dial as Dial
use smart_dialerss.Dial.{World, Originated, DialSettings, dial}
use smart_dialerss.Dial.Holding.{IsFreedPair}
use smart_dialerss.Dial.Failures.{reserve_pair-dial_frees}
use smart_dialerss.Allocator as Allocator
use smart_dialerss.Allocator.{Live, AllocationResult}
use smart_dialerss.Allocator.Counts.{Accounts, allocate-Accounts}
use smart_dialerss.Examples.{
  in_memory, settings, free_agent, free_borrower, campaign, idle, fractions, clock,
}
use smart_dialerss.Examples.Dialing.{safety, monitors}

abbrev pub dialing : DialSettings fractions
dialing = record { base = settings; health = (safety).health; provider_timeout_seconds = (5, 1) }

abbrev pub world : Originated → World
world answer = record {
  clock_a = clock;
  clock_b = clock;
  clock = clock;
  time = clock;
  new_id = 40;
  fault = Fault.never;
  originate = λ call_id. answer;
}

abbrev live : Live fractions in_memory dialing
live = record { db = idle; health = (monitors).health }

-- The one free agent is dialled for the one free borrower.
abbrev allocation : AllocationResult
allocation = record { attempted = 1; allocated = 1; failed = 0; contended = 0 }

-- A round before which nobody else writes
abbrev pub quiet : Originated → Round in_memory
quiet answer = record { meanwhile = λ db. db; world = world answer }

allocate-Accounts_example : Accounts 1 allocation
unfolding memory read update lookup_where scan first Allocator.allocate Allocator.rounds
    Allocator.attempt Allocator.after_reserve Dial.dial Dial.dial_new Dial.dial_call
    Dial.dial_initiated Dial.start_dialing Dial.after_originate Reservation.reserve_pair
    Reservation.claim_agent Reservation.claim_agents Reservation.claim_borrower
    Reservation.claim_borrowers Reservation.with_agent Reservation.with_borrower
    Agents.find_claimable_agents Agents.candidate_window Agents.try_reserve_agent Agents.can_reserve
    Agents.reserve Agents.build_lease_fields Agents.transition_agent Agents.can_move Agents.move
    Agents.bind_call Agents.time_accounting_updates AgentSm.validate_transition
    Borrowers.find_claimable_borrowers Borrowers.is_claimable Borrowers.try_reserve_borrower
    Borrowers.reserve Calls.create_call Calls.new_call Calls.derive Calls.transition_call
    Calls.can_advance Calls.advance Calls.attach_provider_call_id Calls.attach CallSm.is_terminal
    CallSm.rank build_idempotency_key
allocate-Accounts_example =
    allocate-Accounts fractions in_memory dialing live (λ n. quiet (Originated.accepted 50 800))
      campaign 1 5 allocation refl

abbrev claimed_agent : Agent
claimed_agent = record free_agent {
  state = AgentState.reserved;
  reserved_by = some 5;
  reserved_at = some 1000;
  lease_expires_at = some 31000;
  state_changed_at = 1000;
  state_version = 1;
}

abbrev claimed_borrower : Borrower
claimed_borrower = record free_borrower {
  status = BorrowerStatus.reserved;
  reserved_by = some 5;
  reserved_at = some 1001;
  lease_expires_at = some 31001;
  state_version = 1;
}

abbrev claimed_pair : ReservationPair
claimed_pair = record {
  campaign_id = 7;
  worker_id = 5;
  agent = claimed_agent;
  borrower = claimed_borrower;
}

abbrev silent : World
silent = world Originated.timed_out

reserve_pair-dial_frees_example :
    let r = reserve_pair in_memory settings idle clock clock 1008 Fault.never 7 5 in
    IsFreedPair fractions in_memory dialing
      (dial fractions in_memory dialing r.1 (monitors).health silent campaign claimed_pair).1
      claimed_pair
unfolding memory read update lookup_where scan first Dial.dial Dial.dial_new Dial.dial_call
    Dial.dial_initiated Dial.after_originate Dial.give_up Reservation.reserve_pair
    Reservation.claim_agent Reservation.claim_agents Reservation.claim_borrower
    Reservation.claim_borrowers Reservation.with_agent Reservation.with_borrower
    Agents.find_claimable_agents Agents.candidate_window Agents.try_reserve_agent Agents.can_reserve
    Agents.reserve Agents.build_lease_fields Borrowers.find_claimable_borrowers
    Borrowers.is_claimable Borrowers.try_reserve_borrower Borrowers.reserve Calls.create_call
    Calls.new_call Calls.derive Calls.transition_call Calls.can_advance Calls.advance
    CallSm.is_terminal CallSm.rank build_idempotency_key
reserve_pair-dial_frees_example =
    reserve_pair-dial_frees fractions in_memory dialing idle (monitors).health silent campaign 5
      claimed_pair refl refl
