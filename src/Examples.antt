-- ===== src/Examples.antt =====
-- Runs of the program on a small database in memory: one campaign with an agent and a borrower, who
-- are free, and a call that rings for another agent and another borrower.
pub mod Agents
pub mod Borrowers
pub mod Calls
pub mod Dialing
pub mod Allocating
pub mod Ticking
pub mod Running
pub mod Replaying
pub mod Upkeep
use Prim.Native.String.{String}
use smart_dialerss.Prelude.{
  ℕ, ◌*◌, ◌/◌, Bool, true, false, List, [], ◌∷◌, Option, none, some, ltb, leb, nat_eq, ◌-◌, ◌+◌,
  if◌then◌else◌, ◌==◌, Eq,
}
use smart_dialerss.Enums.{
  AgentState, CallState, BorrowerStatus, CampaignStatus, DialingMode, ProviderHealthStatus,
}
use smart_dialerss.Models.{Agent, Borrower, Call, Campaign, StoredEvent}
use smart_dialerss.Config.{Settings}
use smart_dialerss.Store.Memory.{Table, memory}
use smart_dialerss.AgentRepo.{AgentCollection, agent_clash}
use smart_dialerss.BorrowerRepo.{BorrowerCollection, borrower_clash}
use smart_dialerss.CallRepo.{CallCollection, call_clash}
use smart_dialerss.EventRepo.{EventCollection, ProviderEvent, event_key_eq, stored_key, event_clash}
use smart_dialerss.Database.{Collections, Db}
use smart_dialerss.Floats.{Floats}

abbrev pub agents_in_memory : AgentCollection
agents_in_memory = memory nat_eq (λ (a : Agent). a.id) agent_clash

abbrev pub borrowers_in_memory : BorrowerCollection
borrowers_in_memory = memory nat_eq (λ (b : Borrower). b.id) borrower_clash

abbrev pub calls_in_memory : CallCollection
calls_in_memory = memory nat_eq (λ (c : Call). c.id) call_clash

abbrev pub events_in_memory : EventCollection
events_in_memory = memory event_key_eq stored_key event_clash

abbrev pub in_memory : Collections
in_memory = record {
  agents = agents_in_memory;
  borrowers = borrowers_in_memory;
  calls = calls_in_memory;
  events = events_in_memory;
}

abbrev pub settings : Settings
settings = record {
  reservation_ttl_seconds = 30;
  agent_heartbeat_timeout_seconds = 30;
  call_stale_timeout_seconds = 120;
  wrap_up_seconds = 10;
  max_call_attempts = 3;
  retry_backoff_base_seconds = 60;
  recovery_sweep_limit = 500;
}

abbrev pub free_agent : Agent
free_agent = record {
  id = 1;
  campaign_id = 7;
  state = AgentState.available;
  state_version = 0;
  reserved_by = none;
  reserved_at = none;
  lease_expires_at = none;
  current_call_id = none;
  last_heartbeat_at = none;
  state_changed_at = 0;
  busy_time_ms = 0;
  available_time_ms = 0;
  connected_time_ms = 0;
  wrap_up_time_ms = 0;
}

abbrev pub busy_agent : Agent
busy_agent = record free_agent {
  state = AgentState.dialing;
  reserved_by = some 5;
  reserved_at = some 100;
  lease_expires_at = some 30100;
  current_call_id = some 3;
}

abbrev pub free_borrower : Borrower
free_borrower = record {
  id = 2;
  campaign_id = 7;
  phone_number = 555;
  status = BorrowerStatus.pending;
  state_version = 0;
  reserved_by = none;
  reserved_at = none;
  lease_expires_at = none;
  attempt_count = 0;
  last_attempt_at = none;
  next_eligible_at = 0;
}

abbrev pub busy_borrower : Borrower
busy_borrower = record free_borrower {
  status = BorrowerStatus.reserved;
  reserved_by = some 5;
  reserved_at = some 100;
  lease_expires_at = some 30100;
}

abbrev pub ringing_call : Call
ringing_call = record {
  id = 3;
  campaign_id = 7;
  agent_id = 1;
  borrower_id = 2;
  state = CallState.ringing;
  state_rank = 3;
  terminal = false;
  provider_name = 9;
  provider_call_id = some 77;
  idempotency_key = record { campaign = 7; agent = 1; borrower = 2; attempt_number = 1 };
  created_by_worker = 5;
  attempt = 1;
  failure_reason = none;
  created_at = 100;
  initiated_at = some 110;
  ringing_at = some 120;
  answered_at = none;
  connected_at = none;
  ended_at = none;
  updated_at = 120;
}

abbrev pub campaign : Campaign
campaign = record {
  id = 7;
  status = CampaignStatus.running;
  dialing_mode = DialingMode.predictive;
  max_concurrent_calls = 10;
  provider_name = 9;
}

abbrev pub agents_of : Agent → Table ℕ Agent
agents_of a = record { keys = a.id ∷ []; body = λ _. some a }

abbrev pub borrowers_of : Borrower → Table ℕ Borrower
borrowers_of b = record { keys = b.id ∷ []; body = λ _. some b }

abbrev pub calls_of : Call → Table ℕ Call
calls_of c = record { keys = c.id ∷ []; body = λ _. some c }

abbrev pub idle : Db in_memory
unfolding memory
idle = record {
  agents = agents_of free_agent;
  borrowers = borrowers_of free_borrower;
  calls = record { keys = []; body = λ _. none };
  events = record { keys = []; body = λ _. none };
}

abbrev pub under_way : Db in_memory
unfolding memory
under_way = record {
  agents = agents_of busy_agent;
  borrowers = borrowers_of busy_borrower;
  calls = calls_of ringing_call;
  events = record { keys = []; body = λ _. none };
}

abbrev pub cancelled_event : ProviderEvent
cancelled_event = record {
  provider_name = 9;
  provider_event_id = 501;
  provider_call_id = 77;
  event_type = "CANCELLED";
  provider_timestamp = 450123;
  payload_reason = none;
}

abbrev pub ringing_event : ProviderEvent
ringing_event = record cancelled_event { provider_event_id = 502; event_type = "RINGING" }

-- Fractions m / n in place of floats
abbrev pub fractions : Floats
fractions = record {
  F = ℕ × ℕ;
  of_nat = λ n. (n, 1);
  div = λ m n. (m, n);
  mul = λ x y. (x.0 * y.0, x.1 * y.1);
  add = λ x y. (x.0 * y.1 + y.0 * x.1, x.1 * y.1);
  sub = λ x y. (x.0 * y.1 - y.0 * x.1, x.1 * y.1);
  quotient = λ x y. if y.0 == 0 then none else some (x.0 * y.1, x.1 * y.0);
  fmax = λ x y. if leb (x.0 * y.1) (y.0 * x.1) then y else x;
  fmin = λ x y. if leb (x.0 * y.1) (y.0 * x.1) then x else y;
  fabs = λ x. x;
  floor = λ x. x.0 / x.1;
  complement = λ x. (x.1 - x.0, x.1);
  gt = λ x y. ltb (y.0 * x.1) (x.0 * y.1);
  le = λ x y. leb (x.0 * y.1) (y.0 * x.1);
  int_mul = λ x n. x.0 * n / x.1;
  round_mul = λ x n. (2 * x.0 * n + x.1) / (2 * x.1);
}

abbrev pub clock : ℕ → ℕ
clock n = 1000 + n
