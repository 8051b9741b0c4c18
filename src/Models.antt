-- ===== src/Models.antt =====
-- app/models: the documents of the collections. Identifiers, worker ids, provider names and phone
-- numbers are only compared by the program and stand as numbers; a date is its number of
-- milliseconds, the resolution in which it is stored. Left out are the fields that no modelled code
-- reads: the names, and `created_at` of an agent and of a borrower.
use Prim.Native.String.{String}
use smart_dialerss.Prelude.{ℕ, ◌*◌, Bool, ◌&&◌, Option, Eq, nat_eq, ◌==◌, ◌≡◌, ◌↔◌, true, arith}
use smart_dialerss.Enums.{
  AgentState, CallState, BorrowerStatus, CampaignStatus, DialingMode, EventProcessingStatus,
}

-- timedelta(seconds=n)
abbrev pub seconds : ℕ → ℕ
seconds n = n * 1000

pub record Agent : Type 0 where
  pub id : ℕ
  pub campaign_id : ℕ
  pub state : AgentState
  pub state_version : ℕ
  pub reserved_by : Option ℕ
  pub reserved_at : Option ℕ
  pub lease_expires_at : Option ℕ
  pub current_call_id : Option ℕ
  pub last_heartbeat_at : Option ℕ
  pub state_changed_at : ℕ
  pub busy_time_ms : ℕ
  pub available_time_ms : ℕ
  pub connected_time_ms : ℕ
  pub wrap_up_time_ms : ℕ

pub record Borrower : Type 0 where
  pub id : ℕ
  pub campaign_id : ℕ
  pub phone_number : ℕ
  pub status : BorrowerStatus
  pub state_version : ℕ
  pub reserved_by : Option ℕ
  pub reserved_at : Option ℕ
  pub lease_expires_at : Option ℕ
  pub attempt_count : ℕ
  pub last_attempt_at : Option ℕ
  pub next_eligible_at : ℕ

-- The four parts that `build_idempotency_key` joins by colons. The identifiers are UUIDs, which hold
-- no colon, so that the joined text determines the parts.
pub record IdempotencyKey : Type 0 where
  pub campaign : ℕ
  pub agent : ℕ
  pub borrower : ℕ
  pub attempt_number : ℕ

unfoldable pub build_idempotency_key : ℕ → ℕ → ℕ → ℕ → IdempotencyKey
build_idempotency_key campaign_id agent_id borrower_id attempt = record {
  campaign = campaign_id;
  agent = agent_id;
  borrower = borrower_id;
  attempt_number = attempt;
}

abbrev same_key : IdempotencyKey → IdempotencyKey → Bool
same_key a b =
    a.campaign == b.campaign
    && a.agent == b.agent
    && a.borrower == b.borrower
    && a.attempt_number == b.attempt_number

pub same_key_iff : (a b : IdempotencyKey) → (same_key a b ≡ true) ↔ (a ≡ b)
same_key_iff a b = ground arith

instance abbrev pub key_eq : Eq IdempotencyKey
key_eq = record { beq = same_key; beq_iff = same_key_iff }

pub record Call : Type 0 where
  pub id : ℕ
  pub campaign_id : ℕ
  pub agent_id : ℕ
  pub borrower_id : ℕ
  pub state : CallState
  pub state_rank : ℕ
  pub terminal : Bool
  pub provider_name : ℕ
  pub provider_call_id : Option ℕ
  pub idempotency_key : IdempotencyKey
  pub created_by_worker : ℕ
  pub attempt : ℕ
  pub failure_reason : Option String
  pub created_at : ℕ
  pub initiated_at : Option ℕ
  pub ringing_at : Option ℕ
  pub answered_at : Option ℕ
  pub connected_at : Option ℕ
  pub ended_at : Option ℕ
  pub updated_at : ℕ

pub record Campaign : Type 0 where
  pub id : ℕ
  pub status : CampaignStatus
  pub dialing_mode : DialingMode
  pub max_concurrent_calls : ℕ
  pub provider_name : ℕ

-- app/models/provider_event.py, the stored form of an event
pub record StoredEvent : Type 0 where
  pub provider_name : ℕ
  pub provider_event_id : ℕ
  pub provider_call_id : ℕ
  pub event_type : String
  pub provider_timestamp : Option ℕ
  pub received_at : ℕ
  pub processing_status : Option EventProcessingStatus
  pub applied_transition : Option (CallState × CallState)
