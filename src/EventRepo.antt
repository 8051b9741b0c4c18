-- ===== src/EventRepo.antt =====
-- app/repositories/event_repo.py over the driver's interface, and the event of app/providers/base.py.
-- A stored event is found by the pair of its unique index. The timestamp of the provider's event is in
-- microseconds, which the driver cuts to milliseconds when it stores a date.
use Prim.Native.String.{String}
use smart_dialerss.Prelude.{
  ℕ, ◌*◌, ◌/◌, ◌≡◌, ◌↔◌, Bool, true, ◌&&◌, List, map, reverse, Option, none, some, Eq, nat_eq, ◌==◌,
  if◌then◌else◌, arith,
}
use smart_dialerss.Enums.{CallState, EventProcessingStatus}
use smart_dialerss.Models.{StoredEvent}
use smart_dialerss.Store.{Collection}

-- `payload_reason` is payload.get("reason"), the only part of the payload that the program reads.
pub record ProviderEvent : Type 0 where
  pub provider_name : ℕ
  pub provider_event_id : ℕ
  pub provider_call_id : ℕ
  pub event_type : String
  pub provider_timestamp : ℕ
  pub payload_reason : Option String

pub record EventKey : Type 0 where
  pub provider : ℕ
  pub event : ℕ

abbrev pub same_event : EventKey → EventKey → Bool
same_event a b = a.provider == b.provider && a.event == b.event

pub same_event_iff : (a b : EventKey) → (same_event a b ≡ true) ↔ (a ≡ b)
same_event_iff a b = ground arith

instance abbrev pub event_key_eq : Eq EventKey
event_key_eq = record { beq = same_event; beq_iff = same_event_iff }

abbrev pub stored_key : StoredEvent → EventKey
stored_key d = record { provider = d.provider_name; event = d.provider_event_id }

abbrev pub event_key : ProviderEvent → EventKey
event_key e = record { provider = e.provider_name; event = e.provider_event_id }

abbrev pub event_clash : StoredEvent → StoredEvent → Bool
event_clash a b = stored_key a == stored_key b

abbrev pub EventCollection : Type 1
EventCollection = Collection event_key_eq stored_key event_clash

pub data EventRecordResult : Type 0 where
  recorded duplicate : EventRecordResult

-- A date of datetime as the driver stores it, in milliseconds, and one that it reads, in microseconds
abbrev pub store_date : ℕ → ℕ
store_date microseconds = microseconds / 1000

abbrev pub load_date : ℕ → ℕ
load_date milliseconds = milliseconds * 1000

-- What is stored of an event; `received_at` is the clock's reading as it is stored.
abbrev pub document : ℕ → ProviderEvent → StoredEvent
document received_at e = record {
  provider_name = e.provider_name;
  provider_event_id = e.provider_event_id;
  provider_call_id = e.provider_call_id;
  event_type = e.event_type;
  provider_timestamp = some (store_date e.provider_timestamp);
  received_at = received_at;
  processing_status = none;
  applied_transition = none;
}

-- `document.provider_timestamp or document.received_at`
abbrev pub timestamp_or : Option ℕ → ℕ → ℕ
timestamp_or none received_at = received_at
timestamp_or (some t) received_at = t

-- `_to_provider_event`; the payload of an event is not stored.
unfoldable pub to_provider_event : StoredEvent → ProviderEvent
to_provider_event d = record {
  provider_name = d.provider_name;
  provider_event_id = d.provider_event_id;
  provider_call_id = d.provider_call_id;
  event_type = d.event_type;
  provider_timestamp = load_date (timestamp_or d.provider_timestamp d.received_at);
  payload_reason = none;
}

module _ (events : EventCollection) where
  open events use {State, find_one, find, find_unlimited, insert_one, find_one_and_update}

  unfoldable pub record_event : State → ℕ → ProviderEvent → EventRecordResult × State
  record_event s received_at e =
      let (inserted, s') = insert_one s (document received_at e) in
      (if inserted then EventRecordResult.recorded else EventRecordResult.duplicate, s')

  unfoldable pub mark_processed :
      State → EventKey → EventProcessingStatus → Option (CallState × CallState) → State
  mark_processed s key status transition =
      (find_one_and_update s key (λ _. true)
        (λ d. record d { processing_status = some status; applied_transition = transition })).1

  unfoldable pub find_by_provider_event_id : State → EventKey → Option StoredEvent
  find_by_provider_event_id s key = find_one s key

  -- In the order in which they were received
  unfoldable pub find_for_call : State → ℕ → List StoredEvent
  find_for_call s provider_call_id = find_unlimited s (λ d. d.provider_call_id == provider_call_id)

  unfoldable pub find_provider_events_for_call : State → ℕ → List ProviderEvent
  unfolding find_for_call to_provider_event
  find_provider_events_for_call s provider_call_id =
      map to_provider_event (find_for_call s provider_call_id)

  -- The latest events, `find` gives them with the latest first.
  unfoldable pub find_latest : State → ℕ → List ProviderEvent
  unfolding to_provider_event
  find_latest s limit = map to_provider_event (reverse (find s (λ d. true) limit))
