-- ===== src/EventProcessor/Replays.antt =====
-- What the collection of events keeps of an event, from which it is replayed.
use mathlib.Core.Option
use mathlib.Core.Path.{subst}
use smart_dialerss.Prelude.{
  ℕ, ◌*◌, ◌/◌, ◌≡◌, ◌∙◌, sym, refl, ap, Bool, true, false, List, [], ◌∷◌, Option, none, some,
  is_some, if◌then◌else◌, arith, Bool-cases, Option-cases, inl, inr,
}
use smart_dialerss.Enums.{CallState, EventProcessingStatus}
use smart_dialerss.Models.{StoredEvent}
use smart_dialerss.Config.{Settings}
use smart_dialerss.EventRepo.{
  ProviderEvent, EventKey, event_key, event_key_eq, same_event, same_event_iff, stored_key,
  event_clash, document, record_event, mark_processed, to_provider_event, find_by_provider_event_id,
}
use smart_dialerss.Store.{modified}
use smart_dialerss.Database.{Collections, Db}
use smart_dialerss.EventProcessor.{process_event}
use smart_dialerss.EventProcessor.Duplicates.{process_all}
use smart_dialerss.EventProcessor.Recording.{Marks, event-Marks, insert_refused}

-- What is read back of an event: all but its payload and the microseconds of its timestamp
abbrev pub as_kept : ProviderEvent → ProviderEvent
as_kept e = record e {
  provider_timestamp = e.provider_timestamp / 1000 * 1000;
  payload_reason = none;
}

document-event :
    (received_at : ℕ) (e : ProviderEvent) → to_provider_event (document received_at e) ≡ as_kept e
unfolding to_provider_event
document-event received_at e = refl

marked-event :
    (hit : Bool) (status : EventProcessingStatus) (transition : Option (CallState × CallState))
    (o : Option StoredEvent)
    → Option.map to_provider_event (
        if hit
        then modified
            (λ _. true)
            (λ d. record d { processing_status = some status; applied_transition = transition })
            o
        else o)
      ≡ Option.map to_provider_event o
unfolding to_provider_event
marked-event true status transition none = refl
marked-event true status transition (some d) = refl
marked-event false status transition o = refl

mapped_some :
    {A B : Type 0} (f : A → B) (o : Option A) (b : B) → Option.map f o ≡ some b → is_some o ≡ true
mapped_some f none b h = cc
mapped_some f (some a) b h = refl

module _ (c : Collections) (settings : Settings) where
  -- What the event under a key reads back as
  abbrev pub read_back : c.events.State → EventKey → Option ProviderEvent
  read_back s key = Option.map to_provider_event (c.events.find_one s key)

  mark-read_back :
      (s : c.events.State) (key k : EventKey) (status : EventProcessingStatus)
      (transition : Option (CallState × CallState))
      → read_back (mark_processed c.events s key status transition) k ≡ read_back s k
  unfolding mark_processed
  mark-read_back s key k status transition =
      ap (Option.map to_provider_event) (c.events.update_stored s key _ _ (λ d. refl) k)
      ∙ marked-event (same_event key k) status transition (c.events.find_one s k)

  process_first :
      (db : Db c) (clock : ℕ → ℕ) (e : ProviderEvent) (k : EventKey)
      → (c.events.insert_one db.events (document (clock 3) e)).0 ≡ true
      → read_back (process_event c settings db clock e).1.events k
        ≡ read_back (c.events.insert_one db.events (document (clock 3) e)).1 k
  unfolding process_event record_event Marks
  process_first db clock e k first =
      let db' : Db c = record db {
        events = (c.events.insert_one db.events (document (clock 3) e)).1;
      } in
      let (status, transition, left) = event-Marks c settings db' clock e in
      rw (first, process_event, record_event)
        (ap (λ t. read_back t k) left ∙ mark-read_back db'.events (event_key e) k status transition)

  process_again :
      (db : Db c) (clock : ℕ → ℕ) (e : ProviderEvent) (k : EventKey)
      → (c.events.insert_one db.events (document (clock 3) e)).0 ≡ false
      → read_back (process_event c settings db clock e).1.events k ≡ read_back db.events k
  unfolding process_event record_event
  process_again db clock e k again =
      rw (again, process_event, record_event)
        (ap (Option.map to_provider_event)
          (c.events.insert_stored db.events (document (clock 3) e) k ∙ rw again refl))

  -- An event that is inserted was not stored before, under its key.
  no_clash :
      (s : c.events.State) (d : StoredEvent) (x : ProviderEvent) (k : EventKey)
      → (c.events.insert_one s d).0 ≡ true
      → read_back s k ≡ some x
      → same_event (stored_key d) k ≡ false
  no_clash s d x k first here = elim (Bool-cases (same_event (stored_key d) k)) [
    | inr other ↦ other
    | inl same ↦
        let at = (same_event_iff (stored_key d) k).0 same in
        let known = mapped_some to_provider_event (c.events.find_one s k) x here in
        absurd (
          ground (
            arith,
            first,
            insert_refused c settings s d
                (subst (λ j. is_some (c.events.find_one s j) ≡ true) (sym at) known),
          ))
  ]

  -- What is read back of a recorded event stays so, whatever events are processed.
  process_event-keeps :
      (db : Db c) (clock : ℕ → ℕ) (e x : ProviderEvent) (k : EventKey)
      → read_back db.events k ≡ some x
      → read_back (process_event c settings db clock e).1.events k ≡ some x
  process_event-keeps db clock e x k here =
      let d = document (clock 3) e in
      elim (Bool-cases (c.events.insert_one db.events d).0) [
        | inr again ↦ process_again db clock e k again ∙ here
        | inl first ↦
            process_first db clock e k first
            ∙ ap (Option.map to_provider_event) (c.events.insert_stored db.events d k)
            ∙ rw (first, no_clash db.events d x k first here) here
      ]

  process_all-keeps :
      (es : List ((ℕ → ℕ) × ProviderEvent)) (db : Db c) (x : ProviderEvent) (k : EventKey)
      → read_back db.events k ≡ some x
      → read_back (process_all c settings db es).events k ≡ some x
  unfolding process_all
  process_all-keeps [] db x k here = here
  process_all-keeps ((clock, e) ∷ es) db x k here =
      process_all-keeps es (process_event c settings db clock e).1 x k
        (process_event-keeps db clock e x k here)

  inserts_new :
      (s : c.events.State) (d : StoredEvent)
      → c.events.find_one s (stored_key d) ≡ none
      → (c.events.insert_one s d).0 ≡ true
  inserts_new s d new = elim (Option-cases (c.events.find_one_where s (event_clash d))) [
    | inl nothing ↦ c.events.insert_result s d ∙ rw nothing refl
    | inr (old, found) ↦
        let (same, stored) = c.events.find_one_where_some s (event_clash d) old found in
        absurd (
          ground (
            arith,
            stored,
            ap (c.events.find_one s) ((same_event_iff (stored_key d) (stored_key old)).0 same),
            new,
          ))
  ]

  process_event-first :
      (db : Db c) (clock : ℕ → ℕ) (e : ProviderEvent)
      → c.events.find_one db.events (event_key e) ≡ none
      → read_back (process_event c settings db clock e).1.events (event_key e) ≡ some (as_kept e)
  process_event-first db clock e new =
      let d = document (clock 3) e in
      let first = inserts_new db.events d new in
      process_first db clock e (event_key e) first
      ∙ ap (Option.map to_provider_event) (c.events.insert_stored db.events d (event_key e))
      ∙ rw (first, (same_event_iff (event_key e) (event_key e)).1 refl)
          (ap some (document-event (clock 3) e))

  -- An event that is processed for the first time reads back from the collection of events as it was sent,
  -- but without its payload and with its timestamp cut to whole milliseconds, however many other events, and repetitions of it, are processed after it.
  pub process_event-read_back :
      (db : Db c) (clock : ℕ → ℕ) (e : ProviderEvent) (later : List ((ℕ → ℕ) × ProviderEvent))
      → c.events.find_one db.events (event_key e) ≡ none
      → Option.map to_provider_event (
          find_by_provider_event_id c.events
            (process_all c settings (process_event c settings db clock e).1 later).events
            (event_key e))
        ≡ some (as_kept e)
  unfolding find_by_provider_event_id
  process_event-read_back db clock e later new =
      process_all-keeps later (process_event c settings db clock e).1 (as_kept e) (event_key e)
        (process_event-first db clock e new)
