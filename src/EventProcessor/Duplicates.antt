-- ===== src/EventProcessor/Duplicates.antt =====
-- An event that the provider sends again.
use smart_dialerss.Prelude.{ℕ, ◌≡◌, ◌∙◌, refl, ap, List, [], ◌∷◌, is_some, Bool-cases, inl, inr}
use smart_dialerss.Enums.{EventProcessingStatus, call_state_eq, agent_state_eq}
use smart_dialerss.Config.{Settings}
use smart_dialerss.EventRepo.{
  ProviderEvent, EventKey, event_key, event_key_eq, document, record_event,
}
use smart_dialerss.Database.{Collections, Db}
use smart_dialerss.EventProcessor.{process_event}
use smart_dialerss.EventProcessor.Recording.{
  Marks, event-Marks, IsKnown, insert_known, insert_makes_known, insert_refused, mark_known,
}

module _ (c : Collections) (settings : Settings) where
  -- A recorded event stays recorded, whatever events are processed.
  pub process_event-IsKnown :
      (db : Db c) (clock : ℕ → ℕ) (e : ProviderEvent) (key : EventKey)
      → IsKnown c settings key db
      → IsKnown c settings key (process_event c settings db clock e).1
  unfolding process_event record_event Marks
  process_event-IsKnown db clock e key known =
      let s = db.events in
      let kept = insert_known c settings s (document (clock 3) e) key known in
      elim (Bool-cases (c.events.insert_one s (document (clock 3) e)).0) [
        | inr again ↦ rw (again, process_event, record_event) kept
        | inl first ↦
            let db' : Db c = record db {
              events = (c.events.insert_one s (document (clock 3) e)).1;
            } in
            let (status, transition, left) = event-Marks c settings db' clock e in
            rw (first, process_event, record_event)
              (ap (λ t. is_some (c.events.find_one t key)) left
                ∙ mark_known c settings db'.events (event_key e) key status transition kept)
      ]

  pub process_event_records :
      (db : Db c) (clock : ℕ → ℕ) (e : ProviderEvent)
      → IsKnown c settings (event_key e) (process_event c settings db clock e).1
  unfolding process_event record_event Marks
  process_event_records db clock e =
      let s = db.events in
      let kept = insert_makes_known c settings s (document (clock 3) e) in
      elim (Bool-cases (c.events.insert_one s (document (clock 3) e)).0) [
        | inr again ↦ rw (again, process_event, record_event) kept
        | inl first ↦
            let db' : Db c = record db {
              events = (c.events.insert_one s (document (clock 3) e)).1;
            } in
            let (status, transition, left) = event-Marks c settings db' clock e in
            rw (first, process_event, record_event)
              (ap (λ t. is_some (c.events.find_one t (event_key e))) left
                ∙ mark_known c settings db'.events (event_key e) (event_key e) status transition
                    kept)
      ]

  -- Events in the order in which they are processed, each with its clock.
  unfoldable pub process_all : Db c → List ((ℕ → ℕ) × ProviderEvent) → Db c
  process_all db [] = db
  process_all db ((clock, e) ∷ es) = process_all (process_event c settings db clock e).1 es

  pub process_all-IsKnown :
      (es : List ((ℕ → ℕ) × ProviderEvent)) (db : Db c) (key : EventKey)
      → IsKnown c settings key db
      → IsKnown c settings key (process_all db es)
  unfolding process_all
  process_all-IsKnown [] db key known = known
  process_all-IsKnown ((clock, e) ∷ es) db key known =
      process_all-IsKnown es (process_event c settings db clock e).1 key
        (process_event-IsKnown db clock e key known)

  pub process_event-known :
      (db : Db c) (clock : ℕ → ℕ) (e : ProviderEvent)
      → IsKnown c settings (event_key e) db
      → let r = process_event c settings db clock e in
        (r.0.status ≡ EventProcessingStatus.duplicate_ignored)
        × (r.1.calls ≡ db.calls)
        × (r.1.agents ≡ db.agents)
        × (r.1.borrowers ≡ db.borrowers)
  unfolding process_event record_event
  process_event-known db clock e known =
      rw
        (
          insert_refused c settings db.events (document (clock 3) e) known,
          process_event,
          record_event,
        )
        (refl, refl, refl, refl)

  -- Once an event has been processed, an event with the same provider and event id is reported as a
  -- duplicate, however many other events come between, and changes no call, agent or borrower.
  pub process_event-again :
      (db : Db c) (clock clock' : ℕ → ℕ) (e e' : ProviderEvent)
      (between : List ((ℕ → ℕ) × ProviderEvent))
      → event_key e' ≡ event_key e
      → let before = process_all (process_event c settings db clock e).1 between in
        let r = process_event c settings before clock' e' in
        (r.0.status ≡ EventProcessingStatus.duplicate_ignored)
        × (r.1.calls ≡ before.calls)
        × (r.1.agents ≡ before.agents)
        × (r.1.borrowers ≡ before.borrowers)
  process_event-again db clock clock' e e' between same =
      process_event-known (process_all (process_event c settings db clock e).1 between) clock' e'
        (rw same (process_all-IsKnown between _ (event_key e) (process_event_records db clock e)))
