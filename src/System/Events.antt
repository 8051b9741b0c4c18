-- ===== src/System/Events.antt =====
-- What the event processor does to the calls.
use smart_dialerss.Prelude.{ℕ, ◌≡◌, arith, Option-cases, Bool-cases, inl, inr}
use smart_dialerss.Enums.{CallState}
use smart_dialerss.CallSm.{should_apply_event}
use smart_dialerss.Models.{Call}
use smart_dialerss.Config.{Settings}
use smart_dialerss.CallRepo.{find_by_provider_call_id, transition_call}
use smart_dialerss.CallRepo.Reach.{
  Reaches, Reaches-refl, Reaches-trans, Reaches-eq, transition_call-Reaches,
}
use smart_dialerss.EventRepo.{ProviderEvent, document, record_event}
use smart_dialerss.Database.{Collections, Db}
use smart_dialerss.EventProcessor.{
  event_type_to_call_state, failure_reason, ignored_applicability_status, finish, move_agent,
  apply_agent_transition, release_call_borrower, apply_to_parties, apply_to_call, apply_event,
  process_event,
}

module _ (c : Collections) (settings : Settings) where
  parties-calls :
      (db : Db c) (clock : ℕ → ℕ) (call : Call) (target : CallState)
      → (apply_to_parties c settings db clock call target).calls ≡ db.calls
  unfolding apply_to_parties apply_agent_transition move_agent release_call_borrower
  parties-calls db clock call target = ground arith

  apply_to_call-Reaches :
      (db : Db c) (clock : ℕ → ℕ) (e : ProviderEvent) (call : Call) (target : CallState)
      → Reaches c.calls db.calls (apply_to_call c settings db clock e call target).1.calls
  unfolding apply_to_call finish
  apply_to_call-Reaches db clock e call target =
      let r = transition_call c.calls db.calls (clock 0) call.id target (failure_reason e target) in
      let moved =
        transition_call-Reaches c.calls db.calls (clock 0) call.id target
          (failure_reason e target) in
      elim (Option-cases (ignored_applicability_status (should_apply_event call.state target))) [
        | inr (status, ignored) ↦ rw (ignored, apply_to_call) (Reaches-refl c.calls db.calls)
        | inl applies ↦ elim (Option-cases r.0) [
          | inl lost ↦ rw (applies, lost, apply_to_call) moved
          | inr (call', won) ↦
              rw (applies, won, apply_to_call)
                (Reaches-trans c.calls moved (
                  Reaches-eq c.calls
                    (parties-calls (record db { calls = r.1 }) clock call' target)))
        ]
      ]

  apply_event-Reaches :
      (db : Db c) (clock : ℕ → ℕ) (e : ProviderEvent)
      → Reaches c.calls db.calls (apply_event c settings db clock e).1.calls
  unfolding apply_event finish
  apply_event-Reaches db clock e =
      elim (Option-cases
        (find_by_provider_call_id c.calls db.calls e.provider_name e.provider_call_id)) [
          | inl unknown ↦ rw (unknown, apply_event) (Reaches-refl c.calls db.calls)
          | inr (call, found) ↦ elim (Option-cases (event_type_to_call_state e.event_type)) [
            | inl other ↦ rw (found, other, apply_event) (Reaches-refl c.calls db.calls)
            | inr (target, known) ↦
                rw (found, known, apply_event) (apply_to_call-Reaches db clock e call target)
          ]
        ]

  pub process_event-Reaches :
      (db : Db c) (clock : ℕ → ℕ) (e : ProviderEvent)
      → Reaches c.calls db.calls (process_event c settings db clock e).1.calls
  unfolding process_event record_event
  process_event-Reaches db clock e =
      elim (Bool-cases (c.events.insert_one db.events (document (clock 3) e)).0) [
        | inr again ↦ rw (again, process_event, record_event) (Reaches-refl c.calls db.calls)
        | inl first ↦ rw (first, process_event, record_event) (apply_event-Reaches _ clock e)
      ]
