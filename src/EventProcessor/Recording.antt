-- ===== src/EventProcessor/Recording.antt =====
-- What an event leaves in the collection of events.
use smart_dialerss.Prelude.{
  ℕ, ◌≡◌, ◌∙◌, refl, ap, Bool, true, false, Option, none, some, is_some, if◌then◌else◌, arith,
  Option-cases, inl, inr,
}
use smart_dialerss.Enums.{
  CallState, AgentState, EventProcessingStatus, call_state_eq, agent_state_eq,
}
use smart_dialerss.CallSm.{should_apply_event}
use smart_dialerss.Models.{Agent, Call, StoredEvent}
use smart_dialerss.Config.{Settings}
use smart_dialerss.CallRepo.{find_by_provider_call_id}
use smart_dialerss.EventRepo.{
  ProviderEvent, EventKey, event_key, event_key_eq, same_event, same_event_iff, stored_key,
  event_clash, mark_processed,
}
use smart_dialerss.Store.{modified}
use smart_dialerss.Database.{Collections, Db}
use smart_dialerss.EventProcessor.{
  EventProcessingResult, event_type_to_call_state, ignored_applicability_status, finish, move_agent,
  apply_to_parties, apply_to_call, apply_event,
}

pub is_some-of : {A : Type 0} {o : Option A} (a : A) → o ≡ some a → is_some o ≡ true
is_some-of a h = rw h

some-of : {A : Type 0} (o : Option A) → is_some o ≡ true → (a : A) × (o ≡ some a)
some-of o h = ground arith

modified_known :
    {A : Type 0} (hit : Bool) (p : A → Bool) (f : A → A) (o : Option A)
    → is_some o ≡ true
    → is_some (if hit then modified p f o else o) ≡ true
modified_known hit p f o h = ground arith

module _ (c : Collections) (settings : Settings) where
  move_agent-events :
      (db : Db c) (now : ℕ) (call : Call) (target : CallState) (state : AgentState) (a : Agent)
      → (move_agent c settings db now call target state a).events ≡ db.events
  unfolding move_agent
  move_agent-events db now call target state a = ground arith

  parties-events :
      (db : Db c) (clock : ℕ → ℕ) (call : Call) (target : CallState)
      → (apply_to_parties c settings db clock call target).events ≡ db.events
  unfolding apply_to_parties
  parties-events db clock call target = ground (arith)

  -- What an event that is not a duplicate leaves in the collection of events.
  unfoldable pub Marks : Db c → ProviderEvent → EventProcessingResult × Db c → Type 0
  Marks db e r =
      (status : EventProcessingStatus) × (transition : Option (CallState × CallState)) × (r.1.events
        ≡ mark_processed c.events db.events (event_key e) status transition)

  finish-Marks :
      (db db' : Db c) (e : ProviderEvent) (status : EventProcessingStatus)
      (transition : Option (CallState × CallState))
      → db'.events ≡ db.events
      → Marks db e (finish c settings db' e status transition)
  unfolding Marks finish
  finish-Marks db db' e status transition same =
      (status, transition, ap (λ s. mark_processed c.events s (event_key e) status transition) same)

  call-Marks :
      (db : Db c) (clock : ℕ → ℕ) (e : ProviderEvent) (call : Call) (target : CallState)
      → Marks db e (apply_to_call c settings db clock e call target)
  unfolding apply_to_call
  call-Marks db clock e call target =
      elim (Option-cases (ignored_applicability_status (should_apply_event call.state target))) [
        | inr (status, ignored) ↦
            rw (ignored, apply_to_call) (finish-Marks db db e status none refl)
        | inl applies ↦ rw (applies, apply_to_call) (goes _)
      ]
    where
      goes :
          (r : Option Call × c.calls.State)
          → Marks db e (elim r.0 [
            | none ↦
                finish c settings
                  (record db { calls = r.1 })
                  e
                  EventProcessingStatus.stale_ignored
                  none
            | some call' ↦
                finish c settings
                  (apply_to_parties c settings (record db { calls = r.1 }) clock call' target)
                  e
                  EventProcessingStatus.processed
                  (some (call.state, target))
          ])
      goes (none, calls') = finish-Marks db (record db { calls = calls' }) e _ none refl
      goes (some call', calls') =
          finish-Marks db _ e _ _ (parties-events (record db { calls = calls' }) clock call' target)

  pub event-Marks :
      (db : Db c) (clock : ℕ → ℕ) (e : ProviderEvent)
      → Marks db e (apply_event c settings db clock e)
  unfolding apply_event
  event-Marks db clock e =
      elim (Option-cases
        (find_by_provider_call_id c.calls db.calls e.provider_name e.provider_call_id)) [
          | inl unknown ↦ rw (unknown, apply_event) (finish-Marks db db e _ none refl)
          | inr (call, found) ↦ elim (Option-cases (event_type_to_call_state e.event_type)) [
            | inl other ↦ rw (found, other, apply_event) (finish-Marks db db e _ none refl)
            | inr (target, known) ↦
                rw (found, known, apply_event) (call-Marks db clock e call target)
          ]
        ]

  -- An event under the key has been recorded.
  abbrev pub IsKnown : EventKey → Db c → Type 0
  IsKnown key db = is_some (c.events.find_one db.events key) ≡ true

  pub insert_known :
      (s : c.events.State) (d : StoredEvent) (k : EventKey)
      → is_some (c.events.find_one s k) ≡ true
      → is_some (c.events.find_one (c.events.insert_one s d).1 k) ≡ true
  insert_known s d k known = rw (c.events.insert_stored s d k) (ground arith)

  -- An insertion stores the event, or finds it stored.
  pub insert_makes_known :
      (s : c.events.State) (d : StoredEvent)
      → is_some (c.events.find_one (c.events.insert_one s d).1 (stored_key d)) ≡ true
  insert_makes_known s d = elim (Option-cases (c.events.find_one_where s (event_clash d))) [
    | inr (old, found) ↦
        let (same, stored) = c.events.find_one_where_some s (event_clash d) old found in
        insert_known s d (stored_key d)
          (is_some-of old (ap (c.events.find_one s) ((same_event_iff _ _).0 same) ∙ stored))
    | inl nothing ↦
        let inserted : (c.events.insert_one s d).0 ≡ true =
          c.events.insert_result s d ∙ rw nothing refl in
        is_some-of d (
          c.events.insert_stored s d (stored_key d)
          ∙ rw (inserted, (same_event_iff (stored_key d) (stored_key d)).1 refl) refl)
  ]

  pub insert_refused :
      (s : c.events.State) (d : StoredEvent)
      → is_some (c.events.find_one s (stored_key d)) ≡ true
      → (c.events.insert_one s d).0 ≡ false
  insert_refused s d known = elim (Option-cases (c.events.find_one_where s (event_clash d))) [
    | inr (old, found) ↦ c.events.insert_result s d ∙ rw found refl
    | inl nothing ↦
        let (old, stored) = some-of (c.events.find_one s (stored_key d)) known in
        absurd (
          ground (
            arith,
            c.events.find_one_where_none s (event_clash d) (stored_key d) old nothing stored,
            c.events.find_one_key s (stored_key d) old stored,
            (same_event_iff (stored_key d) (stored_key old)).1,
          ))
  ]

  pub mark_known :
      (s : c.events.State) (key k : EventKey) (status : EventProcessingStatus)
      (transition : Option (CallState × CallState))
      → is_some (c.events.find_one s k) ≡ true
      → is_some (c.events.find_one (mark_processed c.events s key status transition) k) ≡ true
  unfolding mark_processed
  mark_known s key k status transition known =
      ap is_some (c.events.update_stored s key _ _ (λ d. refl) k)
      ∙ modified_known (same_event key k) (λ _. true)
          (λ d. record d { processing_status = some status; applied_transition = transition })
          (c.events.find_one s k) known
