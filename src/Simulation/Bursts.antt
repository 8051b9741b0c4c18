-- ===== src/Simulation/Bursts.antt =====
-- Events that are replayed.
use mathlib.Core.List.{reverse_aux}
use smart_dialerss.Prelude.{
  ℕ, suc, ◌≡◌, ◌∙◌, refl, Bool, true, List, [], ◌∷◌, reverse, map, Option, none, some, All, nat_eq,
  ◌==◌,
}
use smart_dialerss.Models.{StoredEvent}
use smart_dialerss.Config.{Settings}
use smart_dialerss.EventRepo.{
  ProviderEvent, event_key, stored_key, to_provider_event, find_latest,
  find_provider_events_for_call, find_for_call,
}
use smart_dialerss.Database.{Collections, Db}
use smart_dialerss.EventProcessor.{process_event}
use smart_dialerss.EventProcessor.Duplicates.{process_event-IsKnown, process_event-known}
use smart_dialerss.EventProcessor.Recording.{IsKnown, is_some-of}
use smart_dialerss.Simulation.{replayable_events, replay, duplicate_event_burst, out_of_order_burst}

All-imp :
    {A : Type 0} (P Q : A → Type 0) (xs : List A) → ((x : A) → P x → Q x) → All P xs → All Q xs
All-imp P Q [] f h = tt
All-imp P Q (x ∷ xs) f (p, ps) = (f x p, All-imp P Q xs f ps)

All-map :
    {A B : Type 0} (P : B → Type 0) (f : A → B) (xs : List A)
    → All (λ x. P (f x)) xs
    → All P (map f xs)
All-map P f [] h = tt
All-map P f (x ∷ xs) (p, ps) = (p, All-map P f xs ps)

All-reverse_aux :
    {A : Type 0} (P : A → Type 0) (xs rest : List A)
    → All P xs
    → All P rest
    → All P (reverse_aux xs rest)
All-reverse_aux P [] rest h k = k
All-reverse_aux P (x ∷ xs) rest (p, ps) k = All-reverse_aux P xs (x ∷ rest) ps (p, k)

module _ (c : Collections) (settings : Settings) where
  -- The two databases hold the same calls, agents and borrowers.
  abbrev pub IsUnchanged : Db c → Db c → Type 0
  IsUnchanged db db' =
      (db'.calls ≡ db.calls) × (db'.agents ≡ db.agents) × (db'.borrowers ≡ db.borrowers)

  replay-IsUnchanged :
      (es : List ProviderEvent) (db : Db c) (clocks : ℕ → ℕ → ℕ)
      → All (λ e. IsKnown c settings (event_key e) db) es
      → IsUnchanged db (replay c settings db clocks es)
  unfolding replay
  replay-IsUnchanged [] db clocks known = (refl, refl, refl)
  replay-IsUnchanged (e ∷ es) db clocks (known, knowns) =
      let db' = (process_event c settings db (clocks 0) e).1 in
      let (_, calls, agents, borrowers) = process_event-known c settings db (clocks 0) e known in
      let (calls', agents', borrowers') =
        replay-IsUnchanged es db' (λ k. clocks (suc k))
          (All-imp _ _ es
            (λ e' k. process_event-IsKnown c settings db (clocks 0) e (event_key e') k) knowns) in
      (calls' ∙ calls, agents' ∙ agents, borrowers' ∙ borrowers)

  stored-IsKnown :
      (db : Db c) (p : StoredEvent → Bool) (ds : List StoredEvent)
      → All (λ d. (p d ≡ true) × (c.events.find_one db.events (stored_key d) ≡ some d)) ds
      → All (λ d. IsKnown c settings (event_key (to_provider_event d)) db) ds
  unfolding to_provider_event
  stored-IsKnown db p ds h = All-imp _ _ ds (λ d k. is_some-of d k.1) h

  replayable-IsKnown :
      (db : Db c) (provider_call_id : Option ℕ)
      → All
          (λ e. IsKnown c settings (event_key e) db)
          (replayable_events c settings db provider_call_id)
  unfolding replayable_events find_latest find_provider_events_for_call find_for_call
  replayable-IsKnown db none =
      let ds = c.events.find db.events (λ d. true) 20 in
      All-map _ to_provider_event (reverse ds) (
        All-reverse_aux _ ds []
          (stored-IsKnown db (λ d. true) ds (c.events.find_members db.events (λ d. true) 20)) tt)
  replayable-IsKnown db (some id) = All-map _ to_provider_event _ (
      stored-IsKnown db _ _
        (c.events.find_unlimited_members db.events (λ d. d.provider_call_id == id)))

  -- A burst of duplicate events, and one in the reverse order, of the events of one call or of the latest
  -- events of all, changes no call, no agent and no borrower.
  pub bursts-IsUnchanged :
      (db : Db c) (clocks : ℕ → ℕ → ℕ) (provider_call_id : Option ℕ)
      → IsUnchanged db (duplicate_event_burst c settings db clocks provider_call_id).1
        × IsUnchanged db (out_of_order_burst c settings db clocks provider_call_id).1
  unfolding duplicate_event_burst out_of_order_burst
  bursts-IsUnchanged db clocks provider_call_id =
      let known = replayable-IsKnown db provider_call_id in
      (
        replay-IsUnchanged _ db clocks known,
        replay-IsUnchanged _ db clocks (All-reverse_aux _ _ [] known tt),
      )
