-- ===== src/MockProvider.antt =====
-- app/providers/mock_base.py and the outages of app/providers/mock_b.py. What the random numbers decide is
-- an argument, as are the clocks and the texts of the ids; the tasks are left out: a call is active until
-- its events are delivered or it is hung up.
pub mod Scripts
use Prim.Native.String.{String}
use smart_dialerss.Prelude.{
  ℕ, zero, suc, ◌+◌, Bool, true, false, ◌||◌, List, [], ◌∷◌, Option, none, some, nat_eq, ◌==◌, ltb,
  if◌then◌else◌,
}
use smart_dialerss.Floats.{Floats}
use smart_dialerss.EventRepo.{ProviderEvent}
use smart_dialerss.Recovery.{ProviderCallStatus}
use smart_dialerss.Dial.{Originated}

-- `scheduled[index], scheduled[index + 1] = scheduled[index + 1], scheduled[index]`
unfoldable pub swap_at {ℓ} : {A : Type ℓ} → ℕ → List A → List A
swap_at zero (x ∷ y ∷ xs) = y ∷ x ∷ xs
swap_at (suc n) (x ∷ xs) = x ∷ swap_at n xs
swap_at _ xs = xs

module _ (floats : Floats) where
  open floats use {F, of_nat, div, fmin}

  pub record MockBehaviour : Type 0 where
    pub ring_duration : F

  -- What the random numbers decide of a script: whether the call is answered, how long is talked, and the
  -- place of the two events that are swapped, and of the one that is repeated, if any.
  pub record ScriptDraws : Type 0 where
    pub answered : Bool
    pub talk_time : F
    pub swap_index : Option ℕ
    pub duplicate_index : Option ℕ

  -- `scheduled.insert(index + 1, (min(delay, 0.001), event))`
  unfoldable pub repeat_at : ℕ → List (F × ProviderEvent) → List (F × ProviderEvent)
  repeat_at n [] = []
  repeat_at zero ((delay, event) ∷ rest) = (delay, event) ∷ (fmin delay (div 1 1000), event) ∷ rest
  repeat_at (suc n) (step ∷ rest) = step ∷ repeat_at n rest

  abbrev pub apply_out_of_order : Option ℕ → List (F × ProviderEvent) → List (F × ProviderEvent)
  apply_out_of_order none scheduled = scheduled
  apply_out_of_order (some index) scheduled = swap_at index scheduled

  abbrev pub apply_duplication : Option ℕ → List (F × ProviderEvent) → List (F × ProviderEvent)
  apply_duplication none scheduled = scheduled
  apply_duplication (some index) scheduled = repeat_at index scheduled

  pub record Step : Type 0 where
    pub delay : F
    pub event_type : String
    pub reason : Option String

  -- The steps, and the status at the end
  unfoldable pub steps_of : MockBehaviour → ScriptDraws → List Step × ProviderCallStatus
  steps_of behaviour draws =
      let ringing : Step = record {
        delay = behaviour.ring_duration;
        event_type = "RINGING";
        reason = none;
      } in
      if draws.answered
      then (
        ringing
            ∷ record { delay = behaviour.ring_duration; event_type = "ANSWERED"; reason = none }
            ∷ record { delay = of_nat 0; event_type = "CONNECTED"; reason = none }
            ∷ record { delay = draws.talk_time; event_type = "COMPLETED"; reason = none }
            ∷ [],
        ProviderCallStatus.completed,
      )
      else (
        ringing
            ∷ record {
              delay = behaviour.ring_duration;
              event_type = "FAILED";
              reason = some "no_answer";
            }
            ∷ [],
        ProviderCallStatus.failed,
      )

  -- The events of the steps; `event_id index` is the text that `provider_event_id` is given, and
  -- `clock index` the time in microseconds.
  unfoldable pub schedule : ℕ → ℕ → (ℕ → ℕ) → (ℕ → ℕ) → ℕ → List Step → List (F × ProviderEvent)
  schedule name provider_call_id event_id clock index [] = []
  schedule name provider_call_id event_id clock index (step ∷ steps) =
      (
        step.delay,
        record {
          provider_name = name;
          provider_event_id = event_id index;
          provider_call_id = provider_call_id;
          event_type = step.event_type;
          provider_timestamp = clock index;
          payload_reason = step.reason;
        },
      )
      ∷ schedule name provider_call_id event_id clock (suc index) steps

  unfoldable pub build_event_script :
      ℕ
      → MockBehaviour
      → ScriptDraws
      → ℕ
      → (ℕ → ℕ)
      → (ℕ → ℕ)
      → List (F × ProviderEvent) × ProviderCallStatus
  unfolding steps_of schedule swap_at repeat_at
  build_event_script name behaviour draws provider_call_id event_id clock =
      let (steps, final_status) = steps_of behaviour draws in
      let scheduled = schedule name provider_call_id event_id clock 0 steps in
      (
        apply_duplication draws.duplicate_index (apply_out_of_order draws.swap_index scheduled),
        final_status,
      )

-- The state of a provider; a dict is a function.
pub record MockProvider : Type 0 where
  pub name : ℕ
  pub call_counter : ℕ
  pub active_calls : ℕ → Bool
  pub finished_calls : ℕ → Option ProviderCallStatus
  pub outage_until : Option ℕ
  pub originate_attempts : ℕ
  pub originate_accepted : ℕ
  pub originate_rejected : ℕ
  pub originate_timed_out : ℕ

abbrev pub until : Option ℕ → ℕ → Bool
until none time = false
until (some t) time = ltb time t

unfoldable pub is_in_outage : MockProvider → ℕ → Bool
is_in_outage m time = until m.outage_until time

unfoldable pub force_outage : MockProvider → ℕ → ℕ → MockProvider
force_outage m time seconds = record m { outage_until = some (time + seconds) }

unfoldable pub clear_outage : MockProvider → MockProvider
clear_outage m = record m { outage_until = none }

-- What happens to one attempt: whether the number is blank, whether it hangs by chance or by its latency,
-- whether it is declined, the latency that is measured, the time, and the text of the new call's id.
pub record Attempt : Type 0 where
  pub blank : Bool
  pub time : ℕ
  pub hangs : Bool
  pub too_slow : Bool
  pub declines : Bool
  pub latency_ms : ℕ
  pub call_name : ℕ → ℕ

unfoldable pub hang_until_timeout : MockProvider → Originated × MockProvider
hang_until_timeout m =
    (Originated.timed_out, record m { originate_timed_out = suc m.originate_timed_out })

unfoldable pub accept : MockProvider → Attempt → Originated × MockProvider
accept m a =
    let id = a.call_name (suc m.call_counter) in
    (
      Originated.accepted a.latency_ms id,
      record m {
        call_counter = suc m.call_counter;
        originate_accepted = suc m.originate_accepted;
        active_calls = λ i. id == i || m.active_calls i;
      },
    )

unfoldable pub originate_call : MockProvider → Attempt → Originated × MockProvider
unfolding is_in_outage hang_until_timeout accept
originate_call m a =
    let m' : MockProvider = record m { originate_attempts = suc m.originate_attempts } in
    if a.blank
    then (Originated.rejected "phone_number is required", m)
    else if is_in_outage m' a.time || a.hangs
    then hang_until_timeout m'
    else if a.too_slow
    then hang_until_timeout m'
    else if a.declines
    then (
      Originated.declined a.latency_ms (some "carrier_rejected"),
      record m' { originate_rejected = suc m'.originate_rejected },
    )
    else accept m' a

pub record ProviderHealthSnapshot : Type 0 where
  pub provider_name : ℕ
  pub in_outage : Bool
  pub originate_attempts : ℕ
  pub originate_accepted : ℕ
  pub originate_rejected : ℕ
  pub originate_timed_out : ℕ

unfoldable pub health_snapshot : MockProvider → ℕ → ProviderHealthSnapshot
unfolding is_in_outage
health_snapshot m time = record {
  provider_name = m.name;
  in_outage = is_in_outage m time;
  originate_attempts = m.originate_attempts;
  originate_accepted = m.originate_accepted;
  originate_rejected = m.originate_rejected;
  originate_timed_out = m.originate_timed_out;
}

-- The tasks are cancelled, which removes their calls.
unfoldable pub shutdown : MockProvider → MockProvider
shutdown m = record m { active_calls = λ id. false }

abbrev pub remove : ℕ → (ℕ → Bool) → ℕ → Bool
remove id calls i = if id == i then false else calls i

unfoldable pub hangup_call : MockProvider → ℕ → MockProvider
hangup_call m id =
    if m.active_calls id
    then record m {
      active_calls = remove id m.active_calls;
      finished_calls =
          λ i. if id == i then some ProviderCallStatus.completed else m.finished_calls i;
    }
    else m

-- `_deliver_events` when its events have been delivered
unfoldable pub finish_call : MockProvider → ℕ → ProviderCallStatus → MockProvider
finish_call m id final_status = record m {
  active_calls = remove id m.active_calls;
  finished_calls = λ i. if id == i then some final_status else m.finished_calls i;
}

abbrev pub status_or_unknown : Option ProviderCallStatus → ProviderCallStatus
status_or_unknown none = ProviderCallStatus.unknown
status_or_unknown (some status) = status

unfoldable pub get_call_status : MockProvider → ℕ → ProviderCallStatus
get_call_status m id =
    if m.active_calls id then ProviderCallStatus.active else status_or_unknown (m.finished_calls id)
