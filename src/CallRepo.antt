-- ===== src/CallRepo.antt =====
-- app/repositories/call_repo.py over the driver's interface, and the validator of app/models/call.py,
-- which recomputes the rank and the terminal flag of every call that is read.
pub mod Progress
pub mod Idempotency
pub mod Refinement
pub mod Reach
use Prim.Native.String.{String}
use mathlib.Core.Option
use text.Mathlib.Text.{◌==◌ as str_eq}
use smart_dialerss.Prelude.{
  ℕ, zero, suc, ◌+◌, ◌-◌, Bool, true, false, not, ◌&&◌, ◌||◌, List, [], ◌∷◌, Option, none, some, Eq,
  nat_eq, ◌==◌, ◌!=◌, ltb, leb, is_some, map, if◌then◌else◌,
}
use smart_dialerss.Enums.{CallState, call_state_eq}
use smart_dialerss.CallSm.{rank, is_terminal}
use smart_dialerss.Models.{Call, build_idempotency_key, key_eq}
use smart_dialerss.Store.{Collection}
use smart_dialerss.AgentRepo.{before}
use smart_dialerss.Floats.{Floats}

abbrev pub same_provider_call : Call → Option ℕ → Call → Option ℕ → Bool
same_provider_call a (some p) b (some q) = a.provider_name == b.provider_name && p == q
same_provider_call a _ b _ = false

-- `_id` and the two unique indexes of app/db_indexes.py; the one on the provider's call id leaves out
-- the calls that have none.
abbrev pub call_clash : Call → Call → Bool
call_clash a b =
    a.id == b.id
    || a.idempotency_key == b.idempotency_key
    || same_provider_call a a.provider_call_id b b.provider_call_id

abbrev pub CallCollection : Type 1
CallCollection = Collection nat_eq (λ (c : Call). c.id) call_clash

-- derive_state_rank_and_terminal, which runs in `Call(...)` and in `from_mongo`
unfoldable pub derive : Call → Call
derive c = record c { state_rank = rank c.state; terminal = is_terminal c.state }

unfoldable pub new_call : ℕ → ℕ → ℕ → ℕ → ℕ → ℕ → ℕ → ℕ → Call
unfolding derive build_idempotency_key
new_call id now campaign_id agent_id borrower_id provider_name worker_id attempt = derive (record {
  id = id;
  campaign_id = campaign_id;
  agent_id = agent_id;
  borrower_id = borrower_id;
  state = CallState.queued;
  state_rank = 0;
  terminal = false;
  provider_name = provider_name;
  provider_call_id = none;
  idempotency_key = build_idempotency_key campaign_id agent_id borrower_id attempt;
  created_by_worker = worker_id;
  attempt = attempt;
  failure_reason = none;
  created_at = now;
  initiated_at = none;
  ringing_at = none;
  answered_at = none;
  connected_at = none;
  ended_at = none;
  updated_at = now;
})

-- The filter of `transition_call`, on the stored rank and flag
unfoldable pub can_advance : CallState → Call → Bool
can_advance target_state c = not c.terminal && ltb c.state_rank (rank target_state)

-- STATE_TIMESTAMP_FIELDS: the date is written to the field of the target state.
abbrev pub stamp : CallState → ℕ → Call → Call
stamp CallState.initiated now c = record c { initiated_at = some now }
stamp CallState.ringing now c = record c { ringing_at = some now }
stamp CallState.answered now c = record c { answered_at = some now }
stamp CallState.connected now c = record c { connected_at = some now }
stamp _ now c = c

abbrev pub give_reason : Option String → Call → Call
give_reason none c = c
give_reason (some reason) c = record c { failure_reason = some reason }

unfoldable pub advance : CallState → Option String → ℕ → Call → Call
advance target_state failure_reason now c =
    let moved = record c {
      state = target_state;
      state_rank = rank target_state;
      terminal = is_terminal target_state;
      updated_at = now;
    } in
    let stamped = stamp target_state now moved in
    give_reason failure_reason
      (if is_terminal target_state then record stamped { ended_at = some now } else stamped)

unfoldable pub attach : ℕ → ℕ → Call → Call
attach provider_call_id now c = record c {
  provider_call_id = some provider_call_id;
  updated_at = now;
}

abbrev pub is_provider_call : ℕ → Option ℕ → Bool
is_provider_call pid none = false
is_provider_call pid (some q) = q == pid

-- EXPECTED_CALL_OUTCOMES
abbrev pub is_expected_outcome : Option String → Bool
is_expected_outcome none = false
is_expected_outcome (some reason) = str_eq reason "no_answer" || str_eq reason "busy"

pub record OutcomeCounts : Type 0 where
  pub total : ℕ
  pub answered : ℕ
  pub failed : ℕ
  pub system_failed : ℕ

abbrev pub within : ℕ → ℕ → Option ℕ → Bool
within start end none = false
within start end (some t) = leb start t && ltb t end

-- The optional filter on the state
abbrev pub in_state : Option CallState → CallState → Bool
in_state none state = true
in_state (some wanted) state = state == wanted

-- `$subtract` of two dates
abbrev pub between : Option ℕ → Option ℕ → ℕ
between (some start) (some end) = end - start
between _ _ = 0

module _ (calls : CallCollection) where
  open calls use {
    State, find_one, find_one_where, find, count_documents, sum_documents, find_one_and_update,
    find_one_and_update_unique, insert_one,
  }

  -- The id is that which `new_id` draws. None stands for the exception of `from_mongo(None)`, if the
  -- insertion fails and no call has the key.
  unfoldable pub create_call : State → ℕ → ℕ → ℕ → ℕ → ℕ → ℕ → ℕ → ℕ → Option Call × State
  unfolding new_call
  create_call s id now campaign_id agent_id borrower_id provider_name worker_id attempt =
      let call = new_call id now campaign_id agent_id borrower_id provider_name worker_id attempt in
      let (inserted, s') = insert_one s call in
      if inserted then (some call, s') else (
        Option.map derive (find_one_where s' (λ c. c.idempotency_key == call.idempotency_key)),
        s',
      )

  unfoldable pub find_by_id : State → ℕ → Option Call
  find_by_id s call_id = Option.map derive (find_one s call_id)

  unfoldable pub find_by_provider_call_id : State → ℕ → ℕ → Option Call
  find_by_provider_call_id s provider_name provider_call_id = Option.map derive (
      find_one_where s (λ c.
        c.provider_name == provider_name && is_provider_call provider_call_id c.provider_call_id))

  unfoldable pub attach_provider_call_id : State → ℕ → ℕ → ℕ → Option Call × State
  attach_provider_call_id s now call_id provider_call_id =
      elim (find_one_and_update_unique s call_id (λ c. not (is_some c.provider_call_id))
        (attach provider_call_id now)) [ none ↦ (none, s) | some r ↦ (Option.map derive r.0, r.1) ]

  unfoldable pub transition_call : State → ℕ → ℕ → CallState → Option String → Option Call × State
  transition_call s now call_id target_state failure_reason =
      let (document, s') =
        find_one_and_update s call_id (can_advance target_state)
          (advance target_state failure_reason now) in
      (Option.map derive document, s')

  unfoldable pub find_active : State → ℕ → ℕ → List Call
  find_active s campaign_id limit = map derive (
      find s (λ c. c.campaign_id == campaign_id && not c.terminal && c.state != CallState.queued)
        limit)

  unfoldable pub find_stale_calls : State → ℕ → ℕ → List Call
  find_stale_calls s older_than limit =
      map derive (find s (λ c. not c.terminal && ltb c.updated_at older_than) limit)

  unfoldable pub outcome_counts_between : State → ℕ → ℕ → ℕ → OutcomeCounts
  outcome_counts_between s campaign_id start end =
      let ended =
        λ (c : Call). c.campaign_id == campaign_id && c.terminal && within start end c.ended_at in
      record {
        total = count_documents s ended;
        answered = count_documents s (λ c. ended c && is_some c.answered_at);
        failed = count_documents s (λ c. ended c && c.state == CallState.failed);
        system_failed = count_documents s (λ c.
            ended c && c.state == CallState.failed && not (is_expected_outcome c.failure_reason));
      }

  unfoldable pub count_by_state : State → ℕ → CallState → ℕ
  count_by_state s campaign_id state =
      count_documents s (λ c. c.campaign_id == campaign_id && c.state == state)

  -- The average talk time in milliseconds, as the sum and the number of the calls that it is over. A
  -- call that was answered ends no earlier, so that the difference of the dates is not negative.
  unfoldable pub talk_times : State → ℕ → ℕ × ℕ
  talk_times s campaign_id =
      let p =
        λ (c : Call). c.campaign_id == campaign_id && is_some c.answered_at && is_some c.ended_at in
      (sum_documents s p (λ c. between c.answered_at c.ended_at), count_documents s p)

  unfoldable pub setup_times : State → ℕ → ℕ × ℕ
  setup_times s campaign_id =
      let p = λ (c : Call).
        c.campaign_id == campaign_id && is_some c.initiated_at && is_some c.ringing_at in
      (sum_documents s p (λ c. between c.initiated_at c.ringing_at), count_documents s p)

  abbrev pub average : (floats : Floats) → ℕ × ℕ → floats.F
  average floats (sum, zero) = floats.of_nat 0
  average floats (sum, suc n) = floats.div sum (suc n)

  -- The division by 1000.0 does not fail.
  unfoldable pub average_talk_time_seconds : (floats : Floats) → State → ℕ → floats.F
  unfolding talk_times
  average_talk_time_seconds floats s campaign_id =
      elim (floats.quotient (average floats (talk_times s campaign_id)) (floats.of_nat 1000)) [
        | none ↦ floats.of_nat 0
        | some seconds ↦ seconds
      ]

  unfoldable pub average_setup_time_ms : (floats : Floats) → State → ℕ → floats.F
  unfolding setup_times
  average_setup_time_ms floats s campaign_id = average floats (setup_times s campaign_id)

  unfoldable pub find_recent : State → ℕ → ℕ → Option CallState → List Call
  find_recent s campaign_id limit state =
      map derive (find s (λ c. c.campaign_id == campaign_id && in_state state c.state) limit)
