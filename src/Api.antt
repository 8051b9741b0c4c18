-- ===== src/Api.antt =====
-- The handlers of app/api/routes_agents.py and app/api/routes_campaigns.py that change state, with the
-- dependencies of app/api/dependencies.py and the error handlers of app/api/errors.py. An answer is the
-- record itself, or the error that the client is told; `meanwhile` is what others write between a
-- handler's reading and its writing. The driver raises nothing here.
pub mod Served
pub mod Errors
use Prim.Native.String.{String}
use text.Mathlib.Text.{◌==◌ as str_eq}
use smart_dialerss.Prelude.{ℕ, Bool, true, false, not, ◌&&◌, Option, none, some, if◌then◌else◌}
use smart_dialerss.Enums.{AgentState, CampaignStatus, DialingMode}
use smart_dialerss.AgentSm.{TransitionActor, StateMachineError, Outcome, returns, raises}
use smart_dialerss.Models.{Agent}
use smart_dialerss.AgentRepo.{AgentCollection, transition_agent, heartbeat}
use smart_dialerss.AgentRepo as Agents
use smart_dialerss.CampaignRepo.{StoredCampaign, CampaignCollection, set_status, set_dialing_mode}
use smart_dialerss.CampaignRepo as Campaigns
use smart_dialerss.Floats.{Floats}

-- The exceptions that reach the error handlers
pub data Failure : Type 0 where
  not_found_error : Failure
  conflict_error : Failure
  unauthorized_error : Failure
  state_machine_error : StateMachineError → Failure
  unexpected : Failure

abbrev pub status_code : Failure → ℕ
status_code Failure.not_found_error = 404
status_code Failure.conflict_error = 409
status_code Failure.unauthorized_error = 401
status_code (Failure.state_machine_error _) = 409
status_code Failure.unexpected = 500

abbrev pub error_code : Failure → String
error_code Failure.not_found_error = "not_found"
error_code Failure.conflict_error = "conflict"
error_code Failure.unauthorized_error = "unauthorized"
error_code (Failure.state_machine_error _) = "conflict"
error_code Failure.unexpected = "internal_error"

pub data Answer (A : Type 0) : Type 0 where
  answers : A → Answer A
  fails : Failure → Answer A

-- `to_record` or `to_summary` of what the repository returned; None raises an AttributeError.
abbrev pub answer_of : {A : Type 0} → Option A → Answer A
answer_of none = Answer.fails Failure.unexpected
answer_of (some a) = Answer.answers a

-- AGENT_ACTIONS.get(action)
unfoldable pub agent_actions : String → Option AgentState
agent_actions action =
    if str_eq action "login"
    then some AgentState.available
    else if str_eq action "logout"
    then some AgentState.offline
    else if str_eq action "pause"
    then some AgentState.paused
    else if str_eq action "resume"
    then some AgentState.available
    else none

-- The header against the setting, by which no key is asked for if it is empty
unfoldable pub require_api_key : String → Option String → Option Failure
require_api_key api_key none = if str_eq api_key "" then none else some Failure.unauthorized_error
require_api_key api_key (some x_api_key) =
    if str_eq api_key ""
    then none
    else if str_eq x_api_key api_key
    then none
    else some Failure.unauthorized_error

-- A handler behind the check of the key
abbrev pub secured : {A S : Type 0} → Option Failure → S → Answer A × S → Answer A × S
secured none s answer = answer
secured (some failure) s answer = (Answer.fails failure, s)

module _ (agents : AgentCollection) where
  open agents use {State}

  -- The heartbeat, and the agent as it is then
  unfoldable pub beat : State → ℕ → ℕ → Answer Agent × State
  beat s now agent_id =
      let s' = (heartbeat agents s now agent_id).1 in
      (answer_of (Agents.find_by_id agents s' agent_id), s')

  -- `agent_action` from the answer of `transition_agent` on, for an agent that was moved
  unfoldable pub after_move : State → ℕ → ℕ → String → Agent → Answer Agent × State
  unfolding beat
  after_move s now agent_id action updated =
      if str_eq action "login" then beat s now agent_id else (Answer.answers updated, s)

  -- `agent_action` from the answer of `transition_agent` on, in a state in which it raised nothing
  unfoldable pub after_transition :
      State → ℕ → ℕ → String → Outcome (Option Agent × State) → Answer Agent × State
  unfolding after_move
  after_transition s now agent_id action (raises error) =
      (Answer.fails (Failure.state_machine_error error), s)
  after_transition s now agent_id action (returns (none, s')) =
      (Answer.fails Failure.conflict_error, s')
  after_transition s now agent_id action (returns (some updated, s')) =
      after_move s' now agent_id action updated

  -- `agent_action` from the target on, for the agent that was read
  unfoldable pub act :
      State → (State → State) → (ℕ → ℕ) → String → Agent → AgentState → Answer Agent × State
  unfolding after_transition
  act s meanwhile clock action agent target =
      after_transition (meanwhile s) (clock 1) agent.id action (
        transition_agent agents (meanwhile s) (clock 0) agent.id agent.state target
          TransitionActor.agent agent.state_version)

  unfoldable pub agent_action :
      State → (State → State) → (ℕ → ℕ) → ℕ → String → Answer Agent × State
  unfolding beat act
  agent_action s meanwhile clock agent_id action = elim (Agents.find_by_id agents s agent_id) [
    | none ↦ (Answer.fails Failure.not_found_error, s)
    | some agent ↦
        if str_eq action "heartbeat"
        then beat s (clock 0) agent.id
        else (elim (agent_actions action) [
          | none ↦ (Answer.fails Failure.not_found_error, s)
          | some target ↦ act s meanwhile clock action agent target
        ])
  ]

  -- The request to /agents/{agent_id}/{action}
  unfoldable pub post_agent_action :
      String → Option String → State → (State → State) → (ℕ → ℕ) → ℕ → String → Answer Agent × State
  unfolding require_api_key agent_action
  post_agent_action api_key x_api_key s meanwhile clock agent_id action =
      secured (require_api_key api_key x_api_key) s (agent_action s meanwhile clock agent_id action)

-- CampaignAction and STATUS_ACTIONS
pub data CampaignAction : Type 0 where
  start pause stop : CampaignAction

abbrev pub status_actions : CampaignAction → CampaignStatus
status_actions CampaignAction.start = CampaignStatus.running
status_actions CampaignAction.pause = CampaignStatus.paused
status_actions CampaignAction.stop = CampaignStatus.stopped

module _ (floats : Floats) (campaigns : CampaignCollection floats) where
  open campaigns use {State}

  -- `require_campaign`, then the handler's write
  unfoldable pub with_campaign :
      State
      → ℕ
      → (StoredCampaign floats → Option (StoredCampaign floats) × State)
      → Answer (StoredCampaign floats) × State
  with_campaign s campaign_id write = elim (Campaigns.find_by_id floats campaigns s campaign_id) [
    | none ↦ (Answer.fails Failure.not_found_error, s)
    | some campaign ↦ let (updated, s') = write campaign in (answer_of updated, s')
  ]

  unfoldable pub change_status : State → ℕ → CampaignAction → Answer (StoredCampaign floats) × State
  unfolding with_campaign
  change_status s campaign_id action =
      with_campaign s campaign_id
        (λ k. set_status floats campaigns s k.campaign.id (status_actions action))

  unfoldable pub set_mode : State → ℕ → DialingMode → Answer (StoredCampaign floats) × State
  unfolding with_campaign
  set_mode s campaign_id mode =
      with_campaign s campaign_id (λ k. set_dialing_mode floats campaigns s k.campaign.id mode)
