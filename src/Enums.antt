-- ===== src/Enums.antt =====
-- app/models/enums.py: the enumerations, the rank of a call state and the terminal call states.
-- Each enumeration has its position as a number, by which two members are compared.
use smart_dialerss.Prelude.{ℕ, ◌≡◌, ◌↔◌, List, [], ◌∷◌, arith, true, Eq, nat_beq}

pub data AgentState : Type 0 where
  offline available reserved dialing connected wrap_up paused : AgentState

pub data CallState : Type 0 where
  queued reserved initiated ringing answered connected completed failed cancelled : CallState

pub data BorrowerStatus : Type 0 where
  pending reserved in_call contacted failed exhausted dnc : BorrowerStatus

pub data CampaignStatus : Type 0 where
  draft running paused stopped : CampaignStatus

pub data DialingMode : Type 0 where
  progressive predictive : DialingMode

pub data ProviderHealthStatus : Type 0 where
  healthy degraded unhealthy : ProviderHealthStatus

pub data SafetyVerdict : Type 0 where
  approved reduced rejected fallback_progressive : SafetyVerdict

pub data EventProcessingStatus : Type 0 where
  processed duplicate_ignored stale_ignored invalid_ignored : EventProcessingStatus

abbrev agent_index : AgentState → ℕ
agent_index AgentState.offline = 0
agent_index AgentState.available = 1
agent_index AgentState.reserved = 2
agent_index AgentState.dialing = 3
agent_index AgentState.connected = 4
agent_index AgentState.wrap_up = 5
agent_index AgentState.paused = 6

pub agent_index_iff :
    (a b : AgentState) → (nat_beq (agent_index a) (agent_index b) ≡ true) ↔ (a ≡ b)
agent_index_iff a b = ground arith

instance abbrev pub agent_state_eq : Eq AgentState
agent_state_eq = record {
  beq = λ a b. nat_beq (agent_index a) (agent_index b);
  beq_iff = agent_index_iff;
}

abbrev call_index : CallState → ℕ
call_index CallState.queued = 0
call_index CallState.reserved = 1
call_index CallState.initiated = 2
call_index CallState.ringing = 3
call_index CallState.answered = 4
call_index CallState.connected = 5
call_index CallState.completed = 6
call_index CallState.failed = 7
call_index CallState.cancelled = 8

pub call_index_iff : (a b : CallState) → (nat_beq (call_index a) (call_index b) ≡ true) ↔ (a ≡ b)
call_index_iff a b = ground arith

instance abbrev pub call_state_eq : Eq CallState
call_state_eq = record {
  beq = λ a b. nat_beq (call_index a) (call_index b);
  beq_iff = call_index_iff;
}

abbrev borrower_index : BorrowerStatus → ℕ
borrower_index BorrowerStatus.pending = 0
borrower_index BorrowerStatus.reserved = 1
borrower_index BorrowerStatus.in_call = 2
borrower_index BorrowerStatus.contacted = 3
borrower_index BorrowerStatus.failed = 4
borrower_index BorrowerStatus.exhausted = 5
borrower_index BorrowerStatus.dnc = 6

pub borrower_index_iff :
    (a b : BorrowerStatus) → (nat_beq (borrower_index a) (borrower_index b) ≡ true) ↔ (a ≡ b)
borrower_index_iff a b = ground arith

instance abbrev pub borrower_status_eq : Eq BorrowerStatus
borrower_status_eq = record {
  beq = λ a b. nat_beq (borrower_index a) (borrower_index b);
  beq_iff = borrower_index_iff;
}

abbrev mode_index : DialingMode → ℕ
mode_index DialingMode.progressive = 0
mode_index DialingMode.predictive = 1

pub mode_index_iff : (a b : DialingMode) → (nat_beq (mode_index a) (mode_index b) ≡ true) ↔ (a ≡ b)
mode_index_iff a b = ground arith

instance abbrev pub dialing_mode_eq : Eq DialingMode
dialing_mode_eq = record {
  beq = λ a b. nat_beq (mode_index a) (mode_index b);
  beq_iff = mode_index_iff;
}

abbrev health_index : ProviderHealthStatus → ℕ
health_index ProviderHealthStatus.healthy = 0
health_index ProviderHealthStatus.degraded = 1
health_index ProviderHealthStatus.unhealthy = 2

pub health_index_iff :
    (a b : ProviderHealthStatus) → (nat_beq (health_index a) (health_index b) ≡ true) ↔ (a ≡ b)
health_index_iff a b = ground arith

instance abbrev pub health_status_eq : Eq ProviderHealthStatus
health_status_eq = record {
  beq = λ a b. nat_beq (health_index a) (health_index b);
  beq_iff = health_index_iff;
}

-- The members in the order of the class, over which `for state in AgentState` runs.
abbrev pub all_agent_states : List AgentState
all_agent_states =
    AgentState.offline ∷ AgentState.available ∷ AgentState.reserved ∷ AgentState.dialing
    ∷ AgentState.connected ∷ AgentState.wrap_up ∷ AgentState.paused ∷ []

-- CALL_STATE_RANK
abbrev pub call_state_rank : CallState → ℕ
call_state_rank CallState.queued = 0
call_state_rank CallState.reserved = 1
call_state_rank CallState.initiated = 2
call_state_rank CallState.ringing = 3
call_state_rank CallState.answered = 4
call_state_rank CallState.connected = 5
call_state_rank CallState.completed = 6
call_state_rank CallState.failed = 6
call_state_rank CallState.cancelled = 6

-- TERMINAL_CALL_STATES
abbrev pub terminal_call_states : List CallState
terminal_call_states = CallState.completed ∷ CallState.failed ∷ CallState.cancelled ∷ []

abbrev campaign_index : CampaignStatus → ℕ
campaign_index CampaignStatus.draft = 0
campaign_index CampaignStatus.running = 1
campaign_index CampaignStatus.paused = 2
campaign_index CampaignStatus.stopped = 3

pub campaign_index_iff :
    (a b : CampaignStatus) → (nat_beq (campaign_index a) (campaign_index b) ≡ true) ↔ (a ≡ b)
campaign_index_iff a b = ground arith

instance abbrev pub campaign_status_eq : Eq CampaignStatus
campaign_status_eq = record {
  beq = λ a b. nat_beq (campaign_index a) (campaign_index b);
  beq_iff = campaign_index_iff;
}
