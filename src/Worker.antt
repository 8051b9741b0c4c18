-- ===== src/Worker.antt =====
-- app/workers/dialer_worker.py and app/services/wrap_up_service.py. One run goes through the running
-- campaigns; an exception ends the tick of its campaign alone. The task that repeats the run, and the
-- cancellation of it, are left out, as are exceptions of the driver outside the places that the ticks name.
pub mod WrapUps
use smart_dialerss.Prelude.{ℕ, suc, ◌-◌, List, [], ◌∷◌, Option, none, some}
use smart_dialerss.Enums.{AgentState}
use smart_dialerss.AgentSm.{TransitionActor, returns, raises}
use smart_dialerss.Models.{Agent, seconds}
use smart_dialerss.AgentRepo.{AgentCollection, find_expired_wrap_ups, transition_agent}
use smart_dialerss.CampaignRepo.{StoredCampaign, CampaignCollection, find_running}
use smart_dialerss.Database.{Collections, Db}
use smart_dialerss.Floats.{Floats}
use smart_dialerss.Dialers.{DialerSettings, TickResult, TickWorld, Engine, select, tick}

-- WRAP_UP_SWEEP_LIMIT
abbrev pub wrap_up_sweep_limit : ℕ
wrap_up_sweep_limit = 500

module _ (agents : AgentCollection) where
  open agents use {State}

  unfoldable pub find_finished_wrap_ups : State → ℕ → ℕ → ℕ → List Agent
  find_finished_wrap_ups s now wrap_up_seconds campaign_id =
      find_expired_wrap_ups agents s (now - seconds wrap_up_seconds) wrap_up_sweep_limit
        (some campaign_id)

  -- The loop over the agents found, at the times of the clock; an exception ends it.
  unfoldable pub release_each : State → (ℕ → ℕ) → List Agent → State
  release_each s clock [] = s
  release_each s clock (agent ∷ rest) =
      elim (transition_agent agents s (clock 0) agent.id AgentState.wrap_up AgentState.available
        TransitionActor.worker_timer agent.state_version) [
          | raises error ↦ s
          | returns r ↦ release_each r.1 (λ k. clock (suc k)) rest
        ]

  unfoldable pub release_finished_wrap_ups : State → ℕ → (ℕ → ℕ) → ℕ → ℕ → State
  unfolding find_finished_wrap_ups release_each
  release_finished_wrap_ups s now clock wrap_up_seconds campaign_id =
      release_each s clock (find_finished_wrap_ups s now wrap_up_seconds campaign_id)

module _ (floats : Floats) (c : Collections) (settings : DialerSettings floats) where
  -- What a campaign's part of a run meets besides its tick
  pub record CampaignWorld : Type 0 where
    pub tick_world : TickWorld floats c
    pub found_at : ℕ
    pub clock : ℕ → ℕ

  -- None stands for the exception of the tick, at which the wrap-ups are left.
  abbrev pub after_tick :
      CampaignWorld → ℕ → Option (TickResult floats) × Engine floats c → Engine floats c
  after_tick w campaign_id (none, e) = e
  after_tick w campaign_id (some result, e) = record e {
    db = record e.db {
      agents =
          release_finished_wrap_ups c.agents e.db.agents w.found_at w.clock
            settings.dial.base.wrap_up_seconds campaign_id;
    };
  }

  unfoldable pub tick_campaign :
      Engine floats c → CampaignWorld → StoredCampaign floats → ℕ → Engine floats c
  tick_campaign e w campaign worker_id = after_tick w campaign.campaign.id (
      tick floats c settings (select campaign.campaign.dialing_mode) e w.tick_world campaign
        worker_id)

  unfoldable pub tick_each :
      Engine floats c → (ℕ → CampaignWorld) → List (StoredCampaign floats) → ℕ → Engine floats c
  unfolding tick_campaign
  tick_each e worlds [] worker_id = e
  tick_each e worlds (campaign ∷ campaigns) worker_id =
      tick_each (tick_campaign e (worlds 0) campaign worker_id) (λ k. worlds (suc k)) campaigns
        worker_id

  -- The default limit of `find_running` is 100.
  unfoldable pub run_once :
      (campaigns : CampaignCollection floats) (s : campaigns.State)
      → Engine floats c
      → (ℕ → CampaignWorld)
      → ℕ
      → Engine floats c
  unfolding tick_each
  run_once campaigns s e worlds worker_id =
      tick_each e worlds (find_running floats campaigns s 100) worker_id
