-- ===== src/System.antt =====
-- The parts of the program together: the dialer workers' ticks, the events that the provider sends, the runs
-- of recovery, the releases of wrap-ups and the requests on agents, in any order and by any number of workers, on one database.
-- Before the evaluation, the allocation and each round of a tick, and between the reading and the writing of a
-- request, others may write.
pub mod Events
pub mod Claims
pub mod Dials
pub mod Sweeps
pub mod Calls
pub mod Agents
use Prim.Native.String.{String}
use smart_dialerss.Prelude.{ℕ, List, [], ◌∷◌, Option}
use smart_dialerss.CampaignRepo.{StoredCampaign}
use smart_dialerss.Database.{Collections, Db}
use smart_dialerss.Floats.{Floats}
use smart_dialerss.EventRepo.{ProviderEvent}
use smart_dialerss.EventProcessor.{process_event}
use smart_dialerss.Recovery.{ProviderCallStatus, run_sweeps}
use smart_dialerss.Safety.{Monitors}
use smart_dialerss.Dialers.{DialerSettings, Engine, select}
use smart_dialerss.Api.{post_agent_action}
use smart_dialerss.Worker.{CampaignWorld, tick_campaign}

module _ (floats : Floats) (c : Collections) (settings : DialerSettings floats) where
  -- What one of the program's tasks does: a worker's tick of a campaign, with the numbers and the health
  -- that the worker has in memory; the handling of an event; a run of the recovery sweeps; the answer to a
  -- request on an agent.
  pub data Action : Type 0 where
    ticks :
        (ℕ → Option ℕ)
        → Monitors floats
        → CampaignWorld floats c settings
        → StoredCampaign floats
        → ℕ
        → Action
    receives : (ℕ → ℕ) → ProviderEvent → Action
    recovers : (ℕ → ℕ → Option ProviderCallStatus) → ℕ → (ℕ → ℕ) → Action
    asks :
        String → Option String → (c.agents.State → c.agents.State) → (ℕ → ℕ) → ℕ → String → Action

  unfoldable pub act : Db c → Action → Db c
  act db (ticks previous_available monitors w campaign worker_id) =
      (tick_campaign floats c settings
        (record { db = db; previous_available = previous_available; monitors = monitors }) w
        campaign worker_id).db
  act db (receives clock event) = (process_event c settings.dial.base db clock event).1
  act db (recovers status now clock) = (run_sweeps c settings.dial.base status db now clock).1
  act db (asks api_key x_api_key meanwhile clock agent_id action) = record db {
    agents =
        (post_agent_action c.agents api_key x_api_key db.agents meanwhile clock agent_id action).1;
  }

  unfoldable pub act_all : Db c → List Action → Db c
  unfolding act
  act_all db [] = db
  act_all db (a ∷ actions) = act_all (act db a) actions
