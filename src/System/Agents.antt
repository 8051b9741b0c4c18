-- ===== src/System/Agents.antt =====
-- What an agent goes through while the whole program runs.
pub mod Events
pub mod Sweeps
pub mod Claims
pub mod Dials
pub mod Requests
use smart_dialerss.Prelude.{
  ℕ, ◌<◌, ◌≡◌, ◌∙◌, refl, sym, ap, true, List, [], ◌∷◌, Option, none, some, All, is_some,
}
use mathlib.Core.Path.{subst}
use smart_dialerss.Enums.{AgentState}
use smart_dialerss.Models.{Agent}
use smart_dialerss.CampaignRepo.{StoredCampaign}
use smart_dialerss.AgentRepo.{release_expired_agent_lease}
use smart_dialerss.AgentRepo.Leases.{IsLeased, in_call, run-IsLeased, leased-recoverable}
use smart_dialerss.AgentRepo.Reach.{Reaches, Reaches-refl, Reaches-trans}
use smart_dialerss.Database.{Collections, Db}
use smart_dialerss.Floats.{Floats}
use smart_dialerss.Dialers.{Dialer, DialerSettings, TickResult, TickWorld, Engine, select, tick}
use smart_dialerss.Worker.{
  CampaignWorld, after_tick, tick_campaign, release_finished_wrap_ups, find_finished_wrap_ups,
}
use smart_dialerss.System.{Action, ticks, receives, recovers, asks, act, act_all}

module _ (floats : Floats) (c : Collections) (settings : DialerSettings floats) where
  -- What others write on agents between the steps of a tick or a request are the program's writes as well.
  abbrev pub IsFairTick : TickWorld floats c → Type 0
  IsFairTick w =
      ((db : Db c) → Reaches c.agents db.agents (w.before_evaluation db).agents)
      × ((db : Db c) → Reaches c.agents db.agents (w.before_allocation db).agents)
      × Dials.AreFair floats c settings.dial w.each

  abbrev pub IsFair : Action floats c settings → Type 0
  IsFair (ticks previous_available monitors w campaign worker_id) = IsFairTick w.tick_world
  IsFair (receives clock event) = Unit
  IsFair (recovers status now clock) = Unit
  IsFair (asks api_key x_api_key meanwhile clock agent_id action) =
      (s : c.agents.State) → Reaches c.agents s (meanwhile s)

  tick-Reaches :
      (dialer : Dialer) (e : Engine floats c) (w : TickWorld floats c)
      (campaign : StoredCampaign floats) (worker_id : ℕ)
      → IsFairTick w
      → Reaches c.agents e.db.agents
          (tick floats c settings dialer e w campaign worker_id).1.db.agents
  unfolding tick
  tick-Reaches dialer e w campaign worker_id (evaluation, allocation, each) =
      Reaches-trans c.agents (evaluation e.db) (
        Reaches-trans c.agents (allocation (w.before_evaluation e.db)) (
          Dials.allocate-Reaches floats c settings.dial _ w.each campaign.campaign _ worker_id
            each))

  after_tick-Reaches :
      (w : CampaignWorld floats c settings) (id : ℕ) (o : Option (TickResult floats))
      (e : Engine floats c)
      → Reaches c.agents e.db.agents (after_tick floats c settings w id (o, e)).db.agents
  unfolding release_finished_wrap_ups
  after_tick-Reaches w id none e = Reaches-refl c.agents e.db.agents
  after_tick-Reaches w id (some r) e =
      Sweeps.release_each-Reaches c.agents
        (find_finished_wrap_ups c.agents e.db.agents w.found_at settings.dial.base.wrap_up_seconds
          id)
        e.db.agents w.clock

  act-Reaches :
      (db : Db c) (a : Action floats c settings)
      → IsFair a
      → Reaches c.agents db.agents (act floats c settings db a).agents
  unfolding act tick_campaign
  act-Reaches db (ticks previous_available monitors w campaign worker_id) fair =
      let e : Engine floats c = record {
        db = db;
        previous_available = previous_available;
        monitors = monitors;
      } in
      let dialer = select campaign.campaign.dialing_mode in
      let r = tick floats c settings dialer e w.tick_world campaign worker_id in
      Reaches-trans c.agents (tick-Reaches dialer e w.tick_world campaign worker_id fair)
        (after_tick-Reaches w campaign.campaign.id r.0 r.1)
  act-Reaches db (receives clock event) fair =
      Events.process_event-Reaches c settings.dial.base db clock event
  act-Reaches db (recovers status now clock) fair =
      Sweeps.run_sweeps-Reaches c settings.dial.base status db now clock
  act-Reaches db (asks api_key x_api_key meanwhile clock agent_id action) fair =
      Requests.post_agent_action-Reaches c.agents api_key x_api_key db.agents meanwhile clock
        agent_id action fair

  act_all-Reaches :
      (actions : List (Action floats c settings)) (db : Db c)
      → All IsFair actions
      → Reaches c.agents db.agents (act_all floats c settings db actions).agents
  unfolding act_all
  act_all-Reaches [] db fair = Reaches-refl c.agents db.agents
  act_all-Reaches (a ∷ actions) db (fair, rest) =
      Reaches-trans c.agents (act-Reaches db a fair)
        (act_all-Reaches actions (act floats c settings db a) rest)

  act_all-IsLeased :
      (actions : List (Action floats c settings)) (db : Db c)
      → All IsFair actions
      → ((j : ℕ) (a : Agent) → c.agents.find_one db.agents j ≡ some a → IsLeased a)
      → (j : ℕ) (a : Agent)
      → c.agents.find_one (act_all floats c settings db actions).agents j ≡ some a
      → IsLeased a
  act_all-IsLeased actions db fair start =
      let reached = act_all-Reaches actions db fair in
      subst (λ s. (j : ℕ) (a : Agent) → c.agents.find_one s j ≡ some a → IsLeased a) reached.leads
        (run-IsLeased c.agents db.agents reached.steps reached.issued start)

  -- However the program ran (ticks of any workers and campaigns with their releases of wrap-ups, events,
  -- recovery sweeps and requests on agents, in any order, with others writing agents before the evaluation,
  -- the allocation and each round of a tick and between the reading and the writing of a request), an agent that is
  -- stored at the end as RESERVED, DIALING or CONNECTED under its own id has a holder and a lease, and at any
  -- time after the end of that lease recovery's release of it, from that state of the database, returns the
  -- agent AVAILABLE and without a holder, if every such agent had a holder and a lease at the start.
  pub act_all-recoverable :
      (actions : List (Action floats c settings)) (db : Db c)
      → All IsFair actions
      → ((j : ℕ) (a : Agent) → c.agents.find_one db.agents j ≡ some a → IsLeased a)
      → (a : Agent) → c.agents.find_one (act_all floats c settings db actions).agents a.id ≡ some a
      → in_call a.state ≡ true
      → (is_some a.reserved_by ≡ true)
        × (is_some a.lease_expires_at ≡ true)
        × ((deadline : ℕ) × (a.lease_expires_at ≡ some deadline)
            × ((now : ℕ)
                → deadline < now
                → (b : Agent) × ((release_expired_agent_lease c.agents
                      (act_all floats c settings db actions).agents
                      a
                      now).0
                    ≡ some b)
                  × (b.state ≡ AgentState.available)
                  × (b.reserved_by ≡ none)))
  act_all-recoverable actions db fair start a here busy =
      let leased = act_all-IsLeased actions db fair start a.id a here in
      (
        (leased busy).0,
        (leased busy).1,
        leased-recoverable c.agents (act_all floats c settings db actions).agents a here leased
            busy,
      )
