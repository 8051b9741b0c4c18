-- ===== src/System/Calls.antt =====
-- What a call goes through while the whole program runs.
use smart_dialerss.Prelude.{ℕ, ◌≡◌, ◌∙◌, refl, sym, ap, List, [], ◌∷◌, Option, none, some, All}
use smart_dialerss.Models.{Call}
use smart_dialerss.CampaignRepo.{StoredCampaign}
use smart_dialerss.CallRepo.Progress.{IsWellFormed, Follows, run-Follows}
use smart_dialerss.CallRepo.Reach.{Reaches, Reaches-refl, Reaches-trans, Reaches-eq}
use smart_dialerss.Database.{Collections, Db}
use smart_dialerss.Floats.{Floats}
use smart_dialerss.Dialers.{Dialer, DialerSettings, TickResult, TickWorld, Engine, select, tick}
use smart_dialerss.Worker.{CampaignWorld, after_tick, tick_campaign}
use smart_dialerss.System.{Action, ticks, receives, recovers, asks, act, act_all}
use smart_dialerss.System.Events.{process_event-Reaches}
use smart_dialerss.System.Dials.{AreFair, allocate-Reaches}
use smart_dialerss.System.Sweeps.{run_sweeps-Reaches}

module _ (floats : Floats) (c : Collections) (settings : DialerSettings floats) where
  -- What others write between the steps of a tick and between its rounds are creations, transitions and attachments as well, as far
  -- as the calls are concerned.
  abbrev pub IsFairTick : TickWorld floats c → Type 0
  IsFairTick w =
      ((db : Db c) → Reaches c.calls db.calls (w.before_evaluation db).calls)
      × ((db : Db c) → Reaches c.calls db.calls (w.before_allocation db).calls)
      × AreFair floats c settings.dial w.each

  abbrev pub IsFair : Action floats c settings → Type 0
  IsFair (ticks previous_available monitors w campaign worker_id) = IsFairTick w.tick_world
  IsFair (receives clock event) = Unit
  IsFair (recovers status now clock) = Unit
  IsFair (asks api_key x_api_key meanwhile clock agent_id action) = Unit

  tick-Reaches :
      (dialer : Dialer) (e : Engine floats c) (w : TickWorld floats c)
      (campaign : StoredCampaign floats) (worker_id : ℕ)
      → IsFairTick w
      → Reaches c.calls e.db.calls (tick floats c settings dialer e w campaign worker_id).1.db.calls
  unfolding tick
  tick-Reaches dialer e w campaign worker_id (evaluation, allocation, each) =
      Reaches-trans c.calls (evaluation e.db) (
        Reaches-trans c.calls (allocation (w.before_evaluation e.db))
          (allocate-Reaches floats c settings.dial _ w.each campaign.campaign _ worker_id each))

  after_tick-calls :
      (w : CampaignWorld floats c settings) (id : ℕ) (o : Option (TickResult floats))
      (e : Engine floats c)
      → (after_tick floats c settings w id (o, e)).db.calls ≡ e.db.calls
  after_tick-calls w id none e = refl
  after_tick-calls w id (some r) e = refl

  act-Reaches :
      (db : Db c) (a : Action floats c settings)
      → IsFair a
      → Reaches c.calls db.calls (act floats c settings db a).calls
  unfolding act tick_campaign
  act-Reaches db (ticks previous_available monitors w campaign worker_id) fair =
      let e : Engine floats c = record {
        db = db;
        previous_available = previous_available;
        monitors = monitors;
      } in
      let dialer = select campaign.campaign.dialing_mode in
      let r = tick floats c settings dialer e w.tick_world campaign worker_id in
      Reaches-trans c.calls (tick-Reaches dialer e w.tick_world campaign worker_id fair)
        (Reaches-eq c.calls (after_tick-calls w campaign.campaign.id r.0 r.1))
  act-Reaches db (receives clock event) fair =
      process_event-Reaches c settings.dial.base db clock event
  act-Reaches db (recovers status now clock) fair =
      run_sweeps-Reaches c settings.dial.base status db now clock
  act-Reaches db (asks api_key x_api_key meanwhile clock agent_id action) fair =
      Reaches-refl c.calls db.calls

  act_all-Reaches :
      (actions : List (Action floats c settings)) (db : Db c)
      → All IsFair actions
      → Reaches c.calls db.calls (act_all floats c settings db actions).calls
  unfolding act_all
  act_all-Reaches [] db fair = Reaches-refl c.calls db.calls
  act_all-Reaches (a ∷ actions) db (fair, rest) =
      Reaches-trans c.calls (act-Reaches db a fair)
        (act_all-Reaches actions (act floats c settings db a) rest)

  -- While the program runs (ticks of any workers and campaigns, events, recovery sweeps and requests on agents, in any order,
  -- with others writing calls before the evaluation, the allocation and each round of a tick), a well-formed call stays stored under its id and
  -- well formed, its rank never falls, and once it has ended its state, its end date and its reason never
  -- change.
  pub act_all-Follows :
      (actions : List (Action floats c settings)) (db : Db c) (j : ℕ) (call : Call)
      → All IsFair actions
      → c.calls.find_one db.calls j ≡ some call
      → IsWellFormed call
      → (d : Call) × (c.calls.find_one (act_all floats c settings db actions).calls j ≡ some d)
        × Follows call d
  act_all-Follows actions db j call fair here wf =
      let reached = act_all-Reaches actions db fair in
      let (d, found, follows) = run-Follows c.calls reached.steps db.calls j call here wf in
      (d, ap (λ s. c.calls.find_one s j) (sym reached.leads) ∙ found, follows)
