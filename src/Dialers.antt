-- ===== src/Dialers.antt =====
-- app/dialers: the two dialers, the router between them, and a dialer's tick. The driver raises nothing
-- while a snapshot is made or a decision is stored; storing the decisions is left out.
pub mod Progressive
pub mod Tick
use smart_dialerss.Prelude.{ℕ, Bool, Option, none, some}
use smart_dialerss.Enums.{DialingMode}
use smart_dialerss.CampaignRepo.{StoredCampaign}
use smart_dialerss.Database.{Collections, Db}
use smart_dialerss.Floats.{Floats}
use smart_dialerss.SafetyModels.{SafetySettings, SafetyDecision}
use smart_dialerss.Safety.{Monitors, evaluate}
use smart_dialerss.Pacing.{PacingEngineConfig, compute_request}
use smart_dialerss.Snapshot.{Builder, build_snapshot}
use smart_dialerss.Dial.{World, DialSettings}
use smart_dialerss.Allocator.{Round, AllocationResult, Live, allocate}

-- What `ModeRouter` chooses from
pub data Dialer : Type 0 where
  progressive_dialer predictive_dialer : Dialer

abbrev pub select : DialingMode → Dialer
select DialingMode.progressive = Dialer.progressive_dialer
select DialingMode.predictive = Dialer.predictive_dialer

module _ (floats : Floats) where
  open floats use {F, of_nat}

  pub record DialerSettings : Type 0 where
    pub soon_free_weight : F
    pub safety_margin : F
    pub min_answer_rate : F
    pub max_answer_rate : F
    pub volatility_threshold : F
    pub volatility_factor : F
    pub max_request_per_tick : ℕ
    pub safety : SafetySettings floats
    pub dial : DialSettings floats

  abbrev pub base_config : DialerSettings → PacingEngineConfig floats
  base_config settings = record {
    soon_free_weight = settings.soon_free_weight;
    safety_margin = settings.safety_margin;
    min_answer_rate = settings.min_answer_rate;
    max_answer_rate = settings.max_answer_rate;
    volatility_threshold = settings.volatility_threshold;
    volatility_factor = settings.volatility_factor;
    max_request_per_tick = settings.max_request_per_tick;
    forced_answer_rate = none;
  }

  -- The method of each class
  unfoldable pub engine_config : Dialer → DialerSettings → PacingEngineConfig floats
  engine_config Dialer.predictive_dialer settings = base_config settings
  engine_config Dialer.progressive_dialer settings = record (base_config settings) {
    forced_answer_rate = some (of_nat 1);
    safety_margin = of_nat 1;
    soon_free_weight = of_nat 0;
  }

  pub record TickResult : Type 0 where
    pub requested : ℕ
    pub decision : SafetyDecision floats
    pub allocation : AllocationResult

  module _ (c : Collections) where
    -- What a tick meets: the clocks, whether the driver raises while the capacity is read, what other
    -- processes write between the snapshot, the evaluation and the allocation, and what each round of
    -- the allocation meets.
    pub record TickWorld : Type 0 where
      pub now : ℕ
      pub time : ℕ
      pub later : ℕ
      pub evaluated_at : ℕ
      pub evaluated_time : ℕ
      pub aged_at : ℕ
      pub fails : Bool
      pub before_evaluation : Db c → Db c
      pub before_allocation : Db c → Db c
      pub each : ℕ → Round c

    -- The state that a tick reads and writes; the health manager is shared.
    pub record Engine : Type 0 where
      pub db : Db c
      pub previous_available : ℕ → Option ℕ
      pub monitors : Monitors floats

    -- What is left after an allocation. None stands for the exception that ends it.
    abbrev pub tick_result : ℕ → SafetyDecision floats → Option AllocationResult → Option TickResult
    tick_result requested decision none = none
    tick_result requested decision (some allocation) =
        some (record { requested = requested; decision = decision; allocation = allocation })

    unfoldable pub tick :
        DialerSettings
        → Dialer
        → Engine
        → TickWorld
        → StoredCampaign floats
        → ℕ
        → Option TickResult × Engine
    unfolding engine_config
    tick settings dialer e w campaign worker_id =
        let (snapshot, built) =
          build_snapshot floats c settings.safety e.db
            (record { previous_available = e.previous_available; health = e.monitors.health }) w.now
            w.time w.later campaign in
        let request = compute_request floats snapshot (engine_config dialer settings) in
        let evaluation_db = w.before_evaluation e.db in
        let (decision, m) =
          evaluate floats c settings.safety evaluation_db
            (record e.monitors { health = built.health }) w.evaluated_at w.evaluated_time w.aged_at
            w.fails campaign.campaign request in
        let (allocation, live) =
          allocate floats c settings.dial
            (record { db = w.before_allocation evaluation_db; health = m.health }) w.each
            campaign.campaign decision.approved worker_id in
        (
          tick_result request.requested decision allocation,
          record {
            db = live.db;
            previous_available = built.previous_available;
            monitors = record m { health = live.health };
          },
        )
