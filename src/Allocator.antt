-- ===== src/Allocator.antt =====
-- `allocate` of app/services/call_allocator.py. The driver may raise in the reservation of a pair, where
-- the allocator counts the attempt as contended; the cancellation of the worker's task is left out, as
-- are the counters of the metrics and logging.
pub mod Counts
use smart_dialerss.Prelude.{
  ℕ, zero, suc, Bool, true, false, ◌||◌, Option, none, some, leb, if◌then◌else◌,
}
use smart_dialerss.Models.{Campaign}
use smart_dialerss.Database.{Collections, Db}
use smart_dialerss.Floats.{Floats}
use smart_dialerss.ProviderHealth.{HealthManager}
use smart_dialerss.Reservation.{ReservationPair, Reserved, reserve_pair}
use smart_dialerss.Dial.{World, DialSettings, dial}

-- The constant MAX_CONSECUTIVE_CONTENTIONS
abbrev pub max_consecutive_contentions : ℕ
max_consecutive_contentions = 3

pub record AllocationResult : Type 0 where
  pub attempted : ℕ
  pub allocated : ℕ
  pub failed : ℕ
  pub contended : ℕ

-- The counters of `allocate`, and whether an exception has ended it
pub record Progress : Type 0 where
  pub result : AllocationResult
  pub consecutive_contentions : ℕ
  pub raised : Bool

abbrev pub contend : Progress → Progress
contend g = record {
  result = record g.result {
    attempted = suc g.result.attempted;
    contended = suc g.result.contended;
  };
  consecutive_contentions = suc g.consecutive_contentions;
  raised = g.raised;
}

abbrev pub score : Option Bool → Progress → Progress
score none g = record {
  result = record g.result { attempted = suc g.result.attempted };
  consecutive_contentions = 0;
  raised = true;
}
score (some dialled) g = record {
  result = record {
    attempted = suc g.result.attempted;
    allocated = if dialled then suc g.result.allocated else g.result.allocated;
    failed = if dialled then g.result.failed else suc g.result.failed;
    contended = g.result.contended;
  };
  consecutive_contentions = 0;
  raised = g.raised;
}

abbrev pub no_progress : Progress
no_progress = record {
  result = record { attempted = 0; allocated = 0; failed = 0; contended = 0 };
  consecutive_contentions = 0;
  raised = false;
}

module _ (c : Collections) where
  -- What a round meets: what other processes write before it, and the world outside the database
  pub record Round : Type 0 where
    pub meanwhile : Db c → Db c
    pub world : World

module _ (floats : Floats) (c : Collections) (settings : DialSettings floats) where
  -- The state of the database and of the health manager
  pub record Live : Type 0 where
    pub db : Db c
    pub health : HealthManager floats

  -- One round of the loop from the answer of `reserve_pair` on
  unfoldable pub after_reserve : World → Campaign → Progress → Live → Reserved → Progress × Live
  after_reserve w campaign g s Reserved.nothing = (contend g, s)
  after_reserve w campaign g s Reserved.raised = (contend g, s)
  after_reserve w campaign g s (Reserved.pair p) =
      let (dialled, db', m') = dial floats c settings s.db s.health w campaign p in
      (score dialled g, record { db = db'; health = m' })

  unfoldable pub attempt : Live → World → Campaign → ℕ → Progress → Progress × Live
  unfolding after_reserve
  attempt s w campaign worker_id g =
      let (r, db') =
        reserve_pair c settings.base s.db w.clock_a w.clock_b (w.clock 8) w.fault campaign.id
          worker_id in
      after_reserve w campaign g (record s { db = db' }) r

  -- `for _ in range(approved)`; `each n` is what the n-th round meets.
  unfoldable pub rounds : ℕ → Live → (ℕ → Round c) → Campaign → ℕ → Progress → Progress × Live
  unfolding attempt
  rounds zero s each campaign worker_id g = (g, s)
  rounds (suc n) s each campaign worker_id g =
      let before : Live = record s { db = (each 0).meanwhile s.db } in
      let (g', s') = attempt before (each 0).world campaign worker_id g in
      let rest = rounds n s' (λ k. each (suc k)) campaign worker_id g' in
      if g'.raised || leb max_consecutive_contentions g'.consecutive_contentions
      then (g', s')
      else rest

  -- None stands for the exception.
  unfoldable pub allocate : Live → (ℕ → Round c) → Campaign → ℕ → ℕ → Option AllocationResult × Live
  unfolding rounds
  allocate s each campaign approved worker_id =
      let (g, s') = rounds approved s each campaign worker_id no_progress in
      (if g.raised then none else some g.result, s')
