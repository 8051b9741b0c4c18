-- ===== src/Allocator/Counts.antt =====
-- The counters of an allocation.
use smart_dialerss.Prelude.{
  ℕ, zero, suc, ◌≡◌, ◌≤◌, ◌+◌, ◌⊎◌, inl, inr, Bool, true, false, ◌||◌, Option, none, some, arith,
  if◌then◌else◌, leb, refl, Bool-cases,
}
use smart_dialerss.Models.{Campaign}
use smart_dialerss.Floats.{Floats}
use smart_dialerss.Dial.{World, DialSettings}
use smart_dialerss.Database.{Collections}
use smart_dialerss.Reservation.{Reserved, reserve_pair}
use smart_dialerss.Allocator.{
  Round, Live, Progress, AllocationResult, after_reserve, attempt, rounds, allocate, no_progress,
  max_consecutive_contentions, contend, score,
}

abbrev pub one_if : Bool → ℕ
one_if b = if b then 1 else 0

-- Every attempt is counted as allocated, failed or contended, but for one that raised, and there are
-- no more consecutive contentions than contentions.
abbrev pub IsBalanced : Progress → Type 0
IsBalanced g =
    (g.result.attempted
      ≡ g.result.allocated + g.result.failed + g.result.contended + one_if g.raised)
    × (g.consecutive_contentions ≤ g.result.contended)

-- What one attempt does to the counters
data Step (g : Progress) : Progress → Type 0 where
  contended : Step g (contend g)
  scored : (o : Option Bool) → Step g (score o g)

abbrev pub IsOpen : Progress → Type 0
IsOpen g = IsBalanced g × (g.raised ≡ false)

Step-counts :
    (g g' : Progress)
    → Step g g'
    → IsOpen g
    → IsBalanced g' × (g'.result.attempted ≡ suc g.result.attempted)
Step-counts g _ contended h = (ground arith, ground arith)
Step-counts g _ (scored none) h = (ground arith, ground arith)
Step-counts g _ (scored (some true)) h = (ground arith, ground arith)
Step-counts g _ (scored (some false)) h = (ground arith, ground arith)

-- Where the loop ends: every round was made, an exception was raised, or three attempts in a row
-- met contention.
abbrev Ends : ℕ → Progress → Progress → Type 0
Ends n g g' =
    IsBalanced g'
    × (g'.result.attempted ≤ g.result.attempted + n)
    × ((g'.result.attempted ≡ g.result.attempted + n)
        ⊎ (g'.raised ≡ true)
        ⊎ (max_consecutive_contentions ≤ g'.consecutive_contentions))

-- What an allocation returns counts every attempt as allocated, failed or contended, attempts no more
-- than the approved number, and attempts fewer only after at least three contended attempts.
abbrev pub Accounts : ℕ → AllocationResult → Type 0
Accounts approved r =
    (r.attempted ≡ r.allocated + r.failed + r.contended)
    × (r.attempted ≤ approved)
    × ((r.attempted ≡ approved) ⊎ (max_consecutive_contentions ≤ r.contended))

report :
    (n : ℕ) (g : Progress) (r : AllocationResult)
    → Ends n no_progress g
    → (if g.raised then none else some g.result) ≡ some r
    → Accounts n r
report n g r ends h = (ground arith, ground arith, ground arith)

module _ (floats : Floats) (c : Collections) (settings : DialSettings floats) where
  after_reserve-Step :
      (w : World) (campaign : Campaign) (g : Progress) (s : Live floats c settings) (r : Reserved)
      → Step g (after_reserve floats c settings w campaign g s r).0
  unfolding after_reserve
  after_reserve-Step w campaign g s Reserved.nothing = contended
  after_reserve-Step w campaign g s Reserved.raised = contended
  after_reserve-Step w campaign g s (Reserved.pair p) = scored _

  attempt-Step :
      (s : Live floats c settings) (w : World) (campaign : Campaign) (worker_id : ℕ) (g : Progress)
      → Step g (attempt floats c settings s w campaign worker_id g).0
  unfolding attempt
  attempt-Step s w campaign worker_id g =
      let r =
        reserve_pair c settings.base s.db w.clock_a w.clock_b (w.clock 8) w.fault campaign.id
          worker_id in
      after_reserve-Step w campaign g (record s { db = r.1 }) r.0

  pub rounds-Ends :
      (n : ℕ) (s : Live floats c settings) (each : ℕ → Round c) (campaign : Campaign)
      (worker_id : ℕ) (g : Progress)
      → IsOpen g
      → Ends n g (rounds floats c settings n s each campaign worker_id g).0
  unfolding rounds
  rounds-Ends zero s each campaign worker_id g h = (h.0, omega arith, inl (omega arith))
  rounds-Ends (suc n) s each campaign worker_id g h =
      let before : Live floats c settings = record s { db = (each 0).meanwhile s.db } in
      let r = attempt floats c settings before (each 0).world campaign worker_id g in
      let (balanced, one) =
        Step-counts g r.0 (attempt-Step before (each 0).world campaign worker_id g) h in
      elim (Bool-cases
        (r.0.raised || leb max_consecutive_contentions r.0.consecutive_contentions)) [
          | inl stop ↦ rw (stop, rounds) (balanced, omega arith, inr (ground arith))
          | inr go_on ↦
              rw (go_on, rounds)
                (let rest =
                    rounds-Ends n r.1 (λ k. each (suc k)) campaign worker_id r.0
                      (balanced, ground arith) in
                  (rest.0, ground arith, ground arith))
        ]

  -- For every allocation that returns a result: it counts each attempt once, as allocated, failed or
  -- contended, it makes no more attempts than were approved, and if it makes fewer, at least three were
  -- contended.
  pub allocate-Accounts :
      (s : Live floats c settings) (each : ℕ → Round c) (campaign : Campaign)
      (approved worker_id : ℕ) (r : AllocationResult)
      → (allocate floats c settings s each campaign approved worker_id).0 ≡ some r
      → Accounts approved r
  unfolding allocate
  allocate-Accounts s each campaign approved worker_id r h =
      report approved _ r
        (rounds-Ends approved s each campaign worker_id no_progress ((refl, omega arith), refl)) h
