-- ===== src/Lib.antt =====
-- Smart Dialer: a dialer for call centres over MongoDB, in Python. Workers reserve an agent and a
-- borrower as a pair, hand calls to a telephone provider, apply the provider's events to calls, agents
-- and borrowers, and recover what dead workers leave behind. All state that workers share is in the
-- database, and every change of a document is one atomic find_one_and_update with a filter.
--
-- How the parts stand together. The dialer worker (app/workers/dialer_worker.py) lets a dialer tick for
-- each running campaign. A tick (app/dialers/base.py) takes a snapshot, lets the pacing engine
-- (app/pacing) ask for calls, lets the safety controller (app/safety) read the counts in the database and
-- approve a number, and hands that number to the allocator (app/services/call_allocator.py). It reserves
-- a pair for each approved call through the reservation service, creates the call, starts it at the
-- provider and releases the pair if that fails. The provider's events come back to the event processor
-- (app/services/event_processor.py), which moves the call, its agent and its borrower by the
-- repositories. The recovery worker (app/workers/recovery_worker.py) sweeps expired leases, stale calls
-- and lost agents. Agents log in and out by the API (app/api).
--
-- Which file models which part:
--   Enums, Models            app/models
--   AgentSm, CallSm          app/state_machines
--   Store                    the database driver: the interface `Collection` and its behaviour, a
--                            collection in memory that meets it, and rules for sequences of updates
--   AgentRepo, BorrowerRepo, CallRepo, EventRepo   the repositories of the same names
--   Config, Database         app/config.py; the four collections together
--   EventProcessor           app/services/event_processor.py
--   Reservation              app/services/reservation_service.py
--   Floats                   the operations on floats that the code uses, a parameter
--   Availability, ProviderHealth   app/services/agent_availability.py, provider_health.py and
--                            retry_service.py
--   SafetyModels, Constraints, Safety   app/safety
--   Dial, Allocator          app/services/call_allocator.py: one dial, and the loop over the approved
--   Pacing, Snapshot         app/pacing
--   Dialers                  app/dialers, with the tick that joins pacing, safety and allocation
--   CampaignRepo             app/repositories/campaign_repo.py
--   Worker                   app/workers/dialer_worker.py and app/services/wrap_up_service.py
--   System                   the workers' ticks, the events, recovery and the requests on agents together, in
--                            any order
--   Simulation               app/simulation/agent_simulator.py, fault_injector.py and invariants.py
--   MockProvider             app/providers/mock_base.py and mock_b.py
--   Api                      app/api: the requests that change an agent or a campaign
--   Recovery                 app/workers/recovery_worker.py
--   Utilization              app/metrics/utilization.py
--   Examples                 the theorems at concrete inputs
--
-- How state and operations correspond. A repository method is a function of the same name that takes
-- the state of its collection, the time and the arguments of the method, and gives back the result and
-- the new state; None is `none`. Its filter and its update are functions of their own on one document
-- (can_reserve and reserve for try_reserve_agent). A service takes the state of all collections. What
-- several workers do is a sequence of such writes in the order in which they reach the database.
--
-- Bounds and fuel. Dates are milliseconds, as the database stores them, but for the timestamp of a
-- provider's event, which is in microseconds until it is stored; numbers are not bounded, as in Python. Every loop of the
-- modelled code runs over a list or over range(n), and the model recurs on that list or number, so that
-- no function has fuel.
--
-- Parameters. The driver and the provider are not part of the program. The driver is the interface
-- Store.Collection, whose laws are the documented behaviour of atomic updates and unique indexes. It
-- raises only DuplicateKeyError and, where a function has an argument `fails` or `fault`, the exception that
-- the code handles there. The provider's answers, the readings of the clock and new ids are arguments.
--
-- Interleavings. At the level of a repository any sequence of writes is considered, in the order in which
-- they reach the database. In System, where whole actions run one after another, others may write before
-- the evaluation, the allocation and each round of a tick, and between the reading and the writing of a
-- request; the handling of one event, a run of the sweeps and one dial are taken in one piece there.
--
-- Not modelled: the simulation's engine and reports, the metrics for display, the dashboard, the tools,
-- start-up and listings, logging, stored decisions, the tasks that repeat the workers' runs, and the
-- cancellation of tasks: they are input and output, or timing that the language's runtime decides.
pub mod Prelude
pub mod Enums
pub mod AgentSm
pub mod CallSm
pub mod Store
pub mod Models
pub mod AgentRepo
pub mod BorrowerRepo
pub mod CallRepo
pub mod Config
pub mod EventRepo
pub mod Database
pub mod EventProcessor
pub mod Reservation
pub mod Floats
pub mod Availability
pub mod ProviderHealth
pub mod SafetyModels
pub mod Constraints
pub mod Safety
pub mod Dial
pub mod Dialers
pub mod Worker
pub mod System
pub mod MockProvider
pub mod Api
pub mod Simulation
pub mod Snapshot
pub mod Allocator
pub mod Examples
pub mod Recovery
pub mod Utilization
pub mod Pacing
pub mod CampaignRepo
