-- ===== src/Database.antt =====
-- The four collections that the event processor, the allocator and recovery write, and their states.
use smart_dialerss.AgentRepo.{AgentCollection}
use smart_dialerss.BorrowerRepo.{BorrowerCollection}
use smart_dialerss.CallRepo.{CallCollection}
use smart_dialerss.EventRepo.{EventCollection}

pub record Collections : Type 1 where
  pub agents : AgentCollection
  pub borrowers : BorrowerCollection
  pub calls : CallCollection
  pub events : EventCollection

pub record Db (c : Collections) : Type 0 where
  pub agents : c.agents.State
  pub borrowers : c.borrowers.State
  pub calls : c.calls.State
  pub events : c.events.State
