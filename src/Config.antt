-- ===== src/Config.antt =====
-- app/config.py: the whole-number settings that the modelled code reads.
use smart_dialerss.Prelude.{ℕ}

pub record Settings : Type 0 where
  pub reservation_ttl_seconds : ℕ
  pub agent_heartbeat_timeout_seconds : ℕ
  pub call_stale_timeout_seconds : ℕ
  pub wrap_up_seconds : ℕ
  pub max_call_attempts : ℕ
  pub retry_backoff_base_seconds : ℕ
  pub recovery_sweep_limit : ℕ
