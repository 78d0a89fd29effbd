-- ===== src/Hal/Stream.antt =====
-- crates/audesys-hal-core/src/types.rs: time stamps and the configuration of stream channels.
use audesys.Base.{ℕ, Option}

pub record Timestamp : Type 0 where
  pub secs : ℕ
  pub micros : ℕ

pub data QueuePolicy : Type 0 where
  drop_oldest backpressure drop_newest : QueuePolicy

pub data ConsumerErrorPolicy : Type 0 where
  block drop notify : ConsumerErrorPolicy

pub data CircuitBreakerAction : Type 0 where
  notify panic ignore : CircuitBreakerAction

pub record CircuitBreakerConfig : Type 0 where
  pub max_consecutive_failures : ℕ
  pub cooldown_ms : ℕ
  pub on_open : CircuitBreakerAction

pub record StreamConfig : Type 0 where
  pub queue_depth : ℕ
  pub queue_policy : QueuePolicy
  pub error_policy : ConsumerErrorPolicy
  pub circuit_breaker : Option CircuitBreakerConfig
  pub shm_threshold_bytes : ℕ
