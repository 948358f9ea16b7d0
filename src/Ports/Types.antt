-- ===== src/Ports/Types.antt =====
-- The types of src/libs/shared/port/port.interface.ts, port-exceptions.ts and
-- src/libs/shared/endpoint-config/endpoint-config.interface.ts, and what the registry runs on.
use app_tu_phuc_vu.Prelude.{ℕ, Bool, true, leb, Option, Result}
use app_tu_phuc_vu.Prelude.Text.{Text}
use app_tu_phuc_vu.Resilience.Breaker.{CircuitBreakerOptions}
use app_tu_phuc_vu.Inbound.{Inbound}

pub data CacheTier : Type 0 where
  static dynamic transaction : CacheTier

pub data QueuePolicy : Type 0 where
  never on_cache_miss always : QueuePolicy

pub data AdapterUsed : Type 0 where
  mock live : AdapterUsed

-- What an adapter throws: a reply with its status, or a timeout or another error.
pub data PortError : Type 0 where
  downstream : ℕ → PortError
  timeout_or_other : PortError

-- What a call through the registry throws; the cause of a failed fallback is none where the breaker
-- was open.
pub data PortException (J : Type 0) : Type 0 where
  not_registered : PortException J
  fallback_failed : Option PortError → PortException J
  queued : J → PortException J
  enqueue_failed : PortException J

-- Of an endpoint's entry in the configuration, what the registry reads.
pub record PortEndpointConfig : Type 0 where
  pub adapter : AdapterUsed
  pub timeout : ℕ
  pub cache_tier : CacheTier
  pub cache_ttl : Option ℕ
  pub queue_policy : Option QueuePolicy
  pub circuit_breaker : Option (ℕ × ℕ × ℕ)

pub record PortConfig : Type 0 where
  pub name : Text
  pub cache_tier : CacheTier
  pub cache_ttl : ℕ
  pub timeout : ℕ
  pub queue_policy : QueuePolicy
  pub circuit_breaker : CircuitBreakerOptions PortError
  pub active : Bool

-- The part of a configuration that a registration gives; none is an absent field.
pub record PartialPortConfig : Type 0 where
  pub cache_tier : Option CacheTier
  pub cache_ttl : Option ℕ
  pub timeout : Option ℕ
  pub queue_policy : Option QueuePolicy
  pub circuit_breaker : Option (CircuitBreakerOptions PortError)
  pub active : Option Bool

-- What the shared cache holds: an answer with the time of its caching, or a bare answer.
pub data Stored (D : Type 0) : Type 0 where
  plain : D → Stored D
  entry : D → ℕ → Stored D

abbrev pub Value : Type 0 → Type 0
Value D = Inbound (Stored D)

pub data PortResultMetadata : Type 0 where
  fresh from_idempotency : PortResultMetadata
  cached_at : Option ℕ → PortResultMetadata
  degraded : ℕ → PortResultMetadata
  refresh_queued : ℕ → PortResultMetadata

-- The durations are left out; data of none is undefined.
pub record PortResult (D : Type 0) : Type 0 where
  pub answer : Option (Value D)
  pub adapter_used : AdapterUsed
  pub from_cache : Bool
  pub metadata : PortResultMetadata

pub record ReplayJobPayload (P C : Type 0) : Type 0 where
  pub port_name : Text
  pub method : Text
  pub params : P
  pub idempotency_key : Option Text
  pub context : C

-- The downstream services and the queue with a state behind them, the captured context of a
-- request, JSON.stringify of a method and its parameters, the shortened hash, the configuration
-- and the optional services.
pub record PortEnv : Type 1 where
  pub Data : Type 0
  pub Params : Type 0
  pub Context : Type 0
  pub World : Type 0
  pub JobId : Type 0
  pub is_null : Data → Bool
  pub stringify : Text → Params → Text
  pub hash : Text → Text
  pub enqueue : ReplayJobPayload Params Context → World → Option JobId × World
  pub reaches : ℕ → ℕ → ℕ → Bool
  pub mock_mode : Bool
  pub endpoint_config : Text → Option PortEndpointConfig
  pub has_idempotency : Bool
  pub has_queue : Bool

abbrev pub Adapter : PortEnv → Type 0
Adapter e = e.Context → Text → e.Params → e.World → Result PortError e.Data × e.World

pub record PortEntry (e : PortEnv) : Type 0 where
  pub mock_adapter : Adapter e
  pub live_adapter : Adapter e
  pub config : PortConfig

-- 4xx replies do not count for a breaker.
abbrev pub is_infrastructure_error : PortError → Bool
is_infrastructure_error (downstream status) = leb 500 status
is_infrastructure_error timeout_or_other = true
