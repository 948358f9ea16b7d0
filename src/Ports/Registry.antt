-- ===== src/Ports/Registry.antt =====
-- src/libs/shared/port/port-registry.service.ts: the state of the registry, its registrations, and the
-- forms of its answers.
use app_tu_phuc_vu.Prelude.{
  ℕ, ◌++◌, Bool, true, false, not, ◌&&◌, ltb, Option, none, some, [], ◌∷◌, if◌then◌else◌, or_else,
  Result,
}
use app_tu_phuc_vu.Prelude.OrderedMap
use app_tu_phuc_vu.Prelude.OrderedMap.{OrderedMap}
use app_tu_phuc_vu.Prelude.Text.{Text, codes}
use app_tu_phuc_vu.Cache.Memory.{MemoryCache}
use app_tu_phuc_vu.Inbound.{claimed, result}
use app_tu_phuc_vu.Resilience.Breaker.{CircuitBreakerOptions, CircuitBreakerState, create}
use app_tu_phuc_vu.Ports.Types.{
  CacheTier, static, dynamic, transaction, QueuePolicy, never, on_cache_miss, always, AdapterUsed,
  mock, live, PortError, PortException, PortEndpointConfig, PortConfig, PartialPortConfig, plain,
  entry, Value, fresh, from_idempotency, cached_at, PortResult, PortEnv, Adapter, PortEntry,
  is_infrastructure_error,
}
use app_tu_phuc_vu.Ports.Fallback
use app_tu_phuc_vu.Ports.Fallback.{FallbackProvider, cached_of}
use app_tu_phuc_vu.Ports.Methods.{is_mutation_method}

abbrev pub default_ttl_by_tier : CacheTier → ℕ
default_ttl_by_tier static = 43200
default_ttl_by_tier dynamic = 900
default_ttl_by_tier transaction = 0

abbrev pub default_queue_policy : CacheTier → QueuePolicy
default_queue_policy transaction = always
default_queue_policy static = on_cache_miss
default_queue_policy dynamic = on_cache_miss

abbrev pub is_transaction : CacheTier → Bool
is_transaction transaction = true
is_transaction static = false
is_transaction dynamic = false

-- `cache:v2:port:{portName}:`
abbrev pub port_prefix : Text → Text
port_prefix name = codes "cache:v2:port:" ++ name ++ codes ":"

abbrev pub should_cache : Text → PortConfig → Bool
should_cache method config =
    not (is_mutation_method method)
    && not (is_transaction config.cache_tier)
    && ltb 0 config.cache_ttl

-- `idempotencyKey &&`: null and the empty text are falsy.
abbrev pub given : Option Text → Option Text
given none = none
given (some []) = none
given (some (c ∷ k)) = some (c ∷ k)

module _ (e : PortEnv) where
  pub record PortRegistry : Type 0 where
    pub ports : OrderedMap (PortEntry e)
    pub circuit_breakers : OrderedMap (CircuitBreakerOptions PortError × CircuitBreakerState)
    pub fallback : FallbackProvider (Option PortError) e.Data
    pub cache : MemoryCache (Value e.Data)
    pub world : e.World

module _ (e : PortEnv) where
  abbrev breaker_options : ℕ → ℕ → ℕ → CircuitBreakerOptions PortError
  breaker_options error_threshold reset_timeout min_requests = record {
    timeout = none;
    error_threshold = some error_threshold;
    reset_timeout = some reset_timeout;
    min_requests = some min_requests;
    error_filter = some is_infrastructure_error;
    reaches = e.reaches;
  }

  abbrev configured_breaker : Option (ℕ × ℕ × ℕ) → CircuitBreakerOptions PortError
  configured_breaker none = breaker_options 50 10000 5
  configured_breaker (some (threshold, reset, least)) = breaker_options threshold reset least

  -- The configuration without the registration's own fields.
  abbrev base_config : Text → Option PortEndpointConfig → PortConfig
  base_config name (some c) = record {
    name = name;
    cache_tier = c.cache_tier;
    cache_ttl = or_else c.cache_ttl (default_ttl_by_tier c.cache_tier);
    timeout = c.timeout;
    queue_policy = or_else c.queue_policy (default_queue_policy c.cache_tier);
    circuit_breaker = configured_breaker c.circuit_breaker;
    active = true;
  }
  base_config name none = record {
    name = name;
    cache_tier = dynamic;
    cache_ttl = 900;
    timeout = 3000;
    queue_policy = never;
    circuit_breaker = breaker_options 50 10000 5;
    active = true;
  }

  abbrev with_overrides : PartialPortConfig → PortConfig → PortConfig
  with_overrides o c = record c {
    cache_tier = or_else o.cache_tier c.cache_tier;
    cache_ttl = or_else o.cache_ttl c.cache_ttl;
    timeout = or_else o.timeout c.timeout;
    queue_policy = or_else o.queue_policy c.queue_policy;
    circuit_breaker = or_else o.circuit_breaker c.circuit_breaker;
    active = or_else o.active c.active;
  }

  unfoldable pub resolve_config : Text → PartialPortConfig → PortConfig
  resolve_config name config = with_overrides config (base_config name (e.endpoint_config name))

  unfoldable pub register :
      ℕ → Text → Adapter e → Adapter e → PartialPortConfig → PortRegistry e → PortRegistry e
  unfolding resolve_config
  register now name mock_adapter live_adapter config s =
      let resolved = resolve_config name config in
      record s {
        circuit_breakers =
            OrderedMap.put s.circuit_breakers name (resolved.circuit_breaker, create now);
        fallback = Fallback.register name (cached_of name) s.fallback;
        ports = OrderedMap.put s.ports name (record {
          mock_adapter = mock_adapter;
          live_adapter = live_adapter;
          config = resolved;
        });
      }

  -- MOCK_MODE, then the endpoint's own choice, then live.
  abbrev pub adapter_choice : Option PortEndpointConfig → AdapterUsed
  adapter_choice none = live
  adapter_choice (some c) = c.adapter

  abbrev pub adapter_used : Text → AdapterUsed
  adapter_used name = if e.mock_mode then mock else adapter_choice (e.endpoint_config name)

  abbrev pub adapter_of : AdapterUsed → PortEntry e → Adapter e
  adapter_of mock port = port.mock_adapter
  adapter_of live port = port.live_adapter

  unfoldable pub build_cache_key : Text → Text → e.Params → Text
  build_cache_key name method params = port_prefix name ++ e.hash (e.stringify method params)

  abbrev pub value_is_null : Value e.Data → Bool
  value_is_null claimed = false
  value_is_null (result (plain d)) = e.is_null d
  value_is_null (result (entry d t)) = false

  abbrev pub data_of : Value e.Data → Option (Value e.Data)
  data_of (result (entry d t)) = some (result (plain d))
  data_of (result (plain d)) = none
  data_of claimed = none

  abbrev pub cached_at_of : Value e.Data → Option ℕ
  cached_at_of (result (entry d t)) = some t
  cached_at_of (result (plain d)) = none
  cached_at_of claimed = none

  abbrev pub found : AdapterUsed → Value e.Data → PortResult e.Data
  found used v = record {
    answer = data_of v;
    adapter_used = used;
    from_cache = true;
    metadata = cached_at (cached_at_of v);
  }

  abbrev pub replayed : AdapterUsed → Value e.Data → PortResult e.Data
  replayed used v = record {
    answer = some v;
    adapter_used = used;
    from_cache = true;
    metadata = from_idempotency;
  }

  abbrev pub answered : AdapterUsed → e.Data → PortResult e.Data
  answered used d = record {
    answer = some (result (plain d));
    adapter_used = used;
    from_cache = false;
    metadata = fresh;
  }

  abbrev pub Outcome : Type 0
  Outcome = Result (PortException e.JobId) (PortResult e.Data) × PortRegistry e
