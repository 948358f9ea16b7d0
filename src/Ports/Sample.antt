-- ===== src/Ports/Sample.antt =====
-- A registry (src/libs/shared/port/port-registry.service.ts) with one port, whose adapters count
-- their calls.
use app_tu_phuc_vu.Prelude.{
  ℕ, ◌+◌, ◌*◌, ◌≡◌, refl, ◌%◌, ◌∷◌, true, false, Option, none, some, [], ◌==◌, leb, if◌then◌else◌,
  ok, err, arith,
}
use app_tu_phuc_vu.Prelude.OrderedMap
use app_tu_phuc_vu.Prelude.Text.{Text, codes, text_eq, starts_with}
use app_tu_phuc_vu.Cache.Glob.{star, matches}
use app_tu_phuc_vu.Cache.Memory
use app_tu_phuc_vu.Cache.Memory.{make_room, evict_first, delete_by_pattern, get_full_key}
use app_tu_phuc_vu.Cache.Memory.Patterns.{IsLine}
use app_tu_phuc_vu.Inbound
use app_tu_phuc_vu.Resilience.Breaker.{
  record_success, record_failure, should_open, should_attempt_reset,
}
use app_tu_phuc_vu.Ports.Types.{timeout_or_other, PartialPortConfig, PortEnv, PortEntry, Adapter}
use app_tu_phuc_vu.Ports.Fallback
use app_tu_phuc_vu.Ports.Fallback.{get_cached, set_cached}
use app_tu_phuc_vu.Ports.Methods.{is_mutation_method}
use app_tu_phuc_vu.Ports.Registry.{PortRegistry, register, resolve_config, build_cache_key}
use app_tu_phuc_vu.Ports.Degraded.{PortCall, execute_fallback, execute_with_queue}
use app_tu_phuc_vu.Ports.Success.{after_success}
use app_tu_phuc_vu.Ports.Execute.{
  execute, through_idempotency, through_cache, through_breaker, call_adapter,
}

-- A hash of digits.
abbrev pub digits : Text → Text
digits [] = []
digits (c ∷ text) = (c % 10 + b'0') ∷ digits text

pub digits-IsLine : (text : Text) → IsLine (digits text)
digits-IsLine [] = tt
digits-IsLine (c ∷ text) = (ground arith, digits-IsLine text)

-- Parameters are a number, of which 13 makes the service fail; an answer tells who asked.
abbrev pub env : PortEnv
env = record {
  Data = ℕ;
  Params = ℕ;
  Context = ℕ;
  World = ℕ;
  JobId = ℕ;
  is_null = λ d. false;
  stringify = λ method params. params ∷ method;
  hash = digits;
  enqueue = λ payload w. (some w, w);
  reaches = λ failures requests threshold. leb (threshold * requests) (failures * 100);
  mock_mode = false;
  endpoint_config = λ name. none;
  has_idempotency = true;
  has_queue = true;
}

abbrev pub service : Adapter env
service context method params w =
    if params == 13 then (err timeout_or_other, w + 1) else (ok (context * 100 + params), w + 1)

abbrev pub no_overrides : PartialPortConfig
no_overrides = record {
  cache_tier = none;
  cache_ttl = none;
  timeout = none;
  queue_policy = none;
  circuit_breaker = none;
  active = none;
}

abbrev pub profile : Text
profile = codes "customer-profile"

abbrev pub unregistered : PortRegistry env
unregistered = record {
  ports = [];
  circuit_breakers = [];
  fallback = record { fallbacks = []; fallback_cache = some [] };
  cache = record { cache = []; key_prefix = codes "ioc:"; max_entries = 1000 };
  world = 0;
}

unfoldable pub calls : Unit {0}
unfolding execute through_idempotency through_cache through_breaker call_adapter execute_with_queue
    execute_fallback after_success Fallback.execute Fallback.register get_cached set_cached
    Memory.get Memory.set make_room evict_first delete_by_pattern get_full_key Inbound.check
    Inbound.store Inbound.build_cache_key OrderedMap.get OrderedMap.put OrderedMap.has
    OrderedMap.delete text_eq starts_with is_mutation_method matches star record_success
    record_failure should_open should_attempt_reset register resolve_config build_cache_key
calls = tt

abbrev pub call_of : ℕ → Text → ℕ → Option Text → PortCall env
call_of context method params key = record {
  port_name = profile;
  method = method;
  params = params;
  idempotency_key = key;
  context = context;
}

abbrev pub read_7 : PortCall env
read_7 = call_of 1 (codes "get-profile") 7 none

unfoldable pub start : PortRegistry env
unfolding calls
start = register env 0 profile service service no_overrides unregistered

abbrev pub port : PortEntry env
port = record {
  mock_adapter = service;
  live_adapter = service;
  config = resolve_config env profile no_overrides;
}

pub known : OrderedMap.get start.ports profile ≡ some port
unfolding calls start
known = refl
