-- ===== src/Security/RateLimit.antt =====
-- src/libs/shared/security/rate-limiter.guard.ts: the decorator that configures a route and the guard
-- that reads the configuration. The reflect-metadata library is a parameter, with the laws that the
-- proofs use. Times are milliseconds.
pub mod Configs
use app_tu_phuc_vu.Prelude.{
  ℕ, ◌+◌, ◌-◌, ◌*◌, ◌/◌, ◌≡◌, ◌≢◌, Bool, true, leb, Option, none, some, [], ◌∷◌, ◌++◌, or_else,
  if◌then◌else◌, Result, ok, err,
}
use app_tu_phuc_vu.Prelude.Text.{Text, codes}

-- Of a request, what the key generators read; an empty address is falsy.
pub record Request : Type 0 where
  pub ip : Text
  pub user_id : Option Text

-- `window_ms` is in seconds. What is skipped is read by nothing.
pub record RateLimitConfig : Type 0 where
  pub limit : ℕ
  pub window_ms : ℕ
  pub key_generator : Option (Request → Text)
  pub message : Text

-- A controller's class; `id` tells classes of one name apart.
pub record Controller : Type 0 where
  pub id : ℕ
  pub name : Text

-- What metadata is kept on: the class, or the prototype of its instances.
pub data Target : Type 0 where
  constructor_of prototype_of : ℕ → Target

-- reflect-metadata: what is defined under one key and prototype is not found under another key, or on
-- the class itself.
pub record Metadata (M : Type 0) : Type 0 where
  pub define : Text → RateLimitConfig → Target → M → M
  pub lookup : Text → Target → M → Option RateLimitConfig
  pub lookup-define_other :
      (key key' : Text) (config : RateLimitConfig) (t t' : Target) (m : M)
      → key' ≢ key
      → lookup key t (define key' config t' m) ≡ lookup key t m
  pub lookup-define_prototype :
      (key key' : Text) (config : RateLimitConfig) (c d : ℕ) (m : M)
      → lookup key (constructor_of c) (define key' config (prototype_of d) m)
        ≡ lookup key (constructor_of c) m

abbrev pub config_key : Text → Text
config_key key = codes "rate_limit_config_" ++ key

abbrev pub dotted : Text → Text → Text
dotted name property = name ++ (codes "." ++ property)

-- RateLimit(config) above a class or above a method of it.
pub data Decoration : Type 0 where
  on_class : Controller → RateLimitConfig → Decoration
  on_method : Controller → Text → RateLimitConfig → Decoration

module _ {M : Type 0} (metadata : Metadata M) where
  -- A class is made by Function, an instance by its class.
  abbrev pub rate_limit : Decoration → M → M
  rate_limit (on_class c config) m =
      metadata.define (config_key (codes "Function")) config (constructor_of c.id) m
  rate_limit (on_method c property config) m =
      metadata.define (config_key (dotted c.name property)) config (prototype_of c.id) m

  abbrev pub or_class : Option RateLimitConfig → Option RateLimitConfig → Option RateLimitConfig
  or_class (some config) class_level = some config
  or_class none class_level = class_level

  abbrev pub get_rate_limit_config : Controller → Text → M → Option RateLimitConfig
  get_rate_limit_config c handler m =
      or_class (metadata.lookup (config_key (dotted c.name handler)) (constructor_of c.id) m)
        (metadata.lookup (config_key c.name) (constructor_of c.id) m)

-- zremrangebyscore, zadd, zcard and expire on a key at a time, with the window in seconds: none is a
-- failure, and the count may be absent from the results.
abbrev pub Pipeline : Type 0 → Type 0
Pipeline S = Text → ℕ → ℕ → S → Option (Option ℕ) × S

-- The implementations of ICacheService; the one over Redis keeps its client under a private name.
pub data CacheService (S : Type 0) : Type 0 where
  memory : CacheService S
  redis : Pipeline S → CacheService S

-- `(this.cacheService as any).client?.pipeline()`: neither service has a field `client`.
abbrev pub client_of : {S : Type 0} → CacheService S → Option (Pipeline S)
client_of memory = none
client_of (redis exec) = none

pub record RateLimitResult : Type 0 where
  pub allowed : Bool
  pub count : ℕ
  pub reset_time : ℕ

abbrev pub in_memory_result : ℕ → RateLimitConfig → RateLimitResult
in_memory_result now config = record {
  allowed = true;
  count = 0;
  reset_time = now + config.window_ms * 1000;
}

abbrev pub distributed_result : ℕ → RateLimitConfig → ℕ → RateLimitResult
distributed_result now config count = record {
  allowed = leb count config.limit;
  count = count;
  reset_time = now + config.window_ms * 1000;
}

-- By what the pipeline gave; its failure is answered by the fallback.
abbrev pub by_reply : ℕ → RateLimitConfig → Option (Option ℕ) → RateLimitResult
by_reply now config none = in_memory_result now config
by_reply now config (some count) = distributed_result now config (or_else count 0)

abbrev pub or_unknown : Text → Text
or_unknown [] = codes "unknown"
or_unknown (c ∷ ip) = c ∷ ip

abbrev pub get_default_key : Request → Text
get_default_key request = codes "rate_limit:" ++ or_unknown request.ip

abbrev pub generated : Option (Request → Text) → Request → Text
generated none request = get_default_key request
generated (some generator) request = generator request

abbrev pub key_of : RateLimitConfig → Request → Text
key_of config request = generated config.key_generator request

pub record Headers : Type 0 where
  pub limit : ℕ
  pub remaining : ℕ
  pub reset : ℕ
  pub reset_in : ℕ
  pub window_ms : ℕ
  pub count : ℕ

-- Math.ceil of a quotient by 1000.
abbrev pub ceil_seconds : ℕ → ℕ
ceil_seconds ms = (ms + 999) / 1000

abbrev pub add_rate_limit_headers : ℕ → RateLimitResult → RateLimitConfig → Headers
add_rate_limit_headers now result config = record {
  limit = config.limit;
  remaining = config.limit - result.count;
  reset = ceil_seconds result.reset_time;
  reset_in = ceil_seconds (result.reset_time - now);
  window_ms = config.window_ms;
  count = result.count;
}

-- The reply 429.
pub record TooManyRequests : Type 0 where
  pub message : Text
  pub retry_after : ℕ

-- The answer, with the headers where the route is limited.
abbrev pub judged :
    ℕ → RateLimitConfig → RateLimitResult → Result TooManyRequests Bool × Option Headers
judged now config result = (
  if result.allowed
      then ok true
      else err (record { message = config.message; retry_after = ceil_seconds result.reset_time }),
  some (add_rate_limit_headers now result config),
)

module _ {S : Type 0} where
  -- Without a pipeline the distributed check throws, and the fallback answers.
  abbrev pub by_client : Option (Pipeline S) → ℕ → Text → RateLimitConfig → S → RateLimitResult × S
  by_client none now key config s = (in_memory_result now config, s)
  by_client (some exec) now key config s =
      (by_reply now config (exec key now config.window_ms s).0, (exec key now config.window_ms s).1)

  abbrev pub check_rate_limit :
      CacheService S → ℕ → Text → RateLimitConfig → S → RateLimitResult × S
  check_rate_limit cache now key config s = by_client (client_of cache) now key config s

  abbrev pub on_config :
      CacheService S
      → ℕ
      → Request
      → Option RateLimitConfig
      → S
      → (Result TooManyRequests Bool × Option Headers) × S
  on_config cache now request none s = ((ok true, none), s)
  on_config cache now request (some config) s =
      let checked = check_rate_limit cache now (key_of config request) config s in
      (judged now config checked.0, checked.1)

  unfoldable pub can_activate :
      {M : Type 0}
      → Metadata M
      → M
      → CacheService S
      → ℕ
      → Controller
      → Text
      → Request
      → S
      → (Result TooManyRequests Bool × Option Headers) × S
  can_activate metadata m cache now c handler request s =
      on_config cache now request (get_rate_limit_config metadata c handler m) s
