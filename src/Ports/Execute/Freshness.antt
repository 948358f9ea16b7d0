-- ===== src/Ports/Execute/Freshness.antt =====
-- A mutation through src/libs/shared/port/port-registry.service.ts drops the port's cached reads.
use app_tu_phuc_vu.Prelude.{
  ℕ, ◌≡◌, refl, ◌∙◌, ◌++◌, Bool, true, false, Option, none, some, Result, ok, err, arith,
  Bool-cases, inl, inr,
}
use app_tu_phuc_vu.Prelude.Text.{starts_with-append_self, Text, codes, text_eq}
use app_tu_phuc_vu.Prelude.OrderedMap
use app_tu_phuc_vu.Cache.Memory
use app_tu_phuc_vu.Cache.Memory.{get_full_key, delete_by_pattern}
use app_tu_phuc_vu.Cache.Memory.Reads.{get-set_none}
use app_tu_phuc_vu.Cache.Memory.Patterns.{
  IsPlain, IsLine, IsPlain-append, IsLine-append, delete_by_pattern-get,
}
use app_tu_phuc_vu.Inbound
use app_tu_phuc_vu.Inbound.{result}
use app_tu_phuc_vu.Resilience.Breaker.{CircuitBreakerOptions, CircuitBreakerState}
use app_tu_phuc_vu.Ports.Types.{
  AdapterUsed, QueuePolicy, PortError, PortResultMetadata, fresh, from_idempotency, cached_at,
  degraded, refresh_queued, plain, PortResult, PortConfig, PortEnv, PortEntry,
}
use app_tu_phuc_vu.Ports.Fallback
use app_tu_phuc_vu.Ports.Methods.{is_mutation_method}
use app_tu_phuc_vu.Ports.Registry.{PortRegistry, adapter_used, given, build_cache_key, port_prefix}
use app_tu_phuc_vu.Ports.Degraded.{PortCall, execute_fallback, execute_with_queue}
use app_tu_phuc_vu.Ports.Success.{
  after_success, invalidate, write_cached, remember, store_idempotent, stored_under,
}
use app_tu_phuc_vu.Ports.Execute.{
  execute, through_idempotency, through_cache, through_breaker, call_adapter, settle,
}
use app_tu_phuc_vu.Ports.Execute.Inversion.{through_breaker_rule}
use app_tu_phuc_vu.Ports.Execute.Answered.{execute-Asked}

-- The answer was read from the port's cached reads.
abbrev pub is_cached_read : PortResultMetadata → Bool
is_cached_read (cached_at t) = true
is_cached_read fresh = false
is_cached_read from_idempotency = false
is_cached_read (degraded t) = false
is_cached_read (refresh_queued t) = false

port_prefix-IsPlain : (name : Text) → IsPlain name → IsPlain (port_prefix name)
port_prefix-IsPlain name h =
    IsPlain-append (codes "cache:v2:port:") (name ++ codes ":") (ground arith)
      (IsPlain-append name (codes ":") h (ground arith))

port_prefix-IsLine : (name : Text) → IsLine name → IsLine (port_prefix name)
port_prefix-IsLine name h =
    IsLine-append (codes "cache:v2:port:") (name ++ codes ":") (ground arith)
      (IsLine-append name (codes ":") h (ground arith))

module _ (e : PortEnv) where
  execute_with_queue-uncached :
      (policy : QueuePolicy) (used : AdapterUsed) (now : ℕ) (error : Option PortError)
      (c : PortCall e) (s : PortRegistry e) (x : PortResult e.Data)
      → (execute_with_queue e policy used now error c s).0 ≡ ok x
      → is_cached_read x.metadata ≡ false
  unfolding execute_with_queue execute_fallback Fallback.execute Fallback.get_cached
  execute_with_queue-uncached policy used now error c s x h = ground arith

  settle-uncached :
      (used : AdapterUsed) (ended : ℕ) (c : PortCall e) (config : PortConfig)
      (r : Result PortError e.Data) (s : PortRegistry e) (x : PortResult e.Data)
      → (settle e used ended c config r s).0 ≡ ok x
      → is_cached_read x.metadata ≡ false
  settle-uncached used ended c config (ok d) s x h = ground arith
  settle-uncached used ended c config (err error) s x h =
      execute_with_queue-uncached config.queue_policy used ended (some error) c s x h

  call_adapter-uncached :
      (used : AdapterUsed) (ended : ℕ) (c : PortCall e) (port : PortEntry e)
      (breaker : Option (CircuitBreakerOptions PortError × CircuitBreakerState))
      (s : PortRegistry e) (x : PortResult e.Data)
      → (call_adapter e used ended c port breaker s).0 ≡ ok x
      → is_cached_read x.metadata ≡ false
  unfolding call_adapter
  call_adapter-uncached used ended c port breaker s x h =
      settle-uncached used ended c port.config _ _ x h

  through_breaker-uncached :
      (used : AdapterUsed) (now ended : ℕ) (c : PortCall e) (port : PortEntry e)
      (s : PortRegistry e) (x : PortResult e.Data)
      → (through_breaker e used now ended c port s).0 ≡ ok x
      → is_cached_read x.metadata ≡ false
  through_breaker-uncached used now ended c port s x =
      through_breaker_rule e (λ o. o.0 ≡ ok x → is_cached_read x.metadata ≡ false) used now ended c
        port s (λ breaker h. call_adapter-uncached used ended c port breaker s x h)
        (λ h. execute_with_queue-uncached port.config.queue_policy used now none c s x h)

  -- No cached read of the port is left under any key.
  abbrev IsGone : Text → PortRegistry e → Type 0
  IsGone key s = OrderedMap.get s.cache.cache (get_full_key s.cache.key_prefix key) ≡ none

  invalidate-IsGone :
      (c : PortCall e) (rest : Text) (s : PortRegistry e)
      → is_mutation_method c.method ≡ true
      → IsPlain s.cache.key_prefix
      → IsLine s.cache.key_prefix
      → IsPlain c.port_name
      → IsLine c.port_name
      → IsLine rest
      → IsGone (port_prefix c.port_name ++ rest) (invalidate e c s)
  unfolding delete_by_pattern
  invalidate-IsGone c rest s mutation literal_pre line_pre literal line line_rest =
      let p = port_prefix c.port_name in
      rw mutation (
        delete_by_pattern-get p (p ++ rest) s.cache literal_pre line_pre
          (port_prefix-IsPlain c.port_name literal)
          (IsLine-append p rest (port_prefix-IsLine c.port_name line) line_rest)
        ∙ rw (starts_with-append_self p rest) refl)

  stored_under-IsGone :
      (ended : ℕ) (key : Option Text) (d : e.Data) (name rest : Text) (s : PortRegistry e)
      → IsGone (port_prefix name ++ rest) s
      → IsGone (port_prefix name ++ rest) (stored_under e ended key d s)
  unfolding Inbound.store Inbound.build_cache_key text_eq
  stored_under-IsGone ended none d name rest s h = h
  stored_under-IsGone ended (some key) d name rest s h =
      get-set_none ended (some 86400) (Inbound.build_cache_key e.hash key)
        (port_prefix name ++ rest) (result (plain d)) s.cache refl h

  store_idempotent-IsGone :
      (ended : ℕ) (c : PortCall e) (d : e.Data) (name rest : Text) (s : PortRegistry e)
      → IsGone (port_prefix name ++ rest) s
      → IsGone (port_prefix name ++ rest) (store_idempotent e ended c d s)
  store_idempotent-IsGone ended c d name rest s h = elim (Bool-cases e.has_idempotency) [
    | inl has ↦ rw has (stored_under-IsGone ended (given c.idempotency_key) d name rest s h)
    | inr lacks ↦ rw lacks h
  ]

  after_mutation-IsGone :
      (ended : ℕ) (c : PortCall e) (config : PortConfig) (d : e.Data) (rest : Text)
      (s : PortRegistry e)
      → is_mutation_method c.method ≡ true
      → IsPlain s.cache.key_prefix
      → IsLine s.cache.key_prefix
      → IsPlain c.port_name
      → IsLine c.port_name
      → IsLine rest
      → IsGone (port_prefix c.port_name ++ rest) (after_success e ended c config d s)
  unfolding after_success
  after_mutation-IsGone ended c config d rest s mutation literal_pre line_pre literal line
        line_rest =
      store_idempotent-IsGone ended c d c.port_name rest
        (remember e c d (write_cached e ended c config d (invalidate e c s)))
        (rw mutation (
          rw mutation at
            (invalidate-IsGone c rest s mutation literal_pre line_pre literal line line_rest)))

  get_gone :
      (t : ℕ) (key : Text) (s : PortRegistry e)
      → IsGone key s
      → Memory.get t key s.cache ≡ (none, s.cache)
  unfolding Memory.get
  get_gone t key s h = rw h refl

  execute-uncached :
      (t t' : ℕ) (c : PortCall e) (port : PortEntry e) (s : PortRegistry e) (x : PortResult e.Data)
      → OrderedMap.get s.ports c.port_name ≡ some port
      → given c.idempotency_key ≡ none
      → Memory.get t (build_cache_key e c.port_name c.method c.params) s.cache ≡ (none, s.cache)
      → (execute e t t' c s).0 ≡ ok x
      → is_cached_read x.metadata ≡ false
  unfolding execute through_idempotency through_cache
  execute-uncached t t' c port s x known no_key miss h =
      through_breaker-uncached (adapter_used e c.port_name) t t' c port s x (ground arith)

  after_success-prefix :
      (ended : ℕ) (c : PortCall e) (config : PortConfig) (d : e.Data) (s : PortRegistry e)
      → ((after_success e ended c config d s).ports ≡ s.ports)
        × ((after_success e ended c config d s).cache.key_prefix ≡ s.cache.key_prefix)
  unfolding after_success Inbound.store Memory.set delete_by_pattern
  after_success-prefix ended c config d s = ground arith

  -- After an adapter answered a mutation of a port, the next call of the port without an
  -- idempotency key, whatever it asks and whenever, is not answered from the port's cached reads;
  -- for a port name of one line without `*` and `?`, a cache prefix of that form, and hashes of one
  -- line.
  pub mutation_then_read :
      (now ended t t' : ℕ) (c c' : PortCall e) (port : PortEntry e) (s s' : PortRegistry e)
      (x y : PortResult e.Data)
      → IsPlain s.cache.key_prefix
      → IsLine s.cache.key_prefix
      → IsPlain c.port_name
      → IsLine c.port_name
      → ((text : Text) → IsLine (e.hash text))
      → OrderedMap.get s.ports c.port_name ≡ some port
      → is_mutation_method c.method ≡ true
      → execute e now ended c s ≡ (ok x, s')
      → x.from_cache ≡ false
      → c'.port_name ≡ c.port_name
      → given c'.idempotency_key ≡ none
      → (execute e t t' c' s').0 ≡ ok y
      → is_cached_read y.metadata ≡ false
  unfolding build_cache_key
  mutation_then_read now ended t t' c c' port s s' x y literal_pre line_pre literal line line_hash
        known mutation h asked same no_key read =
      let (u, alike, a) = execute-Asked e now ended c port s x s' known h asked in
      let rest = e.hash (e.stringify c'.method c'.params) in
      let prefix : a.before.cache.key_prefix ≡ s.cache.key_prefix = ground arith in
      let gone =
        after_mutation-IsGone ended c port.config a.reply rest a.before mutation
          (rw prefix literal_pre) (rw prefix line_pre) literal line
          (line_hash (e.stringify c'.method c'.params)) in
      let ports : OrderedMap.get s'.ports c'.port_name ≡ some port =
        ground (arith, after_success-prefix ended c port.config a.reply a.before) in
      execute-uncached t t' c' port s' y ports no_key
        (get_gone t (port_prefix c'.port_name ++ rest) s' (rw (same, a.state_lem) gone)) read
