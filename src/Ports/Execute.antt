-- ===== src/Ports/Execute.antt =====
-- execute and executeReplay of src/libs/shared/port/port-registry.service.ts over the in-memory
-- cache: a call at `now`, of which the adapter answers at `ended`, where no other call comes between.
pub mod Inversion
pub mod Answered
pub mod Reads
pub mod Freshness
pub mod Idle
pub mod Stale
pub mod Probe
use app_tu_phuc_vu.Prelude.{ℕ, Option, none, some, if◌then◌else◌, Result, ok, err}
use app_tu_phuc_vu.Prelude.OrderedMap
use app_tu_phuc_vu.Prelude.Text.{Text}
use app_tu_phuc_vu.Cache.Memory
use app_tu_phuc_vu.Inbound
use app_tu_phuc_vu.Resilience.Breaker.{
  CircuitBreakerOptions, CircuitBreakerState, is_open, record_success, record_failure, should_open,
  should_attempt_reset, open_circuit, move_half_open,
}
use app_tu_phuc_vu.Ports.Types.{
  AdapterUsed, PortError, not_registered, PortConfig, Value, PortEnv, PortEntry,
}
use app_tu_phuc_vu.Ports.Fallback.{present, set_cached}
use app_tu_phuc_vu.Ports.Registry.{
  PortRegistry, should_cache, given, adapter_used, adapter_of, build_cache_key, value_is_null,
  found, replayed, answered, Outcome,
}
use app_tu_phuc_vu.Ports.Degraded.{PortCall, execute_with_queue}
use app_tu_phuc_vu.Ports.Success.{after_success, remember}

abbrev pub tripped :
    ℕ → PortError → CircuitBreakerOptions PortError → CircuitBreakerState → CircuitBreakerState
tripped ended error options b =
    let failed = record_failure options ended error b in
    if should_open options failed then open_circuit ended failed else failed

module _ (e : PortEnv) where
  -- The breaker's account of an adapter's call that ended.
  abbrev pub account :
      ℕ
      → Result PortError e.Data
      → CircuitBreakerOptions PortError × CircuitBreakerState
      → CircuitBreakerOptions PortError × CircuitBreakerState
  account ended (ok d) (options, b) = (options, record_success options ended b)
  account ended (err error) (options, b) = (options, tripped ended error options b)

  abbrev pub with_breaker :
      Text
      → Option (CircuitBreakerOptions PortError × CircuitBreakerState)
      → PortRegistry e
      → PortRegistry e
  with_breaker name none s = s
  with_breaker name (some b) s = record s {
    circuit_breakers = OrderedMap.put s.circuit_breakers name b;
  }

  -- The end of a call, by what the adapter gave.
  abbrev pub settle :
      AdapterUsed
      → ℕ
      → PortCall e
      → PortConfig
      → Result PortError e.Data
      → PortRegistry e
      → Outcome e
  settle used ended c config (ok d) s = (ok (answered e used d), after_success e ended c config d s)
  settle used ended c config (err error) s =
      execute_with_queue e config.queue_policy used ended (some error) c s

  unfoldable pub call_adapter :
      AdapterUsed
      → ℕ
      → PortCall e
      → PortEntry e
      → Option (CircuitBreakerOptions PortError × CircuitBreakerState)
      → PortRegistry e
      → Outcome e
  unfolding record_success record_failure should_open
  call_adapter used ended c port breaker s =
      let (r, w) = (adapter_of e used port) c.context c.method c.params s.world in
      let s' =
        with_breaker c.port_name (elim breaker [ none ↦ none | some b ↦ some (account ended r b) ])
          (record s { world = w }) in
      settle used ended c port.config r s'

  -- The breaker's gate: an open one lets a call through as a probe after its reset timeout.
  abbrev pub gate :
      AdapterUsed
      → ℕ
      → ℕ
      → PortCall e
      → PortEntry e
      → Option (CircuitBreakerOptions PortError × CircuitBreakerState)
      → PortRegistry e
      → Outcome e
  gate used now ended c port none s = call_adapter used ended c port none s
  gate used now ended c port (some (options, b)) s =
      if is_open b.state
      then if should_attempt_reset options now b
        then call_adapter used ended c port (some (options, move_half_open now b)) s
        else execute_with_queue e port.config.queue_policy used now none c s
      else call_adapter used ended c port (some (options, b)) s

  unfoldable pub through_breaker :
      AdapterUsed → ℕ → ℕ → PortCall e → PortEntry e → PortRegistry e → Outcome e
  unfolding should_attempt_reset
  through_breaker used now ended c port s =
      gate used now ended c port (OrderedMap.get s.circuit_breakers c.port_name) s

  -- A read's answer in the shared cache.
  abbrev pub read_cached : ℕ → PortCall e → PortRegistry e → Option (Value e.Data) × PortRegistry e
  read_cached now c s =
      let (v, m) = Memory.get now (build_cache_key e c.port_name c.method c.params) s.cache in
      (present (value_is_null e) v, record s { cache = m })

  abbrev pub or_found : AdapterUsed → Option (Value e.Data) → PortRegistry e → Outcome e → Outcome e
  or_found used none s otherwise = otherwise
  or_found used (some v) s otherwise = (ok (found e used v), s)

  abbrev pub cached_or_called :
      AdapterUsed → ℕ → ℕ → PortCall e → PortEntry e → PortRegistry e → Outcome e
  cached_or_called used now ended c port s =
      let (v, s') = read_cached now c s in
      or_found used v s' (through_breaker used now ended c port s')

  unfoldable pub through_cache :
      AdapterUsed → ℕ → ℕ → PortCall e → PortEntry e → PortRegistry e → Outcome e
  unfolding Memory.get
  through_cache used now ended c port s =
      if should_cache c.method port.config
      then cached_or_called used now ended c port s
      else through_breaker used now ended c port s

  -- The idempotency service's reading of a key.
  abbrev pub check_key : ℕ → Option Text → PortRegistry e → Option (Value e.Data) × PortRegistry e
  check_key now none s = (none, s)
  check_key now (some key) s =
      let (v, m) = Inbound.check e.hash now key (some s.cache) in
      (present (value_is_null e) v, elim m [ none ↦ s | some m' ↦ record s { cache = m' } ])

  abbrev pub or_replayed :
      AdapterUsed → Option (Value e.Data) → PortRegistry e → Outcome e → Outcome e
  or_replayed used none s otherwise = otherwise
  or_replayed used (some v) s otherwise = (ok (replayed e used v), s)

  abbrev pub replayed_or_called :
      AdapterUsed → ℕ → ℕ → PortCall e → PortEntry e → PortRegistry e → Outcome e
  replayed_or_called used now ended c port s =
      let (v, s') = check_key now (given c.idempotency_key) s in
      or_replayed used v s' (through_cache used now ended c port s')

  unfoldable pub through_idempotency :
      AdapterUsed → ℕ → ℕ → PortCall e → PortEntry e → PortRegistry e → Outcome e
  unfolding Inbound.check
  through_idempotency used now ended c port s =
      if e.has_idempotency
      then replayed_or_called used now ended c port s
      else through_cache used now ended c port s

  abbrev pub on_port : Option (PortEntry e) → ℕ → ℕ → PortCall e → PortRegistry e → Outcome e
  on_port none now ended c s = (err not_registered, s)
  on_port (some port) now ended c s =
      through_idempotency (adapter_used e c.port_name) now ended c port s

  unfoldable pub execute : ℕ → ℕ → PortCall e → PortRegistry e → Outcome e
  execute now ended c s = on_port (OrderedMap.get s.ports c.port_name) now ended c s

  -- The end of a replay: its answer is kept for the fallback.
  abbrev pub replay_settle :
      PortCall e
      → Result PortError e.Data
      → PortRegistry e
      → Result PortError e.Data × PortRegistry e
  replay_settle c (ok d) s = (ok d, remember e c d s)
  replay_settle c (err x) s = (err x, s)

  -- A replay by the queue's worker: the live adapter in the captured context; none is a port that is
  -- not registered.
  unfoldable pub execute_replay :
      PortCall e → PortRegistry e → Option (Result PortError e.Data) × PortRegistry e
  unfolding set_cached
  execute_replay c s = elim (OrderedMap.get s.ports c.port_name) [
    | none ↦ (none, s)
    | some port ↦
        let (r, w) = port.live_adapter c.context c.method c.params s.world in
        let (r', s') = replay_settle c r (record s { world = w }) in (some r', s')
  ]
