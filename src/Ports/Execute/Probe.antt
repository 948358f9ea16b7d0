-- ===== src/Ports/Execute/Probe.antt =====
-- The breaker of a port in src/libs/shared/port/port-registry.service.ts: shut before its reset
-- timeout, and a probe from then on.
use app_tu_phuc_vu.Prelude.{
  ℕ, ◌+◌, ◌≤◌, ◌<◌, ◌≡◌, refl, ◌⊎◌, true, Option, none, some, Result, ok, err, leb, lt→leb_false,
  le→leb, if◌then◌else◌, arith,
}
use app_tu_phuc_vu.Prelude.Text.{text_eq_refl}
use app_tu_phuc_vu.Prelude.OrderedMap
use app_tu_phuc_vu.Prelude.OrderedMap.{get-put}
use app_tu_phuc_vu.Inbound
use app_tu_phuc_vu.Resilience.Breaker.{
  CircuitBreakerOptions, CircuitBreakerState, CircuitState, closed, opened, half_open, or_default,
  record_success, record_failure, should_open, move_half_open,
}
use app_tu_phuc_vu.Ports.Types.{
  AdapterUsed, QueuePolicy, PortError, PortConfig, PortEnv, PortEntry, is_infrastructure_error,
}
use app_tu_phuc_vu.Ports.Methods.{is_mutation_method}
use app_tu_phuc_vu.Ports.Registry.{PortRegistry, Outcome, adapter_used, adapter_of, given}
use app_tu_phuc_vu.Ports.Degraded.{PortCall, payload_of, execute_fallback, execute_with_queue}
use app_tu_phuc_vu.Ports.Success.{after_success}
use app_tu_phuc_vu.Ports.Execute.{
  execute, through_idempotency, through_cache, through_breaker, call_adapter, settle, account,
  with_breaker,
}
use app_tu_phuc_vu.Ports.Execute.Answered.{execute_rule}

-- The breaker after a probe that ended so: a 4xx reply decides nothing.
abbrev pub probe_state : {D : Type 0} → Result PortError D → CircuitState
probe_state (ok d) = closed
probe_state (err error) = if is_infrastructure_error error then opened else half_open

module _ (e : PortEnv) where
  -- At most the queue was called, and no breaker changed.
  abbrev pub AsksNothing : PortCall e → PortRegistry e → Outcome e → Type 0
  AsksNothing c s o =
      ((o.1.world ≡ s.world) ⊎ (o.1.world ≡ (e.enqueue (payload_of e c) s.world).1))
      × (o.1.circuit_breakers ≡ s.circuit_breakers)

  execute_with_queue-AsksNothing :
      (policy : QueuePolicy) (used : AdapterUsed) (now : ℕ) (error : Option PortError)
      (c : PortCall e) (s : PortRegistry e)
      → AsksNothing c s (execute_with_queue e policy used now error c s)
  unfolding execute_with_queue execute_fallback
  execute_with_queue-AsksNothing policy used now error c s = ground arith

  -- What the gate does with an open breaker.
  through_breaker-opened :
      (used : AdapterUsed) (now ended : ℕ) (c : PortCall e) (port : PortEntry e)
      (s : PortRegistry e) (options : CircuitBreakerOptions PortError) (b : CircuitBreakerState)
      → OrderedMap.get s.circuit_breakers c.port_name ≡ some (options, b)
      → b.state ≡ opened
      → through_breaker e used now ended c port s ≡ (
          if leb (b.state_changed_at + or_default options.reset_timeout 30000) now
          then call_adapter e used ended c port (some (options, move_half_open now b)) s
          else execute_with_queue e port.config.queue_policy used now none c s)
  unfolding through_breaker
  through_breaker-opened used now ended c port s options b found shut = rw found (ground arith)

  -- While a port's breaker is open and its reset timeout has not passed, a call of the port, whatever
  -- it asks, calls no adapter and changes no breaker: at most a job is queued.
  pub execute-AsksNothing :
      (now ended : ℕ) (c : PortCall e) (port : PortEntry e) (s : PortRegistry e)
      (options : CircuitBreakerOptions PortError) (b : CircuitBreakerState)
      → OrderedMap.get s.ports c.port_name ≡ some port
      → OrderedMap.get s.circuit_breakers c.port_name ≡ some (options, b)
      → b.state ≡ opened
      → now < b.state_changed_at + or_default options.reset_timeout 30000
      → AsksNothing c s (execute e now ended c s)
  execute-AsksNothing now ended c port s options b known found shut early =
      execute_rule e (AsksNothing c s) now ended c port s known (λ v t alike. ground arith)
        (λ v t alike. ground arith)
        (λ t alike.
          let found' : OrderedMap.get t.circuit_breakers c.port_name ≡ some (options, b) =
            ground arith in
          let used = adapter_used e c.port_name in
          let nothing = execute_with_queue-AsksNothing port.config.queue_policy used now none c t in
          rw
            (
              through_breaker-opened used now ended c port t options b found' shut,
              lt→leb_false (b.state_changed_at + or_default options.reset_timeout 30000) now early,
            )
            (ground arith))

  settle-breakers :
      (used : AdapterUsed) (ended : ℕ) (c : PortCall e) (config : PortConfig)
      (r : Result PortError e.Data) (s : PortRegistry e)
      → (settle e used ended c config r s).1.circuit_breakers ≡ s.circuit_breakers
  unfolding after_success Inbound.store
  settle-breakers used ended c config (ok d) s = ground arith
  settle-breakers used ended c config (err error) s =
      (execute_with_queue-AsksNothing config.queue_policy used ended (some error) c s).1

  account_probe :
      (now ended : ℕ) (r : Result PortError e.Data) (options : CircuitBreakerOptions PortError)
      (b : CircuitBreakerState)
      → options.error_filter ≡ some is_infrastructure_error
      → (b' : CircuitBreakerState) × (account e ended r (options, move_half_open now b)
          ≡ (options, b'))
        × (b'.state ≡ probe_state r)
  unfolding record_success record_failure should_open
  account_probe now ended (ok d) options b filter = (_, refl, ground arith)
  account_probe now ended (err error) options b filter = (_, refl, ground arith)

  execute-direct :
      (now ended : ℕ) (c : PortCall e) (port : PortEntry e) (s : PortRegistry e)
      → OrderedMap.get s.ports c.port_name ≡ some port
      → is_mutation_method c.method ≡ true
      → given c.idempotency_key ≡ none
      → execute e now ended c s ≡ through_breaker e (adapter_used e c.port_name) now ended c port s
  unfolding execute through_idempotency through_cache
  execute-direct now ended c port s known mutation no_key = ground arith

  -- Once the reset timeout of an open breaker has passed, a mutation without an idempotency key
  -- reaches the adapter, and what it gives decides: the breaker is closed after an answer, open
  -- again after a failure that counts, and half open after a 4xx reply.
  pub probe_decides :
      (now ended : ℕ) (c : PortCall e) (port : PortEntry e) (s : PortRegistry e)
      (options : CircuitBreakerOptions PortError) (b : CircuitBreakerState)
      → OrderedMap.get s.ports c.port_name ≡ some port
      → OrderedMap.get s.circuit_breakers c.port_name ≡ some (options, b)
      → b.state ≡ opened
      → b.state_changed_at + or_default options.reset_timeout 30000 ≤ now
      → options.error_filter ≡ some is_infrastructure_error
      → is_mutation_method c.method ≡ true
      → given c.idempotency_key ≡ none
      → (b' : CircuitBreakerState) × (OrderedMap.get
            (execute e now ended c s).1.circuit_breakers
            c.port_name
          ≡ some (options, b'))
        × (b'.state
            ≡ probe_state
                (adapter_of e
                  (adapter_used e c.port_name)
                  port
                  c.context
                  c.method
                  c.params
                  s.world).0)
  unfolding call_adapter
  probe_decides now ended c port s options b known found shut late filter mutation no_key =
      let used = adapter_used e c.port_name in
      let (r, w) = adapter_of e used port c.context c.method c.params s.world in
      let (b', counted, decided) = account_probe now ended r options b filter in
      let s' =
        with_breaker e c.port_name (some (account e ended r (options, move_half_open now b)))
          (record s { world = w }) in
      (
        b',
        rw
            (
              execute-direct now ended c port s known mutation no_key,
              through_breaker-opened used now ended c port s options b found shut,
              le→leb (b.state_changed_at + or_default options.reset_timeout 30000) now late,
              settle-breakers used ended c port.config r s',
              counted,
              get-put s.circuit_breakers c.port_name c.port_name (options, b'),
              text_eq_refl c.port_name,
            )
            refl,
        decided,
      )
