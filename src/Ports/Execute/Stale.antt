-- ===== src/Ports/Execute/Stale.antt =====
-- What src/libs/shared/port/port-registry.service.ts answers while a downstream service fails.
use app_tu_phuc_vu.Prelude.{
  ℕ, ◌≡◌, ◌∙◌, Bool, true, false, Option, none, some, List, Result, ok, err, arith,
}
use app_tu_phuc_vu.Prelude.Text.{Text, text_eq_refl}
use app_tu_phuc_vu.Prelude.OrderedMap
use app_tu_phuc_vu.Prelude.OrderedMap.{OrderedMap, get-put}
use app_tu_phuc_vu.Inbound
use app_tu_phuc_vu.Inbound.{result}
use app_tu_phuc_vu.Resilience.Breaker.{CircuitBreakerOptions, CircuitBreakerState}
use app_tu_phuc_vu.Ports.Types.{
  AdapterUsed, QueuePolicy, PortError, PortResultMetadata, fresh, from_idempotency, cached_at,
  degraded, refresh_queued, plain, Value, PortResult, PortConfig, PortEnv, PortEntry,
}
use app_tu_phuc_vu.Ports.Fallback
use app_tu_phuc_vu.Ports.Fallback.{cached_of, get_cached, set_cached}
use app_tu_phuc_vu.Ports.Registry.{PortRegistry, adapter_used}
use app_tu_phuc_vu.Ports.Degraded.{PortCall, execute_fallback, execute_with_queue}
use app_tu_phuc_vu.Ports.Success.{after_success}
use app_tu_phuc_vu.Ports.Execute.{execute, through_breaker, call_adapter, settle}
use app_tu_phuc_vu.Ports.Execute.Inversion.{through_breaker_rule}
use app_tu_phuc_vu.Ports.Execute.Idle.{execute_all, AllElsewhere, execute_all-Keeps}
use app_tu_phuc_vu.Ports.Execute.Answered.{execute_rule, execute-Asked}

-- `metadata.degraded`
abbrev pub is_degraded : PortResultMetadata → Bool
is_degraded (degraded t) = true
is_degraded (refresh_queued t) = true
is_degraded (cached_at t) = false
is_degraded fresh = false
is_degraded from_idempotency = false

module _ (e : PortEnv) where
  abbrev pub shown : Option e.Data → Option (Value e.Data)
  shown none = none
  shown (some d) = some (result (plain d))

  -- The fallback that the port's registration put in place is there.
  abbrev pub HasFallback : Text → PortRegistry e → Type 0
  HasFallback name s = OrderedMap.get s.fallback.fallbacks name ≡ some (cached_of name)

  execute_with_queue-degraded :
      (policy : QueuePolicy) (used : AdapterUsed) (now : ℕ) (error : Option PortError)
      (c : PortCall e) (s : PortRegistry e) (x : PortResult e.Data)
      → HasFallback c.port_name s
      → (execute_with_queue e policy used now error c s).0 ≡ ok x
      → x.answer ≡ shown (get_cached c.port_name s.fallback)
  unfolding execute_with_queue execute_fallback Fallback.execute
  execute_with_queue-degraded policy used now error c s x has h = ground arith

  settle-degraded :
      (used : AdapterUsed) (ended : ℕ) (c : PortCall e) (config : PortConfig)
      (r : Result PortError e.Data) (s : PortRegistry e) (x : PortResult e.Data)
      → HasFallback c.port_name s
      → (settle e used ended c config r s).0 ≡ ok x
      → is_degraded x.metadata ≡ true
      → x.answer ≡ shown (get_cached c.port_name s.fallback)
  settle-degraded used ended c config (ok d) s x has h stale = ground arith
  settle-degraded used ended c config (err error) s x has h stale =
      execute_with_queue-degraded config.queue_policy used ended (some error) c s x has h

  call_adapter-degraded :
      (used : AdapterUsed) (ended : ℕ) (c : PortCall e) (port : PortEntry e)
      (breaker : Option (CircuitBreakerOptions PortError × CircuitBreakerState))
      (s : PortRegistry e) (x : PortResult e.Data)
      → HasFallback c.port_name s
      → (call_adapter e used ended c port breaker s).0 ≡ ok x
      → is_degraded x.metadata ≡ true
      → x.answer ≡ shown (get_cached c.port_name s.fallback)
  unfolding call_adapter
  call_adapter-degraded used ended c port none s x has h stale =
      settle-degraded used ended c port.config _ _ x has h stale
  call_adapter-degraded used ended c port (some b) s x has h stale =
      settle-degraded used ended c port.config _ _ x has h stale

  through_breaker-degraded :
      (used : AdapterUsed) (now ended : ℕ) (c : PortCall e) (port : PortEntry e)
      (s : PortRegistry e) (x : PortResult e.Data)
      → HasFallback c.port_name s
      → (through_breaker e used now ended c port s).0 ≡ ok x
      → is_degraded x.metadata ≡ true
      → x.answer ≡ shown (get_cached c.port_name s.fallback)
  through_breaker-degraded used now ended c port s x has =
      through_breaker_rule e
        (λ o.
          o.0 ≡ ok x
          → is_degraded x.metadata ≡ true
          → x.answer ≡ shown (get_cached c.port_name s.fallback))
        used now ended c port s
        (λ breaker h stale. call_adapter-degraded used ended c port breaker s x has h stale)
        (λ h stale. execute_with_queue-degraded port.config.queue_policy used now none c s x has h)

  execute-degraded :
      (now ended : ℕ) (c : PortCall e) (port : PortEntry e) (s : PortRegistry e)
      (x : PortResult e.Data)
      → OrderedMap.get s.ports c.port_name ≡ some port
      → HasFallback c.port_name s
      → (execute e now ended c s).0 ≡ ok x
      → is_degraded x.metadata ≡ true
      → x.answer ≡ shown (get_cached c.port_name s.fallback)
  execute-degraded now ended c port s x known has =
      execute_rule e
        (λ o.
          o.0 ≡ ok x
          → is_degraded x.metadata ≡ true
          → x.answer ≡ shown (get_cached c.port_name s.fallback))
        now ended c port s known (λ v t alike h stale. absurd (cc))
        (λ v t alike h stale. absurd (cc))
        (λ t alike h stale. rw (← alike.fallback) (
          through_breaker-degraded (adapter_used e c.port_name) now ended c port t x
            (rw alike.fallback has) h stale))

  after_success-fallback :
      (ended : ℕ) (c : PortCall e) (config : PortConfig) (d : e.Data) (s : PortRegistry e)
      (m : OrderedMap e.Data)
      → s.fallback.fallback_cache ≡ some m
      → (get_cached c.port_name (after_success e ended c config d s).fallback ≡ some d)
        × ((after_success e ended c config d s).fallback.fallbacks ≡ s.fallback.fallbacks)
        × ((after_success e ended c config d s).ports ≡ s.ports)
  unfolding after_success Inbound.store set_cached get_cached
  after_success-fallback ended c config d s m kept =
      ground (arith, get-put m c.port_name c.port_name d, text_eq_refl c.port_name)

  -- A degraded answer of a port repeats the last answer that an adapter gave through the port, with any
  -- calls in between that no adapter of the port answered, to whatever method, with whatever
  -- parameters, and whoever asked then or asks now; for a port that is registered with the fallback
  -- that its registration puts in place, and a provider that has its Map.
  pub degraded-eq-last :
      (now ended t t' : ℕ) (c c' : PortCall e) (cs : List (ℕ × ℕ × PortCall e)) (port : PortEntry e)
      (s s' : PortRegistry e) (x y : PortResult e.Data) (m : OrderedMap e.Data)
      → OrderedMap.get s.ports c.port_name ≡ some port
      → HasFallback c.port_name s
      → s.fallback.fallback_cache ≡ some m
      → execute e now ended c s ≡ (ok x, s')
      → x.from_cache ≡ false
      → AllElsewhere e c.port_name cs s'
      → c'.port_name ≡ c.port_name
      → (execute e t t' c' (execute_all e cs s')).0 ≡ ok y
      → is_degraded y.metadata ≡ true
      → y.answer ≡ x.answer
  degraded-eq-last now ended t t' c c' cs port s s' x y m known has kept h asked elsewhere same
        later stale =
      let (u, alike, a) = execute-Asked e now ended c port s x s' known h asked in
      let fallback : a.before.fallback ≡ s.fallback = ground arith in
      let kept' : a.before.fallback.fallback_cache ≡ some m = rw fallback kept in
      let written = after_success-fallback ended c port.config a.reply a.before m kept' in
      let keeps =
        execute_all-Keeps e c.port_name port a.reply cs s' elsewhere
          (record { known = ground arith; has = ground arith; last = ground arith }) in
      execute-degraded t t' c' port (execute_all e cs s') y (rw same keeps.known)
        (rw same keeps.has) later stale
      ∙ rw (same, keeps.last) (ground arith)
