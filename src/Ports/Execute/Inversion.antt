-- ===== src/Ports/Execute/Inversion.antt =====
-- Which way an answer of src/libs/shared/port/port-registry.service.ts came: from an adapter, from a
-- cache, or from the fallback.
use app_tu_phuc_vu.Prelude.{
  ℕ, ◌≡◌, refl, true, false, Option, none, some, Result, ok, err, arith, Bool-cases, inl, inr,
}
use app_tu_phuc_vu.Prelude.OrderedMap
use app_tu_phuc_vu.Resilience.Breaker.{
  CircuitBreakerOptions, CircuitBreakerState, is_open, should_attempt_reset, move_half_open,
}
use app_tu_phuc_vu.Ports.Types.{
  QueuePolicy, AdapterUsed, PortError, PortConfig, PortResult, PortEnv, PortEntry,
}
use app_tu_phuc_vu.Ports.Fallback
use app_tu_phuc_vu.Ports.Registry.{PortRegistry, Outcome, answered, adapter_of}
use app_tu_phuc_vu.Ports.Degraded.{PortCall, execute_fallback, execute_with_queue}
use app_tu_phuc_vu.Ports.Success.{after_success}
use app_tu_phuc_vu.Ports.Execute.{
  settle, call_adapter, through_breaker, gate, account, with_breaker,
}

module _ (e : PortEnv) where
  -- The fallback's answers are marked as cached.
  pub execute_with_queue-from_cache :
      (policy : QueuePolicy) (used : AdapterUsed) (now : ℕ) (error : Option PortError)
      (c : PortCall e) (s : PortRegistry e) (x : PortResult e.Data) (s' : PortRegistry e)
      → execute_with_queue e policy used now error c s ≡ (ok x, s')
      → x.from_cache ≡ true
  unfolding execute_with_queue execute_fallback Fallback.execute Fallback.get_cached
  execute_with_queue-from_cache policy used now error c s x s' h = ground arith

  settle-answered :
      (used : AdapterUsed) (ended : ℕ) (c : PortCall e) (config : PortConfig)
      (r : Result PortError e.Data) (s : PortRegistry e) (x : PortResult e.Data)
      (s' : PortRegistry e)
      → settle e used ended c config r s ≡ (ok x, s')
      → x.from_cache ≡ false
      → (d : e.Data) × (r ≡ ok d)
        × (x ≡ answered e used d)
        × (s' ≡ after_success e ended c config d s)
  settle-answered used ended c config (ok d) s x s' h asked = (d, refl, ground arith, ground arith)
  settle-answered used ended c config (err error) s x s' h asked =
      let cached =
        execute_with_queue-from_cache config.queue_policy used ended (some error) c s x s' h in
      cc

  -- An answer that comes from no cache: the adapter gave it, in a state that differs from the first
  -- one in the breakers and in the world, and the writes after a success followed.
  pub record IsAnswered (used : AdapterUsed) (ended : ℕ) (c : PortCall e) (config : PortConfig)
      (s : PortRegistry e) (x : PortResult e.Data) (s' : PortRegistry e) : Type 0 where
    pub reply : e.Data
    pub before : PortRegistry e
    pub answer_lem : x ≡ answered e used reply
    pub state_lem : s' ≡ after_success e ended c config reply before
    pub cache_lem : before.cache ≡ s.cache
    pub ports_lem : before.ports ≡ s.ports
    pub fallback_lem : before.fallback ≡ s.fallback

  call_adapter-IsAnswered :
      (used : AdapterUsed) (ended : ℕ) (c : PortCall e) (port : PortEntry e)
      (breaker : Option (CircuitBreakerOptions PortError × CircuitBreakerState))
      (s : PortRegistry e) (x : PortResult e.Data) (s' : PortRegistry e)
      → call_adapter e used ended c port breaker s ≡ (ok x, s')
      → x.from_cache ≡ false
      → IsAnswered used ended c port.config s x s'
  unfolding call_adapter
  call_adapter-IsAnswered used ended c port breaker s x s' h asked =
      let (r, w) = (adapter_of e used port) c.context c.method c.params s.world in
      let after =
        with_breaker e c.port_name
          (elim breaker [ none ↦ none | some b ↦ some (account e ended r b) ])
          (record s { world = w }) in
      let (d, replied, given_back, written) =
        settle-answered used ended c port.config r after x s' h asked in
      record {
        reply = d;
        before = after;
        answer_lem = given_back;
        state_lem = written;
        cache_lem = ground arith;
        ports_lem = ground arith;
        fallback_lem = ground arith;
      }

  -- A call through the gate reaches the adapter, or the fallback of an open breaker.
  gate_rule :
      (P : Outcome e → Type 0) (used : AdapterUsed) (now ended : ℕ) (c : PortCall e)
      (port : PortEntry e)
      (breaker : Option (CircuitBreakerOptions PortError × CircuitBreakerState))
      (s : PortRegistry e)
      → ((breaker : Option (CircuitBreakerOptions PortError × CircuitBreakerState))
          → P (call_adapter e used ended c port breaker s))
      → P (execute_with_queue e port.config.queue_policy used now none c s)
      → P (gate e used now ended c port breaker s)
  gate_rule P used now ended c port none s called shut = called none
  gate_rule P used now ended c port (some (options, b)) s called shut =
      elim (Bool-cases (is_open b.state)) [
        | inl opened ↦ elim (Bool-cases (should_attempt_reset options now b)) [
          | inl probe ↦ rw (opened, probe) (called (some (options, move_half_open now b)))
          | inr early ↦ rw (opened, early) shut
        ]
        | inr through ↦ rw through (called (some (options, b)))
      ]

  pub through_breaker_rule :
      (P : Outcome e → Type 0) (used : AdapterUsed) (now ended : ℕ) (c : PortCall e)
      (port : PortEntry e) (s : PortRegistry e)
      → ((breaker : Option (CircuitBreakerOptions PortError × CircuitBreakerState))
          → P (call_adapter e used ended c port breaker s))
      → P (execute_with_queue e port.config.queue_policy used now none c s)
      → P (through_breaker e used now ended c port s)
  unfolding through_breaker
  through_breaker_rule P used now ended c port s called shut =
      gate_rule P used now ended c port (OrderedMap.get s.circuit_breakers c.port_name) s called
        shut

  pub through_breaker-IsAnswered :
      (used : AdapterUsed) (now ended : ℕ) (c : PortCall e) (port : PortEntry e)
      (s : PortRegistry e) (x : PortResult e.Data) (s' : PortRegistry e)
      → through_breaker e used now ended c port s ≡ (ok x, s')
      → x.from_cache ≡ false
      → IsAnswered used ended c port.config s x s'
  through_breaker-IsAnswered used now ended c port s =
      through_breaker_rule
        (λ o.
          (x : PortResult e.Data) (s' : PortRegistry e)
          → o ≡ (ok x, s')
          → x.from_cache ≡ false
          → IsAnswered used ended c port.config s x s')
        used now ended c port s
        (λ breaker x s' h asked. call_adapter-IsAnswered used ended c port breaker s x s' h asked)
        (λ x s' h asked.
          let cached =
            execute_with_queue-from_cache port.config.queue_policy used now none c s x s' h in
          absurd (cc))
