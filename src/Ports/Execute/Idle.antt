-- ===== src/Ports/Execute/Idle.antt =====
-- What the calls of src/libs/shared/port/port-registry.service.ts leave of a port's last answer while
-- no adapter answers through it.
use app_tu_phuc_vu.Prelude.{
  ℕ, ◌≡◌, ◌≢◌, refl, ◌∙◌, false, Option, none, some, List, [], ◌∷◌, Result, ok, err, arith,
}
use app_tu_phuc_vu.Prelude.Text.{Text, text_eq_iff}
use app_tu_phuc_vu.Prelude.OrderedMap
use app_tu_phuc_vu.Prelude.OrderedMap.{OrderedMap, get-put}
use app_tu_phuc_vu.Inbound
use app_tu_phuc_vu.Resilience.Breaker.{CircuitBreakerOptions, CircuitBreakerState}
use app_tu_phuc_vu.Ports.Types.{
  AdapterUsed, QueuePolicy, PortError, PortResult, PortConfig, PortEnv, PortEntry,
}
use app_tu_phuc_vu.Ports.Fallback.{FallbackProvider, cached_of, get_cached, set_cached}
use app_tu_phuc_vu.Ports.Registry.{PortRegistry, Outcome, adapter_used, answered}
use app_tu_phuc_vu.Ports.Degraded.{PortCall, execute_fallback, execute_with_queue}
use app_tu_phuc_vu.Ports.Success.{after_success}
use app_tu_phuc_vu.Ports.Execute.{execute, through_breaker, call_adapter, settle}
use app_tu_phuc_vu.Ports.Execute.Inversion.{through_breaker_rule}
use app_tu_phuc_vu.Ports.Execute.Answered.{execute_rule}

module _ (e : PortEnv) where
  -- Calls one after the other, each with its start and end.
  unfoldable pub execute_all : List (ℕ × ℕ × PortCall e) → PortRegistry e → PortRegistry e
  execute_all [] s = s
  execute_all ((now, ended, c) ∷ cs) s = execute_all cs (execute e now ended c s).1

  -- If an adapter answered, then through another port.
  abbrev pub IsElsewhere : Text → PortCall e → Outcome e → Type 0
  IsElsewhere name c o =
      (x : PortResult e.Data) → o.0 ≡ ok x → x.from_cache ≡ false → c.port_name ≢ name

  -- None of them is answered by an adapter of the port.
  abbrev pub AllElsewhere : Text → List (ℕ × ℕ × PortCall e) → PortRegistry e → Type 0
  AllElsewhere name [] s = Unit
  AllElsewhere name ((now, ended, c) ∷ cs) s =
      IsElsewhere name c (execute e now ended c s)
      × AllElsewhere name cs (execute e now ended c s).1

module _ (e : PortEnv) (name : Text) (port : PortEntry e) (d : e.Data) where
  -- The port is registered with its fallback, which would answer this.
  pub record Keeps (s : PortRegistry e) : Type 0 where
    pub known : OrderedMap.get s.ports name ≡ some port
    pub has : OrderedMap.get s.fallback.fallbacks name ≡ some (cached_of name)
    pub last : get_cached name s.fallback ≡ some d

  abbrev Kept : PortCall e → Outcome e → Type 0
  Kept c o = IsElsewhere e name c o → Keeps o.1

  Keeps-same :
      (s t : PortRegistry e) → t.ports ≡ s.ports → t.fallback ≡ s.fallback → Keeps s → Keeps t
  Keeps-same s t ports fallback h = record {
    known = rw ports h.known;
    has = rw fallback h.has;
    last = rw fallback h.last;
  }

  execute_with_queue-Keeps :
      (policy : QueuePolicy) (used : AdapterUsed) (now : ℕ) (error : Option PortError)
      (c : PortCall e) (s : PortRegistry e)
      → Keeps s
      → Keeps (execute_with_queue e policy used now error c s).1
  unfolding execute_with_queue execute_fallback
  execute_with_queue-Keeps policy used now error c s h =
      Keeps-same s (execute_with_queue e policy used now error c s).1 (ground arith) (ground arith)
        h

  set_cached-fallbacks :
      (key : Text) (reply : e.Data) (p : FallbackProvider (Option PortError) e.Data)
      (m : Option (OrderedMap e.Data))
      → p.fallback_cache ≡ m
      → (set_cached key reply p).fallbacks ≡ p.fallbacks
  unfolding set_cached
  set_cached-fallbacks key reply p none kept = rw kept refl
  set_cached-fallbacks key reply p (some m) kept = rw kept refl

  get_cached-set_cached :
      (key : Text) (reply : e.Data) (p : FallbackProvider (Option PortError) e.Data)
      (m : Option (OrderedMap e.Data))
      → p.fallback_cache ≡ m
      → key ≢ name
      → get_cached name (set_cached key reply p) ≡ get_cached name p
  unfolding set_cached get_cached
  get_cached-set_cached key reply p none kept differs = ground arith
  get_cached-set_cached key reply p (some m) kept differs =
      ground (arith, get-put m key name reply, text_eq_iff key name)

  after_success-fallback :
      (ended : ℕ) (c : PortCall e) (config : PortConfig) (reply : e.Data) (s : PortRegistry e)
      → ((after_success e ended c config reply s).fallback
          ≡ set_cached c.port_name reply s.fallback)
        × ((after_success e ended c config reply s).ports ≡ s.ports)
  unfolding after_success Inbound.store
  after_success-fallback ended c config reply s = ground arith

  after_success-Keeps :
      (ended : ℕ) (c : PortCall e) (config : PortConfig) (reply : e.Data) (s : PortRegistry e)
      → c.port_name ≢ name
      → Keeps s
      → Keeps (after_success e ended c config reply s)
  after_success-Keeps ended c config reply s differs h =
      let (fallback, ports) = after_success-fallback ended c config reply s in
      record {
        known = rw ports h.known;
        has = rw (fallback, set_cached-fallbacks c.port_name reply s.fallback _ refl) h.has;
        last =
            rw fallback
              (get_cached-set_cached c.port_name reply s.fallback _ refl differs ∙ h.last);
      }

  settle-Keeps :
      (used : AdapterUsed) (ended : ℕ) (c : PortCall e) (config : PortConfig)
      (r : Result PortError e.Data) (s : PortRegistry e)
      → Keeps s
      → Kept c (settle e used ended c config r s)
  settle-Keeps used ended c config (ok reply) s h elsewhere =
      after_success-Keeps ended c config reply s (elsewhere (answered e used reply) refl refl) h
  settle-Keeps used ended c config (err error) s h elsewhere =
      execute_with_queue-Keeps config.queue_policy used ended (some error) c s h

  call_adapter-Keeps :
      (used : AdapterUsed) (ended : ℕ) (c : PortCall e) (p : PortEntry e)
      (breaker : Option (CircuitBreakerOptions PortError × CircuitBreakerState))
      (s : PortRegistry e)
      → Keeps s
      → Kept c (call_adapter e used ended c p breaker s)
  unfolding call_adapter
  call_adapter-Keeps used ended c p none s h =
      settle-Keeps used ended c p.config _ _ (Keeps-same s _ refl refl h)
  call_adapter-Keeps used ended c p (some b) s h =
      settle-Keeps used ended c p.config _ _ (Keeps-same s _ refl refl h)

  through_breaker-Keeps :
      (used : AdapterUsed) (now ended : ℕ) (c : PortCall e) (p : PortEntry e) (s : PortRegistry e)
      → Keeps s
      → Kept c (through_breaker e used now ended c p s)
  through_breaker-Keeps used now ended c p s h =
      through_breaker_rule e (Kept c) used now ended c p s
        (λ breaker. call_adapter-Keeps used ended c p breaker s h)
        (λ elsewhere. execute_with_queue-Keeps p.config.queue_policy used now none c s h)

  execute-known :
      (now ended : ℕ) (c : PortCall e) (p : PortEntry e) (s : PortRegistry e)
      → OrderedMap.get s.ports c.port_name ≡ some p
      → Keeps s
      → Kept c (execute e now ended c s)
  execute-known now ended c p s found h =
      execute_rule e (Kept c) now ended c p s found
        (λ v t alike elsewhere. Keeps-same s t alike.ports alike.fallback h)
        (λ v t alike elsewhere. Keeps-same s t alike.ports alike.fallback h)
        (λ t alike.
          through_breaker-Keeps (adapter_used e c.port_name) now ended c p t
            (Keeps-same s t alike.ports alike.fallback h))

  pub execute-Keeps :
      (now ended : ℕ) (c : PortCall e) (s : PortRegistry e) (p : Option (PortEntry e))
      → OrderedMap.get s.ports c.port_name ≡ p
      → Keeps s
      → Kept c (execute e now ended c s)
  unfolding execute
  execute-Keeps now ended c s none found h elsewhere = rw found h
  execute-Keeps now ended c s (some p) found h elsewhere =
      execute-known now ended c p s found h elsewhere

  pub execute_all-Keeps :
      (cs : List (ℕ × ℕ × PortCall e)) (s : PortRegistry e)
      → AllElsewhere e name cs s
      → Keeps s
      → Keeps (execute_all e cs s)
  unfolding execute_all
  execute_all-Keeps [] s elsewhere h = h
  execute_all-Keeps ((now, ended, c) ∷ cs) s elsewhere h =
      execute_all-Keeps cs (execute e now ended c s).1 elsewhere.1
        (execute-Keeps now ended c s _ refl h elsewhere.0)
