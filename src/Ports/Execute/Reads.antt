-- ===== src/Ports/Execute/Reads.antt =====
-- Repeated calls of src/libs/shared/port/port-registry.service.ts: a cached read, and a replayed
-- idempotent call.
use app_tu_phuc_vu.Prelude.{ℕ, ◌+◌, ◌*◌, ◌≤◌, ◌≡◌, refl, true, false, none, some, ok, arith}
use app_tu_phuc_vu.Prelude.Text.{Text}
use app_tu_phuc_vu.Prelude.OrderedMap
use app_tu_phuc_vu.Cache.Memory
use app_tu_phuc_vu.Cache.Memory.{MemoryCache}
use app_tu_phuc_vu.Cache.Memory.Reads.{get-set}
use app_tu_phuc_vu.Inbound
use app_tu_phuc_vu.Inbound.{result}
use app_tu_phuc_vu.Ports.Types.{plain, entry, Value, PortResult, PortConfig, PortEnv, PortEntry}
use app_tu_phuc_vu.Ports.Registry.{
  PortRegistry, adapter_used, given, found, replayed, answered, should_cache, value_is_null,
  build_cache_key,
}
use app_tu_phuc_vu.Ports.Degraded.{PortCall}
use app_tu_phuc_vu.Ports.Success.{after_success, write_cached, invalidate}
use app_tu_phuc_vu.Ports.Execute.{execute, through_idempotency, through_cache}
use app_tu_phuc_vu.Ports.Execute.Answered.{execute-Asked}

module _ (e : PortEnv) where
  after_read :
      (ended : ℕ) (c : PortCall e) (config : PortConfig) (d : e.Data) (s : PortRegistry e)
      → given c.idempotency_key ≡ none
      → should_cache c.method config ≡ true
      → (after_success e ended c config d s).cache
        ≡ Memory.set ended
            (build_cache_key e c.port_name c.method c.params)
            (result (entry d ended))
            (some config.cache_ttl)
            s.cache
  unfolding after_success
  after_read ended c config d s no_key cacheable = ground arith

  after_success-ports :
      (ended : ℕ) (c : PortCall e) (config : PortConfig) (d : e.Data) (s : PortRegistry e)
      → (after_success e ended c config d s).ports ≡ s.ports
  unfolding after_success Inbound.store
  after_success-ports ended c config d s = ground arith

  execute_hit :
      (t t' : ℕ) (c : PortCall e) (port : PortEntry e) (s : PortRegistry e) (v : Value e.Data)
      (m : MemoryCache (Value e.Data))
      → OrderedMap.get s.ports c.port_name ≡ some port
      → given c.idempotency_key ≡ none
      → should_cache c.method port.config ≡ true
      → Memory.get t (build_cache_key e c.port_name c.method c.params) s.cache ≡ (some v, m)
      → value_is_null e v ≡ false
      → execute e t t' c s ≡ (ok (found e (adapter_used e c.port_name) v), record s { cache = m })
  unfolding execute through_idempotency through_cache
  execute_hit t t' c port s v m known no_key cacheable hit value = ground arith

  -- The very next call after a read that an adapter answered, if it asks for the same before the time
  -- to live of the port has passed, is answered from the cache: with the same data and the time of the
  -- first answer, whoever asks, with no call of an adapter and nothing else changed; for a port whose
  -- configuration has the method cached, and calls without an idempotency key.
  pub read_then_read :
      (now ended t t' : ℕ) (c : PortCall e) (context : e.Context) (port : PortEntry e)
      (s s' : PortRegistry e) (x : PortResult e.Data)
      → OrderedMap.get s.ports c.port_name ≡ some port
      → given c.idempotency_key ≡ none
      → should_cache c.method port.config ≡ true
      → execute e now ended c s ≡ (ok x, s')
      → x.from_cache ≡ false
      → t ≤ ended + port.config.cache_ttl * 1000
      → (d : e.Data) × (x ≡ answered e (adapter_used e c.port_name) d)
        × (execute e t t' (record c { context = context }) s'
            ≡ (ok (found e (adapter_used e c.port_name) (result (entry d ended))), s'))
  read_then_read now ended t t' c context port s s' x known no_key cacheable h asked early =
      let (u, alike, a) = execute-Asked e now ended c port s x s' known h asked in
      let key = build_cache_key e c.port_name c.method c.params in
      let v : Value e.Data = result (entry a.reply ended) in
      let ports : s'.ports ≡ s.ports =
        ground (arith, after_success-ports ended c port.config a.reply a.before) in
      let cached : Memory.get t key s'.cache ≡ (some v, s'.cache) =
        rw (a.state_lem, after_read ended c port.config a.reply a.before no_key cacheable)
          (get-set ended t port.config.cache_ttl key v a.before.cache early) in
      (
        a.reply,
        a.answer_lem,
        execute_hit t t' (record c { context = context }) port s' v s'.cache (ground arith) no_key
            cacheable cached refl,
      )

  after_keyed :
      (ended : ℕ) (c : PortCall e) (config : PortConfig) (d : e.Data) (s : PortRegistry e)
      (key : Text)
      → given c.idempotency_key ≡ some key
      → e.has_idempotency ≡ true
      → (m : MemoryCache (Value e.Data)) × ((after_success e ended c config d s).cache
          ≡ Memory.set ended (Inbound.build_cache_key e.hash key) (result (plain d)) (some 86400) m)
  unfolding after_success Inbound.store
  after_keyed ended c config d s key keyed service =
      ((write_cached e ended c config d (invalidate e c s)).cache, ground arith)

  execute-replayed :
      (t t' : ℕ) (c : PortCall e) (port : PortEntry e) (s : PortRegistry e) (v : Value e.Data)
      (m : MemoryCache (Value e.Data)) (key : Text)
      → OrderedMap.get s.ports c.port_name ≡ some port
      → given c.idempotency_key ≡ some key
      → e.has_idempotency ≡ true
      → Memory.get t (Inbound.build_cache_key e.hash key) s.cache ≡ (some v, m)
      → value_is_null e v ≡ false
      → execute e t t' c s
        ≡ (ok (replayed e (adapter_used e c.port_name) v), record s { cache = m })
  unfolding execute through_idempotency Inbound.check
  execute-replayed t t' c port s v m key known keyed service hit value = ground arith

  -- Within the day after an adapter answered a call with an idempotency key, any call of a
  -- registered port under the same key gets that answer, where it is not null: no adapter is called
  -- and nothing else changes.
  pub call_then_replay :
      (now ended t t' : ℕ) (c c' : PortCall e) (port port' : PortEntry e) (s s' : PortRegistry e)
      (x : PortResult e.Data) (key : Text)
      → OrderedMap.get s.ports c.port_name ≡ some port
      → OrderedMap.get s.ports c'.port_name ≡ some port'
      → given c.idempotency_key ≡ some key
      → given c'.idempotency_key ≡ some key
      → e.has_idempotency ≡ true
      → ((d : e.Data) → x ≡ answered e (adapter_used e c.port_name) d → e.is_null d ≡ false)
      → execute e now ended c s ≡ (ok x, s')
      → x.from_cache ≡ false
      → t ≤ ended + 86400 * 1000
      → (d : e.Data) × (x ≡ answered e (adapter_used e c.port_name) d)
        × (execute e t t' c' s'
            ≡ (ok (replayed e (adapter_used e c'.port_name) (result (plain d))), s'))
  call_then_replay now ended t t' c c' port port' s s' x key known known' keyed keyed' service full
        h asked early =
      let (u, alike, a) = execute-Asked e now ended c port s x s' known h asked in
      let v : Value e.Data = result (plain a.reply) in
      let (m, written) = after_keyed ended c port.config a.reply a.before key keyed service in
      let ports : s'.ports ≡ s.ports =
        ground (arith, after_success-ports ended c port.config a.reply a.before) in
      let cached : Memory.get t (Inbound.build_cache_key e.hash key) s'.cache ≡ (some v, s'.cache) =
        rw (a.state_lem, written)
          (get-set ended t 86400 (Inbound.build_cache_key e.hash key) v m early) in
      (
        a.reply,
        a.answer_lem,
        execute-replayed t t' c' port' s' v s'.cache key (ground arith) keyed' service cached
            (full a.reply a.answer_lem),
      )
