-- ===== src/Ports/Execute/Answered.antt =====
-- A whole call of src/libs/shared/port/port-registry.service.ts whose answer comes from no cache.
use app_tu_phuc_vu.Prelude.{ℕ, ◌≡◌, false, Option, none, some, ok, arith, Bool-cases, inl, inr}
use app_tu_phuc_vu.Prelude.OrderedMap
use app_tu_phuc_vu.Cache.Memory
use app_tu_phuc_vu.Inbound
use app_tu_phuc_vu.Prelude.Text.{Text}
use app_tu_phuc_vu.Ports.Types.{AdapterUsed, Value, PortResult, PortEnv, PortEntry}
use app_tu_phuc_vu.Ports.Registry.{
  PortRegistry, Outcome, adapter_used, given, found, replayed, should_cache,
}
use app_tu_phuc_vu.Ports.Degraded.{PortCall}
use app_tu_phuc_vu.Ports.Execute.{
  execute, through_idempotency, through_cache, through_breaker, read_cached, check_key, or_found,
  or_replayed,
}
use app_tu_phuc_vu.Ports.Execute.Inversion.{IsAnswered, through_breaker-IsAnswered}

module _ (e : PortEnv) where
  -- Two states that differ at most in the entries of their caches.
  pub record Alike (s t : PortRegistry e) : Type 0 where
    pub ports : t.ports ≡ s.ports
    pub fallback : t.fallback ≡ s.fallback
    pub circuit_breakers : t.circuit_breakers ≡ s.circuit_breakers
    pub world : t.world ≡ s.world
    pub key_prefix : t.cache.key_prefix ≡ s.cache.key_prefix

  read_cached-Alike :
      (now : ℕ) (c : PortCall e) (s : PortRegistry e) → Alike s (read_cached e now c s).1
  unfolding Memory.get
  read_cached-Alike now c s = ground arith

  check_key-Alike :
      (now : ℕ) (key : Option Text) (s : PortRegistry e) → Alike s (check_key e now key s).1
  unfolding Memory.get Inbound.check
  check_key-Alike now none s = ground arith
  check_key-Alike now (some key) s = ground arith

  Alike-trans : {s t u : PortRegistry e} → Alike s t → Alike t u → Alike s u
  Alike-trans h k = ground arith

  abbrev pub Asked :
      AdapterUsed
      → ℕ
      → PortCall e
      → PortEntry e
      → PortRegistry e
      → PortResult e.Data
      → PortRegistry e
      → Type 0
  Asked used ended c port s x s' =
      (t : PortRegistry e) × Alike s t × IsAnswered e used ended c port.config t x s'

  or_found_rule :
      (P : Outcome e → Type 0) (used : AdapterUsed) (v : Option (Value e.Data)) (s : PortRegistry e)
      (otherwise : Outcome e)
      → ((v : Value e.Data) → P (ok (found e used v), s))
      → P otherwise
      → P (or_found e used v s otherwise)
  or_found_rule P used none s otherwise read called = called
  or_found_rule P used (some v) s otherwise read called = read v

  or_replayed_rule :
      (P : Outcome e → Type 0) (used : AdapterUsed) (v : Option (Value e.Data)) (s : PortRegistry e)
      (otherwise : Outcome e)
      → ((v : Value e.Data) → P (ok (replayed e used v), s))
      → P otherwise
      → P (or_replayed e used v s otherwise)
  or_replayed_rule P used none s otherwise read called = called
  or_replayed_rule P used (some v) s otherwise read called = read v

  module _ (P : Outcome e → Type 0) (now ended : ℕ) (c : PortCall e) (port : PortEntry e)
      (used : AdapterUsed) (start : PortRegistry e)
      (on_found : (v : Value e.Data) (t : PortRegistry e)
        → Alike start t
        → P (ok (found e used v), t))
      (on_replayed : (v : Value e.Data) (t : PortRegistry e)
        → Alike start t
        → P (ok (replayed e used v), t))
      (called : (t : PortRegistry e)
        → Alike start t
        → P (through_breaker e used now ended c port t)) where
    through_cache_rule :
        (s : PortRegistry e) → Alike start s → P (through_cache e used now ended c port s)
    unfolding through_cache
    through_cache_rule s alike = elim (Bool-cases (should_cache c.method port.config)) [
      | inl cacheable ↦
          let (v, t) = read_cached e now c s in
          let alike' : Alike start t = Alike-trans alike (read_cached-Alike now c s) in
          rw cacheable (
            or_found_rule P used v t (through_breaker e used now ended c port t)
              (λ v. on_found v t alike') (called t alike'))
      | inr direct ↦ rw direct (called s alike)
    ]

    through_idempotency_rule :
        (s : PortRegistry e) → Alike start s → P (through_idempotency e used now ended c port s)
    unfolding through_idempotency
    through_idempotency_rule s alike = elim (Bool-cases e.has_idempotency) [
      | inl has ↦
          let (v, t) = check_key e now (given c.idempotency_key) s in
          let alike' : Alike start t =
            Alike-trans alike (check_key-Alike now (given c.idempotency_key) s) in
          rw has (
            or_replayed_rule P used v t (through_cache e used now ended c port t)
              (λ v. on_replayed v t alike') (through_cache_rule t alike'))
      | inr lacks ↦ rw lacks (through_cache_rule s alike)
    ]

  -- A call of a registered port ends with a cached read, a replayed answer, or past the caches.
  pub execute_rule :
      (P : Outcome e → Type 0) (now ended : ℕ) (c : PortCall e) (port : PortEntry e)
      (s : PortRegistry e)
      → OrderedMap.get s.ports c.port_name ≡ some port
      → ((v : Value e.Data) (t : PortRegistry e)
          → Alike s t
          → P (ok (found e (adapter_used e c.port_name) v), t))
      → ((v : Value e.Data) (t : PortRegistry e)
          → Alike s t
          → P (ok (replayed e (adapter_used e c.port_name) v), t))
      → ((t : PortRegistry e)
          → Alike s t
          → P (through_breaker e (adapter_used e c.port_name) now ended c port t))
      → P (execute e now ended c s)
  unfolding execute
  execute_rule P now ended c port s known on_found on_replayed called = rw known (
      through_idempotency_rule P now ended c port (adapter_used e c.port_name) s on_found
        on_replayed called s (ground arith))

  -- An answer from no cache is an adapter's, in a state that is alike but for the breakers.
  pub execute-Asked :
      (now ended : ℕ) (c : PortCall e) (port : PortEntry e) (s : PortRegistry e)
      (x : PortResult e.Data) (s' : PortRegistry e)
      → OrderedMap.get s.ports c.port_name ≡ some port
      → execute e now ended c s ≡ (ok x, s')
      → x.from_cache ≡ false
      → Asked (adapter_used e c.port_name) ended c port s x s'
  execute-Asked now ended c port s x s' known =
      let used = adapter_used e c.port_name in
      execute_rule (λ o. o ≡ (ok x, s') → x.from_cache ≡ false → Asked used ended c port s x s') now
        ended c port s known (λ v t alike h asked. absurd (cc)) (λ v t alike h asked. absurd (cc))
        (λ t alike h asked.
          (t, alike, through_breaker-IsAnswered e used now ended c port t x s' h asked))
