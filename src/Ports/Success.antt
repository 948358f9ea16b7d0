-- ===== src/Ports/Success.antt =====
-- The writes of execute in src/libs/shared/port/port-registry.service.ts after an adapter answered.
use app_tu_phuc_vu.Prelude.{ℕ, ◌++◌, Option, none, some, [], ◌∷◌, if◌then◌else◌}
use app_tu_phuc_vu.Prelude.Text.{Text}
use app_tu_phuc_vu.Cache.Memory
use app_tu_phuc_vu.Cache.Memory.{delete_by_pattern}
use app_tu_phuc_vu.Inbound
use app_tu_phuc_vu.Inbound.{result}
use app_tu_phuc_vu.Ports.Types.{PortConfig, plain, entry, PortEnv}
use app_tu_phuc_vu.Ports.Fallback.{set_cached}
use app_tu_phuc_vu.Ports.Methods.{is_mutation_method}
use app_tu_phuc_vu.Ports.Registry.{PortRegistry, port_prefix, should_cache, given, build_cache_key}
use app_tu_phuc_vu.Ports.Degraded.{PortCall}

module _ (e : PortEnv) where
  -- A mutation drops the port's cached reads.
  abbrev pub invalidate : PortCall e → PortRegistry e → PortRegistry e
  invalidate c s =
      if is_mutation_method c.method
      then record s { cache = (delete_by_pattern (port_prefix c.port_name ++ b'*' ∷ []) s.cache).1 }
      else s

  abbrev pub write_cached : ℕ → PortCall e → PortConfig → e.Data → PortRegistry e → PortRegistry e
  write_cached ended c config d s =
      if should_cache c.method config
      then record s {
        cache =
            Memory.set ended (build_cache_key e c.port_name c.method c.params)
              (result (entry d ended)) (some config.cache_ttl) s.cache;
      }
      else s

  abbrev pub remember : PortCall e → e.Data → PortRegistry e → PortRegistry e
  remember c d s = record s { fallback = set_cached c.port_name d s.fallback }

  abbrev pub stored_under : ℕ → Option Text → e.Data → PortRegistry e → PortRegistry e
  stored_under ended none d s = s
  stored_under ended (some key) d s =
      elim (Inbound.store e.hash ended key (plain d) (some s.cache)) [
        | none ↦ s
        | some m ↦ record s { cache = m }
      ]

  abbrev pub store_idempotent : ℕ → PortCall e → e.Data → PortRegistry e → PortRegistry e
  store_idempotent ended c d s =
      if e.has_idempotency then stored_under ended (given c.idempotency_key) d s else s

  -- What is written after an adapter has answered.
  unfoldable pub after_success :
      ℕ → PortCall e → PortConfig → e.Data → PortRegistry e → PortRegistry e
  unfolding delete_by_pattern Memory.set set_cached Inbound.store
  after_success ended c config d s =
      store_idempotent ended c d (remember c d (write_cached ended c config d (invalidate c s)))
