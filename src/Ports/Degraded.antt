-- ===== src/Ports/Degraded.antt =====
-- executeFallback, executeWithQueue and enqueue of src/libs/shared/port/port-registry.service.ts:
-- what a call gives whose breaker is open, or whose adapter failed.
use app_tu_phuc_vu.Prelude.{ℕ, Option, none, true, some, if◌then◌else◌, Result, ok, err}
use app_tu_phuc_vu.Prelude.Text.{Text}
use app_tu_phuc_vu.Inbound.{result}
use app_tu_phuc_vu.Ports.Types.{
  QueuePolicy, never, on_cache_miss, always, AdapterUsed, PortError, PortException, fallback_failed,
  queued, enqueue_failed, plain, degraded, refresh_queued, PortResult, ReplayJobPayload, PortEnv,
}
use app_tu_phuc_vu.Ports.Fallback
use app_tu_phuc_vu.Ports.Fallback.{present, get_cached}
use app_tu_phuc_vu.Ports.Registry.{PortRegistry, Outcome}

-- What a caller asks of a port, and the context that it asks in.
pub record PortCall (e : PortEnv) : Type 0 where
  pub port_name : Text
  pub method : Text
  pub params : e.Params
  pub idempotency_key : Option Text
  pub context : e.Context

module _ (e : PortEnv) where
  abbrev pub payload_of : PortCall e → ReplayJobPayload e.Params e.Context
  payload_of c = record {
    port_name = c.port_name;
    method = c.method;
    params = c.params;
    idempotency_key = c.idempotency_key;
    context = c.context;
  }

  -- The end of executeFallback, by what the fallback gave.
  abbrev pub fallback_result :
      AdapterUsed
      → ℕ
      → Option PortError
      → Result (Option PortError) e.Data
      → Result (PortException e.JobId) (PortResult e.Data)
  fallback_result used now error (ok d) = ok (record {
    answer = some (result (plain d));
    adapter_used = used;
    from_cache = true;
    metadata = degraded now;
  })
  fallback_result used now error (err x) = err (fallback_failed error)

  -- An error of none is that of an open breaker.
  unfoldable pub execute_fallback :
      Text → AdapterUsed → ℕ → Option PortError → PortRegistry e → Outcome e
  execute_fallback name used now error s =
      (fallback_result used now error (Fallback.execute e.is_null name error s.fallback), s)

  abbrev pub queued_as : Option e.JobId → PortException e.JobId
  queued_as none = enqueue_failed
  queued_as (some job) = queued job

  abbrev pub queue_call : PortCall e → PortRegistry e → Outcome e
  queue_call c s =
      let (job, w) = e.enqueue (payload_of c) s.world in
      (err (queued_as job), record s { world = w })

  -- A stale answer, with a refresh queued behind it; a failed enqueue is only logged.
  abbrev pub serve_stale : AdapterUsed → ℕ → PortCall e → PortRegistry e → Option e.Data → Outcome e
  serve_stale used now c s none = queue_call c s
  serve_stale used now c s (some d) =
      let (job, w) = e.enqueue (payload_of c) s.world in
      (
        ok (record {
          answer = some (result (plain d));
          adapter_used = used;
          from_cache = true;
          metadata = refresh_queued now;
        }),
        record s { world = w },
      )

  abbrev pub by_policy :
      QueuePolicy → AdapterUsed → ℕ → Option PortError → PortCall e → PortRegistry e → Outcome e
  by_policy never used now error c s = execute_fallback c.port_name used now error s
  by_policy on_cache_miss used now error c s =
      serve_stale used now c s (present e.is_null (get_cached c.port_name s.fallback))
  by_policy always used now error c s = queue_call c s

  unfoldable pub execute_with_queue :
      QueuePolicy → AdapterUsed → ℕ → Option PortError → PortCall e → PortRegistry e → Outcome e
  unfolding execute_fallback get_cached
  execute_with_queue policy used now error c s =
      if e.has_queue
      then by_policy policy used now error c s
      else execute_fallback c.port_name used now error s
