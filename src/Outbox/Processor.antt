-- ===== src/Outbox/Processor.antt =====
-- src/libs/shared/database/outbox/outbox-processor.service.ts: a poll of the outbox, and the hourly
-- cleanup, at one reading `now` of the clock. The timers are left out.
pub mod Entry
pub mod Batch
use app_tu_phuc_vu.Prelude.{
  ℕ, ◌-◌, ◌*◌, Bool, true, false, ltb, Option, none, some, List, [], ◌∷◌, if◌then◌else◌, Result, ok,
  err,
}
use app_tu_phuc_vu.Prelude.Text.{Text}
use app_tu_phuc_vu.Outbox.Repository.{
  Event, Codec, Row, get_pending, mark_as_processing, mark_as_processed, mark_as_failed,
  reset_for_retry, delete_processed,
}

pub record OutboxConfig : Type 0 where
  pub batch_size : ℕ
  pub max_retries : ℕ
  pub retention_period_ms : ℕ

abbrev pub default_config : OutboxConfig
default_config = record {
  batch_size = 100;
  max_retries = 3;
  retention_period_ms = 7 * 24 * 60 * 60 * 1000;
}

-- The event bus: `some` is the message of what a publication threw.
pub record EventBus : Type 1 where
  pub Bus : Type 0
  pub publish : Event → Bus → Option Text × Bus

pub record World (b : EventBus) : Type 0 where
  pub rows : List Row
  pub bus : b.Bus
  pub is_processing : Bool

module _ (c : Codec) (b : EventBus) (config : OutboxConfig) where
  -- The end of `processEntry`, by what publishing threw.
  abbrev pub settle : ℕ → Text → Option Text → World b → World b
  settle now id none w = record w { rows = mark_as_processed now id w.rows }
  settle now id (some error) w = record w { rows = mark_as_failed id error w.rows }

  abbrev pub publish_parsed : ℕ → Text → Result Text Event → World b → World b
  publish_parsed now id (err error) w = settle now id (some error) w
  publish_parsed now id (ok event) w =
      let (thrown, bus) = b.publish event w.bus in settle now id thrown (record w { bus = bus })

  unfoldable pub process_entry : ℕ → Text → Text → World b → World b
  process_entry now id payload w =
      let (acquired, rows) = mark_as_processing id w.rows in
      if acquired then publish_parsed now id (c.parse payload) (record w { rows = rows }) else w

  unfoldable pub process_entries : ℕ → List Row → World b → World b
  unfolding process_entry
  process_entries now [] w = w
  process_entries now (x ∷ rest) w = process_entries now rest (process_entry now x.id x.payload w)

  abbrev pub process_batch : ℕ → List Row → World b → World b
  process_batch now [] w = w
  process_batch now (x ∷ rest) w =
      let w' = process_entries now (x ∷ rest) w in
      record w' { rows = (reset_for_retry config.max_retries w'.rows).1 }

  unfoldable pub process_outbox : ℕ → World b → World b
  process_outbox now w =
      if w.is_processing
      then w
      else (let w' =
            process_batch now (get_pending config.batch_size w.rows)
              (record w { is_processing = true }) in
          record w' { is_processing = false })

  -- A date before the epoch has no row before it.
  unfoldable pub cleanup_old_entries : ℕ → World b → World b
  cleanup_old_entries now w =
      if ltb now config.retention_period_ms
      then w
      else record w { rows = (delete_processed (now - config.retention_period_ms) w.rows).1 }
