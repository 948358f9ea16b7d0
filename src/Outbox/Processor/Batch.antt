-- ===== src/Outbox/Processor/Batch.antt =====
-- A whole poll, processOutbox of src/libs/shared/database/outbox/outbox-processor.service.ts: what it
-- leaves in processing.
use app_tu_phuc_vu.Prelude.{
  ℕ, ◌≤◌, ◌≡◌, true, false, Option, none, some, List, [], ◌∷◌, count_if, Result, ok, err, arith,
  Bool-cases, inl, inr, refl,
}
use app_tu_phuc_vu.Prelude.Text.{Text}
use app_tu_phuc_vu.Outbox.Repository.{
  Event, Codec, Row, processing, is_processing, has_id, is_takeable, update_where, get_pending,
  mark_as_processing, mark_as_processed, mark_as_failed, reset_for_retry,
}
use app_tu_phuc_vu.Outbox.Processor.{
  OutboxConfig, EventBus, World, settle, publish_parsed, process_entry, process_entries,
  process_batch, process_outbox,
}

abbrev pub in_processing : List Row → ℕ
in_processing rows = count_if (λ r. is_processing r.status) rows

-- An entry that is taken up and settled leaves no row in processing that was not.
settles :
    (id : Text) (change : Row → Row)
    → ((r : Row) → is_processing (change r).status ≡ false)
    → (rows : List Row)
    → in_processing (
        update_where
          (has_id id)
          change
          (update_where (is_takeable id) (λ r. record r { status = processing }) rows))
      ≤ in_processing rows
unfolding update_where
settles id change done [] = omega arith
settles id change done (r ∷ rows) =
    ground (arith, done r, done (record r { status = processing }), settles id change done rows)

resets : (m : ℕ) (rows : List Row) → in_processing (reset_for_retry m rows).1 ≤ in_processing rows
unfolding reset_for_retry update_where
resets m [] = omega arith
resets m (r ∷ rows) = ground (arith, resets m rows)

module _ (c : Codec) (b : EventBus) (config : OutboxConfig) where
  abbrev holding : Text → World b → World b
  holding id w = record w { rows = (mark_as_processing id w.rows).1 }

  settle-in_processing :
      (now : ℕ) (id : Text) (t : Option Text) (bus : b.Bus) (w : World b)
      → in_processing (settle c b config now id t (record (holding id w) { bus = bus })).rows
        ≤ in_processing w.rows
  unfolding mark_as_processing mark_as_processed mark_as_failed
  settle-in_processing now id none bus w = settles id _ (λ r. refl) w.rows
  settle-in_processing now id (some error) bus w = settles id _ (λ r. refl) w.rows

  published-in_processing :
      (now : ℕ) (id : Text) (read : Result Text Event) (w : World b)
      → in_processing (publish_parsed c b config now id read (holding id w)).rows
        ≤ in_processing w.rows
  published-in_processing now id (err error) w = settle-in_processing now id (some error) w.bus w
  published-in_processing now id (ok event) w =
      let (thrown, bus) = b.publish event w.bus in settle-in_processing now id thrown bus w

  entry-in_processing :
      (now : ℕ) (id payload : Text) (w : World b)
      → in_processing (process_entry c b config now id payload w).rows ≤ in_processing w.rows
  unfolding process_entry
  entry-in_processing now id payload w = elim (Bool-cases (mark_as_processing id w.rows).0) [
    | inl acquired ↦ rw acquired (published-in_processing now id (c.parse payload) w)
    | inr lost ↦ rw lost (omega arith)
  ]

  entries-in_processing :
      (now : ℕ) (entries : List Row) (w : World b)
      → in_processing (process_entries c b config now entries w).rows ≤ in_processing w.rows
  unfolding process_entries
  entries-in_processing now [] w = omega arith
  entries-in_processing now (x ∷ rest) w = omega (
    arith,
    entry-in_processing now x.id x.payload w,
    entries-in_processing now rest (process_entry c b config now x.id x.payload w),
  )

  batch-in_processing :
      (now : ℕ) (entries : List Row) (w : World b)
      → in_processing (process_batch c b config now entries w).rows ≤ in_processing w.rows
  batch-in_processing now [] w = omega arith
  batch-in_processing now (x ∷ rest) w = omega (
    arith,
    entries-in_processing now (x ∷ rest) w,
    resets config.max_retries (process_entries c b config now (x ∷ rest) w).rows,
  )

  -- A poll that runs to its end settles every entry that it takes up, published or not: it leaves no
  -- more rows in processing than it found.
  pub process_outbox-in_processing :
      (now : ℕ) (w : World b)
      → in_processing (process_outbox c b config now w).rows ≤ in_processing w.rows
  unfolding process_outbox
  process_outbox-in_processing now w = elim (Bool-cases w.is_processing) [
    | inl busy ↦ rw busy (omega arith)
    | inr free ↦ rw free (
        batch-in_processing now (get_pending config.batch_size w.rows)
          (record w { is_processing = true }))
  ]
