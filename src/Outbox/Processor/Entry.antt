-- ===== src/Outbox/Processor/Entry.antt =====
-- What processEntry of src/libs/shared/database/outbox/outbox-processor.service.ts makes of the rows.
use app_tu_phuc_vu.Prelude.{
  ℕ, ◌+◌, ◌≡◌, true, false, ◌&&◌, Option, none, some, List, if◌then◌else◌, Result, ok, err, arith,
  Bool-cases, Option-cases, inl, inr, refl, ap, sym, ◌∙◌,
}
use app_tu_phuc_vu.Prelude.Text.{Text, text_eq, text_eq_iff, text_eq_refl}
use app_tu_phuc_vu.Outbox.Repository.{
  Event, Codec, Row, is_pending, processing, processed, failed, has_id, is_takeable,
  mark_as_processing, mark_as_processed, mark_as_failed,
}
use app_tu_phuc_vu.Outbox.Repository.Finding.{
  find, find-some, IsKeyed, touched, takeable, find-update_where, acquired_lem,
}
use app_tu_phuc_vu.Outbox.Processor.{
  OutboxConfig, EventBus, World, settle, publish_parsed, process_entry,
}

module _ (c : Codec) (b : EventBus) (config : OutboxConfig) where
  -- What a publication throws, the unreadable payload included.
  abbrev pub thrown_by : Result Text Event → b.Bus → Option Text
  thrown_by (err error) bus = some error
  thrown_by (ok event) bus = (b.publish event bus).0

  -- The row of an entry that was taken up, by what publishing it threw.
  abbrev pub settled : ℕ → Option Text → Row → Row
  settled now none r = record r { status = processed; processed_at = some now }
  settled now (some error) r = record r {
    status = failed;
    last_error = some error;
    retry_count = r.retry_count + 1;
  }

  abbrev pub settled_found : ℕ → Option Text → Option Row → Option Row
  settled_found now thrown none = none
  settled_found now thrown (some r) = some (settled now thrown r)

  settle-find :
      (now : ℕ) (id k : Text) (t : Option Text) (w : World b)
      → find k (settle c b config now id t w).rows
        ≡ touched (has_id id) (settled now t) (find k w.rows)
  unfolding mark_as_processed mark_as_failed
  settle-find now id k none w =
      find-update_where (has_id id) (settled now none) (λ r. refl) k w.rows
  settle-find now id k (some error) w =
      find-update_where (has_id id) (settled now (some error)) (λ r. refl) k w.rows

  publish_parsed-find :
      (now : ℕ) (id k : Text) (read : Result Text Event) (w : World b)
      → find k (publish_parsed c b config now id read w).rows
        ≡ touched (has_id id) (settled now (thrown_by read w.bus)) (find k w.rows)
  publish_parsed-find now id k (err error) w = settle-find now id k (some error) w
  publish_parsed-find now id k (ok event) w =
      let (thrown, bus) = b.publish event w.bus in
      settle-find now id k thrown (record w { bus = bus })

  settled-over :
      (now : ℕ) (t : Option Text) (r : Row)
      → settled now t (record r { status = processing }) ≡ settled now t r
  settled-over now none r = refl
  settled-over now (some error) r = refl

  -- The two updates of a row that was pending, or that has another id.
  twice :
      (now : ℕ) (t : Option Text) (id k : Text) (rows : List Row)
      → takeable (find id rows) ≡ true
      → touched
          (has_id id)
          (settled now t)
          (touched (is_takeable id) (λ r. record r { status = processing }) (find k rows))
        ≡ (if text_eq id k then settled_found now t (find k rows) else find k rows)
  twice now t id k rows pending = elim (Option-cases (find k rows)) [
    | inl absent ↦ rw absent (ground arith)
    | inr (r, found) ↦
        let self = find-some k rows r found in
        elim (Bool-cases (text_eq id k)) [
          | inl same ↦
              let eq : id ≡ k = (text_eq_iff id k).0 same in
              let at_k : takeable (find k rows) ≡ true = rw (sym eq) pending in
              let was_pending : is_pending r.status ≡ true = ap takeable (sym found) ∙ at_k in
              let own : text_eq r.id id ≡ true = rw (self, eq) (text_eq_refl k) in
              rw (found, same, own, was_pending, own) (ap some (settled-over now t r))
          | inr other ↦
              let apart : text_eq r.id id ≡ false =
                ground (arith, text_eq_iff r.id id, text_eq_iff id k) in
              rw (found, other, apart, apart) refl
        ]
  ]

  -- Each row after an entry was processed: that of a pending entry is processed if the bus took the
  -- event, and otherwise failed with the error and one more retry; every other row is as it was.
  pub process_entry-find :
      (now : ℕ) (id payload k : Text) (w : World b)
      → IsKeyed w.rows
      → find k (process_entry c b config now id payload w).rows ≡ (
          if takeable (find id w.rows) && text_eq id k
          then settled_found now (thrown_by (c.parse payload) w.bus) (find k w.rows)
          else find k w.rows)
  unfolding process_entry mark_as_processing
  process_entry-find now id payload k w keyed =
      let rows = (mark_as_processing id w.rows).1 in
      let found : find k rows
          ≡ touched (is_takeable id) (λ r. record r { status = processing }) (find k w.rows) =
        find-update_where (is_takeable id) (λ r. record r { status = processing }) (λ r. refl) k
          w.rows in
      let acquired = acquired_lem id w.rows (keyed id) in
      elim (Bool-cases (takeable (find id w.rows))) [
        | inl free ↦
            rw
              (
                acquired,
                free,
                publish_parsed-find now id k (c.parse payload) (record w { rows = rows }),
                found,
              )
              (twice now (thrown_by (c.parse payload) w.bus) id k w.rows free)
        | inr held ↦ rw (acquired, held) refl
      ]
