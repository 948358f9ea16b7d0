-- ===== src/Outbox/Tests.antt =====
-- The outbox (src/libs/shared/database/outbox) on small tables, and the theorems at concrete inputs.
use app_tu_phuc_vu.Prelude.{
  ℕ, suc, ◌≤◌, ◌≡◌, refl, ◌==◌, true, false, none, some, List, [], ◌∷◌, Result, ok, err,
  if◌then◌else◌, arith,
}
use app_tu_phuc_vu.Prelude.Text.{Text, text_eq, text_eq_iff, codes}
use app_tu_phuc_vu.Outbox.Repository.{
  Event, Codec, Row, new_row, update_where, add, insert_oldest, oldest_first, get_pending,
  mark_as_processing, mark_as_processed, mark_as_failed, reset_for_retry, processed,
}
use app_tu_phuc_vu.Outbox.Repository.Finding.{IsKeyed, find}
use app_tu_phuc_vu.Outbox.Processor.{
  default_config, EventBus, World, process_entry, process_entries, process_outbox,
}
use app_tu_phuc_vu.Outbox.Instances.{
  System, Reaches, here, then_step, adds, polls, wins, publishes, times_handed, working, holding,
  delivered, at,
}
use app_tu_phuc_vu.Outbox.Instances.Invariant.{holds}
use app_tu_phuc_vu.Outbox.Instances.Safety.{started, one_holder, handed-le}

outbox : Unit {0}
unfolding text_eq update_where add insert_oldest oldest_first get_pending mark_as_processing
    mark_as_processed mark_as_failed reset_for_retry find process_entry process_entries
    process_outbox
outbox = tt

abbrev event_of : Text → Event
event_of id = record {
  event_id = id;
  event_type = [];
  aggregate_id = [];
  aggregate_type = [];
  occurred_at = 0;
  body = [];
}

-- A payload is its event's id, and the empty one cannot be read.
abbrev parse_id : Text → Result Text Event
parse_id [] = err (codes "Unexpected end of JSON input")
parse_id (x ∷ xs) = ok (event_of (x ∷ xs))

abbrev id_codec : Codec
id_codec = record { stringify = λ x. x.event_id; parse = parse_id }

-- A bus that takes one event and refuses the rest.
abbrev small_bus : EventBus
small_bus = record {
  Bus = ℕ;
  publish = λ x n. ((if n == 0 then none else some (codes "full")), suc n);
}

abbrev row_at : Text → ℕ → Row
row_at id at = new_row id_codec at (event_of id)

abbrev table : List Row
table = row_at (codes "b") 20 ∷ row_at (codes "a") 10 ∷ []

abbrev world : World small_bus
world = record { rows = table; bus = 0; is_processing = false }

abbrev polled : World small_bus
polled = process_outbox id_codec small_bus default_config 99 world

-- The older event is published; the other is put back for a retry.
poll_test :
    polled.rows
    ≡ record (row_at (codes "b") 20) { last_error = some (codes "full"); retry_count = 1 }
      ∷ record (row_at (codes "a") 10) { status = processed; processed_at = some 99 }
      ∷ []
unfolding outbox
poll_test = refl

table-IsKeyed : IsKeyed table
table-IsKeyed id = ground (arith, text_eq_iff (codes "b") id, text_eq_iff (codes "a") id)

-- One event is added; both instances 0 and 1 poll it, and 1 acquires and publishes it.
abbrev empty : System small_bus
empty = started id_codec small_bus default_config (omega arith) 0

abbrev row_a : Row
row_a = row_at (codes "a") 10

abbrev with_event : System small_bus
with_event = record empty { rows = row_a ∷ [] }

abbrev one_polled : System small_bus
one_polled = record with_event { phase = at 0 (working (row_a ∷ [])) with_event.phase }

abbrev both_polled : System small_bus
both_polled = record one_polled { phase = at 1 (working (row_a ∷ [])) one_polled.phase }

abbrev acquired : System small_bus
acquired = record both_polled {
  rows = (mark_as_processing (codes "a") both_polled.rows).1;
  phase = at 1 (holding row_a []) both_polled.phase;
}

abbrev published : System small_bus
published = record acquired {
  bus = 1;
  handed = codes "a" ∷ [];
  phase = at 1 (delivered row_a []) acquired.phase;
}

to_acquired : Reaches id_codec small_bus default_config empty acquired
unfolding outbox
to_acquired =
    then_step _ _ _
      (then_step _ _ _
        (then_step _ _ _
          (then_step _ _ _ (here _) (adds empty 10 (event_of (codes "a")) (row_a ∷ []) refl refl))
          (polls with_event 0 row_a [] refl refl))
        (polls one_polled 1 row_a [] refl refl))
      (wins both_polled 1 row_a [] refl refl)

to_published : Reaches id_codec small_bus default_config empty published
to_published =
    then_step _ _ _ to_acquired
      (publishes acquired 1 row_a [] (event_of (codes "a")) refl refl refl)

held_by_1 : holds (acquired.phase 1) (codes "a") ≡ true
unfolding outbox
held_by_1 = refl

one_holder_example : holds (acquired.phase 0) (codes "a") ≡ false
one_holder_example =
    one_holder id_codec small_bus default_config (omega arith) 0 acquired 1 0 (codes "a")
      to_acquired (λ same. absurd (omega (arith, same))) held_by_1

handed-le_example : times_handed (codes "a") published.handed ≤ 3
handed-le_example =
    handed-le id_codec small_bus default_config (omega arith) 0 published (codes "a") to_published
