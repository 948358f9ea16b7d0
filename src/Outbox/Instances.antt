-- ===== src/Outbox/Instances.antt =====
-- Several instances of the processor of
-- src/libs/shared/database/outbox/outbox-processor.service.ts on one table, interleaved at their
-- awaits: each call of the repository and of the bus is a step, and an instance may stop between two.
pub mod Invariant
pub mod Safety
use app_tu_phuc_vu.Prelude.{
  ℕ, true, false, ◌≡◌, ◌==◌, none, some, List, [], ◌∷◌, count_if, if◌then◌else◌, ok, err,
}
use app_tu_phuc_vu.Prelude.Text.{Text, text_eq}
use app_tu_phuc_vu.Outbox.Repository.{
  Event, Codec, Row, add, get_pending, mark_as_processing, mark_as_processed, mark_as_failed,
  reset_for_retry, delete_processed,
}
use app_tu_phuc_vu.Outbox.Processor.{OutboxConfig, EventBus}

-- Where an instance stands in `processOutbox`: between polls, before the next entry of its batch, or
-- within `processEntry` after the entry was acquired, published, or found to fail.
pub data Phase : Type 0 where
  idle : Phase
  working : List Row → Phase
  holding : Row → List Row → Phase
  delivered : Row → List Row → Phase
  broken : Row → Text → List Row → Phase

-- `handed` keeps the id of each event that was given to the bus.
pub record System (b : EventBus) : Type 0 where
  pub rows : List Row
  pub bus : b.Bus
  pub handed : List Text
  pub phase : ℕ → Phase

abbrev pub at : ℕ → Phase → (ℕ → Phase) → ℕ → Phase
at i p phase j = if i == j then p else phase j

abbrev pub times_handed : Text → List Text → ℕ
times_handed id handed = count_if (λ h. text_eq h id) handed

module _ (c : Codec) (b : EventBus) (config : OutboxConfig) where
  -- A transaction adds an event of a new id; or an instance `i` takes its next step, or stops.
  pub data Step : System b → System b → Type 0 where
    adds :
        (s : System b) (now : ℕ) (x : Event) (rows : List Row)
        → times_handed x.event_id s.handed ≡ 0
        → add c now x s.rows ≡ some rows
        → Step s (record s { rows = rows })
    polls :
        (s : System b) (i : ℕ) (x : Row) (rest : List Row)
        → s.phase i ≡ idle
        → get_pending config.batch_size s.rows ≡ x ∷ rest
        → Step s (record s { phase = at i (working (x ∷ rest)) s.phase })
    wins :
        (s : System b) (i : ℕ) (x : Row) (rest : List Row)
        → s.phase i ≡ working (x ∷ rest)
        → (mark_as_processing x.id s.rows).0 ≡ true
        → Step s (record s {
          rows = (mark_as_processing x.id s.rows).1;
          phase = at i (holding x rest) s.phase;
        })
    loses :
        (s : System b) (i : ℕ) (x : Row) (rest : List Row)
        → s.phase i ≡ working (x ∷ rest)
        → (mark_as_processing x.id s.rows).0 ≡ false
        → Step s (record s { phase = at i (working rest) s.phase })
    publishes :
        (s : System b) (i : ℕ) (x : Row) (rest : List Row) (event : Event)
        → s.phase i ≡ holding x rest
        → c.parse x.payload ≡ ok event
        → (b.publish event s.bus).0 ≡ none
        → Step s (record s {
          bus = (b.publish event s.bus).1;
          handed = x.id ∷ s.handed;
          phase = at i (delivered x rest) s.phase;
        })
    throws_out :
        (s : System b) (i : ℕ) (x : Row) (rest : List Row) (event : Event) (error : Text)
        → s.phase i ≡ holding x rest
        → c.parse x.payload ≡ ok event
        → (b.publish event s.bus).0 ≡ some error
        → Step s (record s {
          bus = (b.publish event s.bus).1;
          handed = x.id ∷ s.handed;
          phase = at i (broken x error rest) s.phase;
        })
    unreadable :
        (s : System b) (i : ℕ) (x : Row) (rest : List Row) (error : Text)
        → s.phase i ≡ holding x rest
        → c.parse x.payload ≡ err error
        → Step s (record s { phase = at i (broken x error rest) s.phase })
    completes :
        (s : System b) (i now : ℕ) (x : Row) (rest : List Row)
        → s.phase i ≡ delivered x rest
        → Step s (record s {
          rows = mark_as_processed now x.id s.rows;
          phase = at i (working rest) s.phase;
        })
    fails :
        (s : System b) (i : ℕ) (x : Row) (error : Text) (rest : List Row)
        → s.phase i ≡ broken x error rest
        → Step s (record s {
          rows = mark_as_failed x.id error s.rows;
          phase = at i (working rest) s.phase;
        })
    ends :
        (s : System b) (i : ℕ)
        → s.phase i ≡ working []
        → Step s (record s {
          rows = (reset_for_retry config.max_retries s.rows).1;
          phase = at i idle s.phase;
        })
    cleans :
        (s : System b) (older_than : ℕ)
        → Step s (record s { rows = (delete_processed older_than s.rows).1 })
    stops : (s : System b) (i : ℕ) → Step s (record s { phase = at i idle s.phase })

  -- What a run leads to.
  pub data Reaches : System b → System b → Type 0 where
    here : (s : System b) → Reaches s s
    then_step : (s t u : System b) → Reaches s t → Step t u → Reaches s u
