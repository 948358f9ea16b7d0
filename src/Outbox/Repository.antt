-- ===== src/Outbox/Repository.antt =====
-- src/libs/shared/database/outbox/outbox.repository.ts over the table of
-- src/libs/shared/database/outbox/drizzle/schema/outbox.schema.ts, a list of rows in the order of
-- their insertion. Each method is one SQL statement, and is taken to succeed unless it breaks the
-- primary key.
pub mod Finding
pub mod Order
use app_tu_phuc_vu.Prelude.{
  ℕ, ◌+◌, Bool, true, false, not, ◌&&◌, Option, none, some, List, [], ◌∷◌, ◌++◌, take, any, keep,
  count_if, ltb, leb, if◌then◌else◌, Result,
}
use app_tu_phuc_vu.Prelude.Text.{Text, text_eq}

pub data Status : Type 0 where
  pending processing processed failed : Status

-- `IDomainEvent`: `body` stands for its data and its metadata.
pub record Event : Type 0 where
  pub event_id : Text
  pub event_type : Text
  pub aggregate_id : Text
  pub aggregate_type : Text
  pub occurred_at : ℕ
  pub body : Text

-- JSON.stringify, and JSON.parse with the date restored, which may throw.
pub record Codec : Type 0 where
  pub stringify : Event → Text
  pub parse : Text → Result Text Event

pub record Row : Type 0 where
  pub id : Text
  pub aggregate_id : Text
  pub aggregate_type : Text
  pub event_type : Text
  pub payload : Text
  pub status : Status
  pub created_at : ℕ
  pub processed_at : Option ℕ
  pub retry_count : ℕ
  pub last_error : Option Text

abbrev pub is_pending : Status → Bool
is_pending pending = true
is_pending _ = false

abbrev pub is_processing : Status → Bool
is_processing processing = true
is_processing _ = false

abbrev pub is_processed : Status → Bool
is_processed processed = true
is_processed _ = false

abbrev pub is_failed : Status → Bool
is_failed failed = true
is_failed _ = false

abbrev pub has_id : Text → Row → Bool
has_id id r = text_eq r.id id

-- `UPDATE … SET … WHERE …`
unfoldable pub update_where : (Row → Bool) → (Row → Row) → List Row → List Row
update_where p change [] = []
update_where p change (r ∷ rows) = (if p r then change r else r) ∷ update_where p change rows

abbrev pub new_row : Codec → ℕ → Event → Row
new_row c now x = record {
  id = x.event_id;
  aggregate_id = x.aggregate_id;
  aggregate_type = x.aggregate_type;
  event_type = x.event_type;
  payload = c.stringify x;
  status = pending;
  created_at = now;
  processed_at = none;
  retry_count = 0;
  last_error = none;
}

-- `none` is the error of the primary key.
unfoldable pub add : Codec → ℕ → Event → List Row → Option (List Row)
add c now x rows =
    if any (has_id x.event_id) rows then none else some (rows ++ new_row c now x ∷ [])

-- One INSERT of all the values: none is stored if one breaks the key.
unfoldable pub add_many : Codec → ℕ → List Event → List Row → Option (List Row)
unfolding add
add_many c now [] rows = some rows
add_many c now (x ∷ xs) rows = elim (add c now x rows) [
  | none ↦ none
  | some rows' ↦ add_many c now xs rows'
]

-- `ORDER BY created_at ASC`; rows of one instant stay in the order of insertion.
unfoldable pub insert_oldest : Row → List Row → List Row
insert_oldest r [] = r ∷ []
insert_oldest r (x ∷ rows) =
    let rest = insert_oldest r rows in
    if leb r.created_at x.created_at then r ∷ x ∷ rows else x ∷ rest

unfoldable pub oldest_first : List Row → List Row
oldest_first [] = []
oldest_first (r ∷ rows) = insert_oldest r (oldest_first rows)

unfoldable pub get_pending : ℕ → List Row → List Row
unfolding oldest_first
get_pending limit rows = take limit (oldest_first (keep (λ r. is_pending r.status) rows))

abbrev pub is_takeable : Text → Row → Bool
is_takeable id r = text_eq r.id id && is_pending r.status

unfoldable pub mark_as_processing : Text → List Row → Bool × List Row
unfolding update_where
mark_as_processing id rows = (
  ltb 0 (count_if (is_takeable id) rows),
  update_where (is_takeable id) (λ r. record r { status = processing }) rows,
)

unfoldable pub mark_as_processed : ℕ → Text → List Row → List Row
unfolding update_where
mark_as_processed now id rows =
    update_where (has_id id) (λ r. record r { status = processed; processed_at = some now }) rows

unfoldable pub mark_as_failed : Text → Text → List Row → List Row
unfolding update_where
mark_as_failed id error rows =
    update_where (has_id id)
      (λ r. record r { status = failed; last_error = some error; retry_count = r.retry_count + 1 })
      rows

abbrev pub is_retriable : ℕ → Row → Bool
is_retriable max_retries r = is_failed r.status && ltb r.retry_count max_retries

unfoldable pub reset_for_retry : ℕ → List Row → ℕ × List Row
unfolding update_where
reset_for_retry max_retries rows = (
  count_if (is_retriable max_retries) rows,
  update_where (is_retriable max_retries) (λ r. record r { status = pending }) rows,
)

-- `processed_at <= …`, which NULL does not satisfy.
abbrev pub by_then : ℕ → Option ℕ → Bool
by_then older_than none = false
by_then older_than (some t) = leb t older_than

abbrev pub is_old : ℕ → Row → Bool
is_old older_than r = is_processed r.status && by_then older_than r.processed_at

unfoldable pub delete_processed : ℕ → List Row → ℕ × List Row
delete_processed older_than rows =
    (count_if (is_old older_than) rows, keep (λ r. not (is_old older_than r)) rows)

pub record Stats : Type 0 where
  pub pending : ℕ
  pub processing : ℕ
  pub processed : ℕ
  pub failed : ℕ

unfoldable pub get_stats : List Row → Stats
get_stats rows = record {
  pending = count_if (λ r. is_pending r.status) rows;
  processing = count_if (λ r. is_processing r.status) rows;
  processed = count_if (λ r. is_processed r.status) rows;
  failed = count_if (λ r. is_failed r.status) rows;
}
