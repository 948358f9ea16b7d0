-- ===== src/Outbox/Repository/Finding.antt =====
-- The row of an id in the outbox table (src/libs/shared/database/outbox/outbox.repository.ts), after
-- each statement on the table.
use app_tu_phuc_vu.Prelude.{
  ℕ, ◌≤◌, ◌≡◌, refl, sym, Bool, false, any, Option, none, some, List, [], ◌∷◌, ◌++◌, count_if,
  count_if-append, keep, if◌then◌else◌, arith, Bool-cases, inl, inr,
}
use app_tu_phuc_vu.Prelude.Text.{Text, text_eq, text_eq_iff}
use app_tu_phuc_vu.Outbox.Repository.{
  Event, Codec, Row, is_pending, has_id, is_takeable, update_where, new_row, add,
  mark_as_processing,
}

unfoldable pub find : Text → List Row → Option Row
find id [] = none
find id (r ∷ rows) = if text_eq r.id id then some r else find id rows

-- The primary key.
abbrev pub IsKeyed : List Row → Type 0
IsKeyed rows = (id : Text) → count_if (has_id id) rows ≤ 1

abbrev pub touched : (Row → Bool) → (Row → Row) → Option Row → Option Row
touched p change none = none
touched p change (some r) = some (if p r then change r else r)

module _ (p : Row → Bool) (change : Row → Row) (keeps : (r : Row) → (change r).id ≡ r.id) where
  pub find-update_where :
      (id : Text) (rows : List Row)
      → find id (update_where p change rows) ≡ touched p change (find id rows)
  unfolding find update_where
  find-update_where id [] = refl
  find-update_where id (r ∷ rows) = ground (arith, keeps r, find-update_where id rows)

  pub IsKeyed-update_where :
      (id : Text) (rows : List Row)
      → count_if (has_id id) (update_where p change rows) ≡ count_if (has_id id) rows
  unfolding update_where
  IsKeyed-update_where id [] = refl
  IsKeyed-update_where id (r ∷ rows) = ground (arith, keeps r, IsKeyed-update_where id rows)

find-none : (id : Text) (rows : List Row) → find id rows ≡ none → count_if (has_id id) rows ≡ 0
unfolding find
find-none id [] h = refl
find-none id (r ∷ rows) h = ground (arith, find-none id rows)

pub find-some : (id : Text) (rows : List Row) (r : Row) → find id rows ≡ some r → r.id ≡ id
unfolding find
find-some id [] r h = absurd (cc)
find-some id (x ∷ rows) r h = ground (arith, find-some id rows r, text_eq_iff x.id id)

none_found : (id : Text) (rows : List Row) → count_if (has_id id) rows ≡ 0 → find id rows ≡ none
unfolding find
none_found id [] h = refl
none_found id (r ∷ rows) h = ground (arith, none_found id rows)

absent :
    (id : Text) (rows : List Row) → any (has_id id) rows ≡ false → count_if (has_id id) rows ≡ 0
absent id [] h = refl
absent id (r ∷ rows) h = ground (arith, absent id rows)

abbrev pub takeable : Option Row → Bool
takeable none = false
takeable (some r) = is_pending r.status

takes_none :
    (id : Text) (rows : List Row)
    → count_if (has_id id) rows ≡ 0
    → count_if (is_takeable id) rows ≡ 0
takes_none id [] h = refl
takes_none id (r ∷ rows) h = ground (arith, takes_none id rows)

-- An entry is acquired where its row is pending.
pub acquired_lem :
    (id : Text) (rows : List Row)
    → count_if (has_id id) rows ≤ 1
    → (mark_as_processing id rows).0 ≡ takeable (find id rows)
unfolding mark_as_processing find
acquired_lem id [] h = refl
acquired_lem id (r ∷ rows) h = ground (arith, acquired_lem id rows, takes_none id rows)

add_lem :
    (c : Codec) (now : ℕ) (x : Event) (rows rows' : List Row)
    → add c now x rows ≡ some rows'
    → (any (has_id x.event_id) rows ≡ false) × (rows' ≡ rows ++ new_row c now x ∷ [])
unfolding add
add_lem c now x rows rows' h = ground arith

-- The event's id was not in the table before.
pub unknown_before :
    (c : Codec) (now : ℕ) (x : Event) (rows rows' : List Row)
    → add c now x rows ≡ some rows'
    → find x.event_id rows ≡ none
unknown_before c now x rows rows' h =
    none_found x.event_id rows (absent x.event_id rows (add_lem c now x rows rows' h).0)

find-append :
    (id : Text) (rows : List Row) (r : Row)
    → count_if (has_id r.id) rows ≡ 0
    → find id (rows ++ r ∷ []) ≡ (if text_eq r.id id then some r else find id rows)
unfolding find
find-append id [] r h = refl
find-append id (x ∷ rows) r h =
    ground (
      arith,
      find-append id rows r,
      text_eq_iff x.id id,
      text_eq_iff x.id r.id,
      text_eq_iff r.id id,
    )

pub find-add :
    (c : Codec) (now : ℕ) (x : Event) (rows rows' : List Row) (id : Text)
    → add c now x rows ≡ some rows'
    → find id rows' ≡ (if text_eq x.event_id id then some (new_row c now x) else find id rows)
find-add c now x rows rows' id h =
    let (fresh, same) = add_lem c now x rows rows' h in
    rw same (find-append id rows (new_row c now x) (absent x.event_id rows fresh))

pub IsKeyed-add :
    (c : Codec) (now : ℕ) (x : Event) (rows rows' : List Row)
    → add c now x rows ≡ some rows'
    → IsKeyed rows
    → IsKeyed rows'
IsKeyed-add c now x rows rows' h keyed id =
    let (fresh, same) = add_lem c now x rows rows' h in
    let none_yet = absent x.event_id rows fresh in
    rw (same, count_if-append (has_id id) rows (new_row c now x ∷ []))
      (elim (Bool-cases (text_eq x.event_id id)) [
        | inl own ↦
            let eq : x.event_id ≡ id = ground (arith, text_eq_iff x.event_id id) in
            let at_id : count_if (has_id id) rows ≡ 0 = rw (sym eq) none_yet in
            ground (arith, at_id)
        | inr other ↦ ground (arith, keyed id)
      ])

pub count-keep :
    (p : Row → Bool) (id : Text) (rows : List Row)
    → count_if (has_id id) (keep p rows) ≤ count_if (has_id id) rows
count-keep p id [] = omega arith
count-keep p id (r ∷ rows) = ground (arith, count-keep p id rows)

-- Of the kept rows the one of an id is the one that was there, if it was kept.
abbrev pub kept : (Row → Bool) → Option Row → Option Row
kept p none = none
kept p (some r) = if p r then some r else none

pub find-keep :
    (p : Row → Bool) (id : Text) (rows : List Row)
    → count_if (has_id id) rows ≤ 1
    → find id (keep p rows) ≡ kept p (find id rows)
unfolding find
find-keep p id [] h = refl
find-keep p id (r ∷ rows) h = ground (
  arith,
  find-keep p id rows,
  count-keep p id rows,
  none_found id rows,
  none_found id (keep p rows),
)
