-- ===== src/Support/Outbox/Batch.antt =====
-- The batch of a flush of src/modules/support/chat-outbox.forwarder.ts.
use app_tu_phuc_vu.Prelude.{
  ℕ, zero, suc, ◌≤◌, ◌≡◌, ◌∙◌, refl, ap, Bool, true, false, ◌&&◌, Bool-cases, inl, inr, Option,
  none, some, List, [], ◌∷◌, ◌++◌, length, take, keep, leb, count_if, min, arith,
}
use app_tu_phuc_vu.Support.Outbox.{ChatRow, insert_row, by_created_at, is_pending, pending}

-- No row of the list is older than `t`.
abbrev pub IsAfter : ℕ → List ChatRow → Type 0
IsAfter t [] = Unit
IsAfter t (row ∷ rows) = (t ≤ row.created_at) × IsAfter t rows

abbrev pub IsSorted : List ChatRow → Type 0
IsSorted [] = Unit
IsSorted (row ∷ rows) = IsAfter row.created_at rows × IsSorted rows

IsAfter-le : (s t : ℕ) (rows : List ChatRow) → s ≤ t → IsAfter t rows → IsAfter s rows
IsAfter-le s t [] le h = tt
IsAfter-le s t (row ∷ rows) le h = (omega arith, IsAfter-le s t rows le h.1)

insert_row-IsAfter :
    (t : ℕ) (row : ChatRow) (rows : List ChatRow)
    → t ≤ row.created_at
    → IsAfter t rows
    → IsAfter t (insert_row row rows)
unfolding insert_row
insert_row-IsAfter t row [] le h = (le, tt)
insert_row-IsAfter t row (x ∷ rows) le h = elim (Bool-cases (leb row.created_at x.created_at)) [
  | inl first ↦ rw first (le, h)
  | inr later ↦ rw later (h.0, insert_row-IsAfter t row rows le h.1)
]

insert_row-IsSorted :
    (row : ChatRow) (rows : List ChatRow) → IsSorted rows → IsSorted (insert_row row rows)
unfolding insert_row
insert_row-IsSorted row [] h = (tt, tt)
insert_row-IsSorted row (x ∷ rows) h = elim (Bool-cases (leb row.created_at x.created_at)) [
  | inl first ↦
      rw first ((ground arith, IsAfter-le row.created_at x.created_at rows (ground arith) h.0), h)
  | inr later ↦ rw later (
    insert_row-IsAfter x.created_at row rows (ground arith) h.0,
    insert_row-IsSorted row rows h.1,
  )
]

by_created_at-IsSorted : (rows : List ChatRow) → IsSorted (by_created_at rows)
unfolding by_created_at
by_created_at-IsSorted [] = tt
by_created_at-IsSorted (row ∷ rows) =
    insert_row-IsSorted row (by_created_at rows) (by_created_at-IsSorted rows)

count_if-insert_row :
    (p : ChatRow → Bool) (row : ChatRow) (rows : List ChatRow)
    → count_if p (insert_row row rows) ≡ count_if p (row ∷ rows)
unfolding insert_row
count_if-insert_row p row [] = refl
count_if-insert_row p row (x ∷ rows) = ground (arith, count_if-insert_row p row rows)

pub count_if-by_created_at :
    (p : ChatRow → Bool) (rows : List ChatRow) → count_if p (by_created_at rows) ≡ count_if p rows
unfolding by_created_at
count_if-by_created_at p [] = refl
count_if-by_created_at p (row ∷ rows) =
    ground (arith, count_if-by_created_at p rows, count_if-insert_row p row (by_created_at rows))

pub count_if-keep :
    {A : Type 0} (p q : A → Bool) (xs : List A)
    → count_if p (keep q xs) ≡ count_if (λ x. p x && q x) xs
count_if-keep p q [] = refl
count_if-keep p q (x ∷ xs) = ground (arith, count_if-keep p q xs)

-- The rows that are left after the first `n`.
abbrev left : ℕ → List ChatRow → List ChatRow
left zero rows = rows
left (suc n) [] = []
left (suc n) (row ∷ rows) = left n rows

take-left : (n : ℕ) (rows : List ChatRow) → take n rows ++ left n rows ≡ rows
take-left zero rows = refl
take-left (suc n) [] = refl
take-left (suc n) (row ∷ rows) = ap (λ xs. row ∷ xs) (take-left n rows)

length-take : (n : ℕ) (rows : List ChatRow) → length (take n rows) ≡ min n (length rows)
length-take zero rows = omega arith
length-take (suc n) [] = omega arith
length-take (suc n) (row ∷ rows) = omega (arith, length-take n rows)

length_all : (rows : List ChatRow) → length rows ≡ count_if (λ row. true) rows
length_all [] = refl
length_all (row ∷ rows) = omega (arith, length_all rows)

-- No time of delivery is noted.
abbrev pub waits : Option ℕ → Bool
waits none = true
waits (some t) = false

is_pending-waits :
    (p : ChatRow → Bool) (rows : List ChatRow)
    → count_if (λ row. p row && is_pending row) rows
      ≡ count_if (λ row. p row && waits row.forwarded_at) rows
is_pending-waits p [] = refl
is_pending-waits p (row ∷ rows) = ground (arith, is_pending-waits p rows)

-- The batch, followed by some rest, is the rows that wait, in the order of their creation.
pub record IsBatch (rows batch : List ChatRow) : Type 0 where
  pub size : length batch ≡ min 50 (count_if (λ row. true && waits row.forwarded_at) rows)
  pub rest : List ChatRow
  pub sorted : IsSorted (batch ++ rest)
  pub same_rows :
      (p : ChatRow → Bool)
      → count_if p (batch ++ rest) ≡ count_if (λ row. p row && waits row.forwarded_at) rows

counts :
    (p : ChatRow → Bool) (rows : List ChatRow)
    → count_if p (by_created_at (keep is_pending rows))
      ≡ count_if (λ row. p row && waits row.forwarded_at) rows
counts p rows =
    count_if-by_created_at p (keep is_pending rows)
    ∙ count_if-keep p is_pending rows
    ∙ is_pending-waits p rows

pub pending-IsBatch : (rows : List ChatRow) → IsBatch rows (pending rows)
pending-IsBatch rows =
    let all = by_created_at (keep is_pending rows) in
    record {
      size = length-take 50 all ∙ ap (min 50) (length_all all ∙ counts (λ row. true) rows);
      rest = left 50 all;
      sorted = rw (take-left 50 all) (by_created_at-IsSorted (keep is_pending rows));
      same_rows = λ p. rw (take-left 50 all) (counts p rows);
    }
