-- ===== src/Outbox/Repository/Order.antt =====
-- The batch that getPending of src/libs/shared/database/outbox/outbox.repository.ts returns.
use app_tu_phuc_vu.Prelude.{
  ◌&&◌, ◌++◌, ap, ◌∙◌, min, ℕ, zero, suc, ◌≤◌, ◌≡◌, inl, inr, Bool, Bool-cases, refl, List, [], ◌∷◌,
  length, take, keep, leb, count_if, arith,
}
use app_tu_phuc_vu.Outbox.Repository.{Row, is_pending, insert_oldest, oldest_first, get_pending}

-- No row of the list is older than `t`.
abbrev pub IsAfter : ℕ → List Row → Type 0
IsAfter t [] = Unit
IsAfter t (r ∷ rows) = (t ≤ r.created_at) × IsAfter t rows

abbrev pub IsSorted : List Row → Type 0
IsSorted [] = Unit
IsSorted (r ∷ rows) = IsAfter r.created_at rows × IsSorted rows

IsAfter-le : (s t : ℕ) (rows : List Row) → s ≤ t → IsAfter t rows → IsAfter s rows
IsAfter-le s t [] le h = tt
IsAfter-le s t (r ∷ rows) le h = (omega arith, IsAfter-le s t rows le h.1)

insert-IsAfter :
    (t : ℕ) (r : Row) (rows : List Row)
    → t ≤ r.created_at
    → IsAfter t rows
    → IsAfter t (insert_oldest r rows)
unfolding insert_oldest
insert-IsAfter t r [] le h = (le, tt)
insert-IsAfter t r (x ∷ rows) le h = elim (Bool-cases (leb r.created_at x.created_at)) [
  | inl first ↦ rw first (le, h)
  | inr later ↦ rw later (h.0, insert-IsAfter t r rows le h.1)
]

insert-IsSorted : (r : Row) (rows : List Row) → IsSorted rows → IsSorted (insert_oldest r rows)
unfolding insert_oldest
insert-IsSorted r [] h = (tt, tt)
insert-IsSorted r (x ∷ rows) h = elim (Bool-cases (leb r.created_at x.created_at)) [
  | inl first ↦
      rw first ((ground arith, IsAfter-le r.created_at x.created_at rows (ground arith) h.0), h)
  | inr later ↦
      rw later (insert-IsAfter x.created_at r rows (ground arith) h.0, insert-IsSorted r rows h.1)
]

oldest_first-IsSorted : (rows : List Row) → IsSorted (oldest_first rows)
unfolding oldest_first
oldest_first-IsSorted [] = tt
oldest_first-IsSorted (r ∷ rows) =
    insert-IsSorted r (oldest_first rows) (oldest_first-IsSorted rows)

insert-count :
    (p : Row → Bool) (r : Row) (rows : List Row)
    → count_if p (insert_oldest r rows) ≡ count_if p (r ∷ rows)
unfolding insert_oldest
insert-count p r [] = refl
insert-count p r (x ∷ rows) = ground (arith, insert-count p r rows)

oldest_first-count :
    (p : Row → Bool) (rows : List Row) → count_if p (oldest_first rows) ≡ count_if p rows
unfolding oldest_first
oldest_first-count p [] = refl
oldest_first-count p (r ∷ rows) =
    ground (arith, insert-count p r (oldest_first rows), oldest_first-count p rows)

-- The rows that are left after the first `n`.
abbrev pub left : ℕ → List Row → List Row
left zero rows = rows
left (suc n) [] = []
left (suc n) (r ∷ rows) = left n rows

take-left : (n : ℕ) (rows : List Row) → take n rows ++ left n rows ≡ rows
take-left zero rows = refl
take-left (suc n) [] = refl
take-left (suc n) (r ∷ rows) = ap (λ xs. r ∷ xs) (take-left n rows)

length-take : (n : ℕ) (rows : List Row) → length (take n rows) ≡ min n (length rows)
length-take zero rows = omega arith
length-take (suc n) [] = omega arith
length-take (suc n) (r ∷ rows) = omega (arith, length-take n rows)

count-keep_both :
    (p q : Row → Bool) (rows : List Row)
    → count_if p (keep q rows) ≡ count_if (λ r. q r && p r) rows
count-keep_both p q [] = refl
count-keep_both p q (r ∷ rows) = ground (arith, count-keep_both p q rows)

insert-length : (r : Row) (rows : List Row) → length (insert_oldest r rows) ≡ suc (length rows)
unfolding insert_oldest
insert-length r [] = refl
insert-length r (x ∷ rows) = ground (arith, insert-length r rows)

oldest_first-length : (rows : List Row) → length (oldest_first rows) ≡ length rows
unfolding oldest_first
oldest_first-length [] = refl
oldest_first-length (r ∷ rows) =
    omega (arith, insert-length r (oldest_first rows), oldest_first-length rows)

length-keep_count : (p : Row → Bool) (rows : List Row) → length (keep p rows) ≡ count_if p rows
length-keep_count p [] = refl
length-keep_count p (r ∷ rows) = ground (arith, length-keep_count p rows)

-- The batch, followed by some rest, is the pending rows of the table in the order of their creation.
pub record IsBatch (limit : ℕ) (rows batch : List Row) : Type 0 where
  pub size : length batch ≡ min limit (count_if (λ r. is_pending r.status) rows)
  pub rest : List Row
  pub sorted : IsSorted (batch ++ rest)
  pub same_rows :
      (p : Row → Bool)
      → count_if p (batch ++ rest) ≡ count_if (λ r. is_pending r.status && p r) rows

-- A batch has the oldest pending rows of the table, oldest first, as many as the limit allows.
pub get_pending-IsBatch :
    (limit : ℕ) (rows : List Row) → IsBatch limit rows (get_pending limit rows)
unfolding get_pending
get_pending-IsBatch limit rows =
    let pending = keep (λ (r : Row). is_pending r.status) rows in
    let all = oldest_first pending in
    record {
      size =
          length-take limit all
          ∙ ap (min limit)
              (oldest_first-length pending ∙ length-keep_count (λ r. is_pending r.status) rows);
      rest = left limit all;
      sorted = rw (take-left limit all) (oldest_first-IsSorted pending);
      same_rows = λ p.
          rw (take-left limit all)
            (oldest_first-count p pending ∙ count-keep_both p (λ r. is_pending r.status) rows);
    }
