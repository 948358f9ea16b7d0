-- ===== src/Binding/Tables/Upsert.antt =====
-- `upsertVerified` of src/modules/binding/binding.service.ts on the table of bindings.
use app_tu_phuc_vu.Prelude.{
  ◌≤◌, ◌≡◌, refl, true, none, some, List, [], ◌∷◌, ◌++◌, arith, Bool-cases, Option-cases, inl, inr,
  count_if, count_if-append, sym,
}
use app_tu_phuc_vu.Prelude.Text.{Text, text_eq_refl, text_eq_iff}
use app_tu_phuc_vu.Binding.Tables.{
  BindingRow, Verified, is_row_of, first_row, update_row, reactivated, new_row, upsert_verified,
  verified,
}

module _ (u r : Text) where
  first_row-append :
      (rows : List BindingRow) (row : BindingRow)
      → first_row (is_row_of u r) rows ≡ none
      → is_row_of u r row ≡ true
      → first_row (is_row_of u r) (rows ++ row ∷ []) ≡ some row
  unfolding first_row
  first_row-append [] row h e = rw e
  first_row-append (x ∷ rows) row h e = ground (arith, first_row-append rows row)

  -- An update that keeps the user and the reference is read in place.
  first_row-update :
      (v : Verified) (rows : List BindingRow) (row : BindingRow)
      → first_row (is_row_of u r) rows ≡ some row
      → first_row (is_row_of u r) (update_row row.id (reactivated v) rows)
        ≡ some (reactivated v row)
  unfolding first_row update_row
  first_row-update v [] row h = absurd (cc)
  first_row-update v (x ∷ rows) row h =
      ground (arith, h, text_eq_refl row.id, text_eq_iff x.id row.id, first_row-update v rows row)

  count-update :
      (id : Text) (v : Verified) (rows : List BindingRow)
      → count_if (is_row_of u r) (update_row id (reactivated v) rows)
        ≡ count_if (is_row_of u r) rows
  unfolding update_row
  count-update id v [] = refl
  count-update id v (x ∷ rows) = ground (arith, count-update id v rows)

  count-none :
      (rows : List BindingRow)
      → first_row (is_row_of u r) rows ≡ none
      → count_if (is_row_of u r) rows ≡ 0
  unfolding first_row
  count-none [] h = refl
  count-none (x ∷ rows) h = ground (arith, count-none rows)

-- At most one row per user and reference, whatever its status.
abbrev pub IsUnique : List BindingRow → Type 0
IsUnique rows = (u r : Text) → count_if (is_row_of u r) rows ≤ 1

new_row-is_row_of :
    (u r id : Text) (v : Verified)
    → is_row_of u r (new_row id v) ≡ true
    → (v.user_id ≡ u) × (v.customer_ref ≡ r)
new_row-is_row_of u r id v h =
    (ground (arith, text_eq_iff v.user_id u), ground (arith, text_eq_iff v.customer_ref r))

append-IsUnique :
    (id : Text) (v : Verified) (rows : List BindingRow)
    → first_row (is_row_of v.user_id v.customer_ref) rows ≡ none
    → IsUnique rows
    → IsUnique (rows ++ new_row id v ∷ [])
append-IsUnique id v rows absent unique u r =
    rw (count_if-append (is_row_of u r) rows (new_row id v ∷ []))
      (elim (Bool-cases (is_row_of u r (new_row id v))) [
        | inl same ↦
            let (user, ref) = new_row-is_row_of u r id v same in
            let none_yet : count_if (is_row_of u r) rows ≡ 0 =
              rw (sym user, sym ref) (count-none v.user_id v.customer_ref rows absent) in
            ground (arith, none_yet)
        | inr other ↦ ground (arith, unique u r)
      ])

-- The table keeps at most one row per user and reference when a verified binding is written.
pub upsert_verified-IsUnique :
    (id : Text) (v : Verified) (rows : List BindingRow)
    → IsUnique rows
    → IsUnique (upsert_verified id v rows)
unfolding upsert_verified
upsert_verified-IsUnique id v rows unique u r =
    elim (Option-cases (first_row (is_row_of v.user_id v.customer_ref) rows)) [
      | inl absent ↦ rw absent (append-IsUnique id v rows absent unique u r)
      | inr (row, found) ↦ rw (found, count-update u r row.id v rows) (unique u r)
    ]

-- A row that carries what was verified, with no trace of a revocation.
pub record Carries (v : Verified) (row : BindingRow) : Type 0 where
  pub status : row.status ≡ verified
  pub customer_id : row.customer_id ≡ v.enc_customer_id
  pub factor_used : row.factor_used ≡ some v.factor_used
  pub verified_at : row.verified_at ≡ some v.now
  pub not_revoked : row.revoked_at ≡ none

-- After `upsertVerified` the row that is found for the user and the reference, new or updated in
-- place, carries what was verified.
pub upsert_verified-Carries :
    (id : Text) (v : Verified) (rows : List BindingRow)
    → (row : BindingRow) × (first_row
          (is_row_of v.user_id v.customer_ref)
          (upsert_verified id v rows)
        ≡ some row)
      × Carries v row
unfolding upsert_verified
upsert_verified-Carries id v rows =
    elim (Option-cases (first_row (is_row_of v.user_id v.customer_ref) rows)) [
      | inl absent ↦ (
        new_row id v,
        rw absent (
            first_row-append v.user_id v.customer_ref rows (new_row id v) absent
              (rw (text_eq_refl v.user_id, text_eq_refl v.customer_ref))),
        record {
          status = refl;
          customer_id = refl;
          factor_used = refl;
          verified_at = refl;
          not_revoked = refl;
        },
      )
      | inr (row, found) ↦ (
        reactivated v row,
        rw found (first_row-update v.user_id v.customer_ref v rows row found),
        record {
          status = refl;
          customer_id = refl;
          factor_used = refl;
          verified_at = refl;
          not_revoked = refl;
        },
      )
    ]
