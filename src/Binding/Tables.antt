-- ===== src/Binding/Tables.antt =====
-- The two tables of the bind flow (src/modules/binding/infrastructure/persistence) and what the
-- service does to them.
pub mod Upsert
use app_tu_phuc_vu.Prelude.{
  ℕ, Bool, true, false, ◌&&◌, Option, none, some, List, [], ◌∷◌, ◌++◌, if◌then◌else◌,
}
use app_tu_phuc_vu.Prelude.Text.{Text, text_eq}
use app_tu_phuc_vu.Binding.Types.{SecretType, ResolveStatus}
use app_tu_phuc_vu.Binding.RateLimiter.{LockReason}

pub data BindingStatus : Type 0 where
  pending verified revoked : BindingStatus

pub data Factor : Type 0 where
  secret : SecretType → Factor
  self_registration : Factor

pub record BindingRow : Type 0 where
  pub id : Text
  pub user_id : Text
  pub customer_ref : Text
  pub customer_id : Option Text
  pub status : BindingStatus
  pub factor_used : Option Factor
  pub verified_at : Option ℕ
  pub device_info : Option Text
  pub bound_at : Option ℕ
  pub revoked_at : Option ℕ
  pub revoked_reason : Option Text
  pub created_at : ℕ
  pub updated_at : ℕ

pub data AuditAction : Type 0 where
  challenge_attempt bind unbind reverify register lockout : AuditAction

-- The reason codes of the column `detail`, before they are printed.
pub data AuditDetail : Type 0 where
  resolved : ResolveStatus → Option ℕ → Bool → AuditDetail
  init_expired : AuditDetail
  foreign_ref_rejected : AuditDetail
  lockout_hit : LockReason → AuditDetail
  lockout_armed : LockReason → ℕ → AuditDetail
  verify_failed : AuditDetail
  factor : Factor → AuditDetail
  re_resolve : ResolveStatus → AuditDetail
  create_conflict : AuditDetail

pub record AuditEntry : Type 0 where
  pub user_id : Text
  pub customer_ref : Option Text
  pub action : AuditAction
  pub success : Bool
  pub detail : AuditDetail
  pub ip : Option Text
  pub device_info : Option Text

abbrev pub is_verified : BindingStatus → Bool
is_verified verified = true
is_verified _ = false

abbrev pub is_row_of : Text → Text → BindingRow → Bool
is_row_of u r row = text_eq row.user_id u && text_eq row.customer_ref r

-- The first row that a `WHERE` keeps, `LIMIT 1`.
unfoldable pub first_row : (BindingRow → Bool) → List BindingRow → Option BindingRow
first_row p [] = none
first_row p (row ∷ rows) = if p row then some row else first_row p rows

-- `UPDATE … WHERE id = …`
unfoldable pub update_row : Text → (BindingRow → BindingRow) → List BindingRow → List BindingRow
update_row id change [] = []
update_row id change (row ∷ rows) =
    (if text_eq row.id id then change row else row) ∷ update_row id change rows

-- What `upsertVerified` is given.
pub record Verified : Type 0 where
  pub user_id : Text
  pub customer_ref : Text
  pub enc_customer_id : Option Text
  pub factor_used : Factor
  pub device_info : Option Text
  pub now : ℕ

abbrev pub reactivated : Verified → BindingRow → BindingRow
reactivated v row = record row {
  customer_id = v.enc_customer_id;
  status = verified;
  factor_used = some v.factor_used;
  verified_at = some v.now;
  bound_at = some v.now;
  device_info = v.device_info;
  revoked_at = none;
  revoked_reason = none;
  updated_at = v.now;
}

abbrev pub new_row : Text → Verified → BindingRow
new_row id v = record {
  id = id;
  user_id = v.user_id;
  customer_ref = v.customer_ref;
  customer_id = v.enc_customer_id;
  status = verified;
  factor_used = some v.factor_used;
  verified_at = some v.now;
  device_info = v.device_info;
  bound_at = some v.now;
  revoked_at = none;
  revoked_reason = none;
  created_at = v.now;
  updated_at = v.now;
}

abbrev upsert_found : Text → Verified → Option BindingRow → List BindingRow → List BindingRow
upsert_found id v none rows = rows ++ new_row id v ∷ []
upsert_found id v (some row) rows = update_row row.id (reactivated v) rows

-- `id` is the fresh id that an insert would take.
unfoldable pub upsert_verified : Text → Verified → List BindingRow → List BindingRow
unfolding first_row update_row
upsert_verified id v rows =
    upsert_found id v (first_row (is_row_of v.user_id v.customer_ref) rows) rows
