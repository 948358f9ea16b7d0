-- ===== src/Binding/Guard.antt =====
-- src/modules/binding/guards/binding-verified.guard.ts: every authenticated route wants a verified
-- binding, from the cache first and from the table otherwise, unless it is marked to skip.
pub mod AfterBind
pub mod Backing
use app_tu_phuc_vu.Prelude.{ℕ, Bool, true, false, ◌&&◌, if◌then◌else◌, Option, none, some, [], ◌∷◌}
use app_tu_phuc_vu.Prelude.Text.{Text, text_eq}
use app_tu_phuc_vu.Binding.Types.{CacheValue, binding, BindingCacheEntry}
use app_tu_phuc_vu.Binding.Keys.{bind_key}
use app_tu_phuc_vu.Binding.RateLimiter.{is_truthy}
use app_tu_phuc_vu.Binding.Pii.{Decrypted, plain, failed, decrypt_if_needed}
use app_tu_phuc_vu.Binding.Tables.{BindingRow, is_verified, first_row}
use app_tu_phuc_vu.Binding.Env.{Env, World}
use app_tu_phuc_vu.Binding.Flow.{binding_cache_ttl_sec}

-- The customer that the guard attaches to the request.
pub record BoundCustomer : Type 0 where
  pub id : Text
  pub customer_id : Text
  pub customer_ref : Text
  pub verified_at : Option ℕ
  pub device_info : Option Text

-- The request goes on, with a customer or without; it is answered 403 BINDING_REQUIRED or 500
-- BINDING_INTEGRITY; or decryption throws.
pub data Verdict : Type 0 where
  passes : Option BoundCustomer → Verdict
  binding_required : Verdict
  binding_integrity : Verdict
  decryption_threw : Verdict

abbrev pub shapeless : BindingCacheEntry
shapeless = record {
  customer_id_cipher = none;
  customer_ref = [];
  verified_at = none;
  device_info = none;
}

-- A truthy value that the cache returns is taken for an entry: of another shape, it has none of an
-- entry's fields.
abbrev pub entry_in : Option CacheValue → Option BindingCacheEntry
entry_in none = none
entry_in (some (binding b)) = some b
entry_in (some v) = if is_truthy (some v) then some shapeless else none

abbrev pub row_entry : BindingRow → BindingCacheEntry
row_entry row = record {
  customer_id_cipher = row.customer_id;
  customer_ref = row.customer_ref;
  verified_at = row.verified_at;
  device_info = row.device_info;
}

abbrev pub attach : Text → BindingCacheEntry → Decrypted → Verdict
attach u entry (plain (x ∷ xs)) = passes (
    some (record {
      id = u;
      customer_id = x ∷ xs;
      customer_ref = entry.customer_ref;
      verified_at = entry.verified_at;
      device_info = entry.device_info;
    }))
attach u entry failed = decryption_threw
attach u entry _ = binding_integrity

module _ (e : Env) where
  abbrev pub row_found : ℕ → Text → Option BindingRow → World e → Option BindingCacheEntry × World e
  row_found now u none w = (none, w)
  row_found now u (some row) w = (
    some (row_entry row),
    record w {
      cached =
          e.cache.set now (bind_key u) (binding (row_entry row)) binding_cache_ttl_sec w.cached;
    },
  )

  -- The cache first, then the first verified row of the user, which warms the cache.
  unfoldable pub resolve_binding : ℕ → Text → World e → Option BindingCacheEntry × World e
  resolve_binding now u w =
      let (found, s) = e.cache.get now (bind_key u) w.cached in
      let w₁ = record w { cached = s } in
      elim (entry_in found) [
        | some entry ↦ (some entry, w₁)
        | none ↦
            row_found now u
              (first_row (λ row. text_eq row.user_id u && is_verified row.status) w.bindings) w₁
      ]

  abbrev pub verdict_on : Text → Option BindingCacheEntry → Verdict
  verdict_on u none = binding_required
  verdict_on u (some entry) = attach u entry (decrypt_if_needed e.cipher entry.customer_id_cipher)

  abbrev pub guard_user : ℕ → Text → Bool → World e → Verdict × World e
  guard_user now u true w = (passes none, w)
  guard_user now u false w = let (entry, w') = resolve_binding now u w in (verdict_on u entry, w')

  -- `request?.user?.id`, then the mark of `@SkipBindingVerified()`.
  unfoldable pub can_activate : ℕ → Option Text → Bool → World e → Verdict × World e
  can_activate now none skip w = (passes none, w)
  can_activate now (some []) skip w = (passes none, w)
  can_activate now (some (x ∷ xs)) skip w = guard_user now (x ∷ xs) skip w
