-- ===== src/Binding/Guard/AfterBind.antt =====
-- From a successful `bind` to the guard (src/modules/binding): the next requests carry the customer.
use app_tu_phuc_vu.Prelude.{
  ℕ, ◌+◌, ◌≤◌, ◌≡◌, ◌≢◌, refl, true, false, some, [], ◌∷◌, ok, arith, ◌∙◌, ap,
}
use app_tu_phuc_vu.Prelude.Text.{Text}
use app_tu_phuc_vu.Cache.Contract.{live, value_of, expiry_of}
use app_tu_phuc_vu.Binding.Types.{CacheValue, binding, BindingCacheEntry}
use app_tu_phuc_vu.Binding.Keys.{bind_key}
use app_tu_phuc_vu.Binding.Pii.{plain, decrypt-encrypt_if_needed}
use app_tu_phuc_vu.Binding.Env.{Env, World}
use app_tu_phuc_vu.Binding.Flow.{
  BindBody, BindResult, Caller, binding_cache_ttl_sec, warm_entry, bound_entry,
}
use app_tu_phuc_vu.Binding.Service.{bind}
use app_tu_phuc_vu.Binding.Service.Success.{before_accept, cipher_of, bind-IsEarned}
use app_tu_phuc_vu.Binding.Service.SingleUse.{peek-bind_key}
use app_tu_phuc_vu.Binding.Guard.{passes, attach, verdict_on, resolve_binding, can_activate}

-- What the guard does with an entry that it read from the cache.
cached-guard :
    (e : Env) (t : ℕ) (u : Text) (w : World e) (entry : BindingCacheEntry)
    → u ≢ []
    → (e.cache.get t (bind_key u) w.cached).0 ≡ some (binding entry)
    → (can_activate e t (some u) false w).0 ≡ verdict_on e u (some entry)
unfolding can_activate resolve_binding
cached-guard e t [] w entry h found = absurd (h refl)
cached-guard e t (x ∷ u) w entry h found = ground (arith, found)

attach-plain :
    (u id : Text) (entry : BindingCacheEntry)
    → id ≢ []
    → attach u entry (plain id)
      ≡ passes (
          some (record {
            id = u;
            customer_id = id;
            customer_ref = entry.customer_ref;
            verified_at = entry.verified_at;
            device_info = entry.device_info;
          }))
attach-plain u [] entry h = absurd (h refl)
attach-plain u (x ∷ id) entry h = refl

live_until :
    (now t : ℕ) (v : CacheValue)
    → t ≤ now + 3600000
    → live t (some (record { value = v; expiry = expiry_of now (some binding_cache_ttl_sec) }))
      ≡ some (record { value = v; expiry = some (now + 3600000) })
live_until now t v le = ground arith

-- After a bind that succeeded, each request of the user within the hour passes the guard, with the
-- customer id that the bind reported, decrypted from the cache, and the reference that was bound,
-- where the cache had room, the user has an id and so has the customer.
pub bind-can_activate :
    (e : Env) (now : ℕ) (who : Caller) (body : BindBody) (w w' : World e) (id : Text) (t : ℕ)
    → bind e now who body w ≡ (ok (record { bound = true; customer_id = some id }), w')
    → e.cache.HasRoom 1 w.cached
    → who.user_id ≢ []
    → id ≢ []
    → t ≤ now + 3600000
    → (can_activate e t (some who.user_id) false w').0
      ≡ passes (
          some (record {
            id = who.user_id;
            customer_id = id;
            customer_ref = body.customer_ref;
            verified_at = some now;
            device_info = who.device_info;
          }))
bind-can_activate e now who body w w' id t run room user customer le =
    let b : BindResult = record { bound = true; customer_id = some id } in
    let earned = bind-IsEarned e now who body w b w' run refl in
    let cipher_id = cipher_of e now who body (before_accept e now who body w) earned.id in
    let entry = warm_entry now who body.customer_ref cipher_id in
    let same : earned.id ≡ id = cc earned.reply in
    let read : (e.cache.get t (bind_key who.user_id) w'.cached).0 ≡ some entry =
      e.cache.get_lem t (bind_key who.user_id) w'.cached
      ∙ ap value_of
          (peek-bind_key e now who body w b w' run refl room t ∙ live_until now t entry le) in
    cached-guard e t who.user_id w' (bound_entry now who body.customer_ref cipher_id) user read
    ∙ (rw
        (
          same,
          decrypt-encrypt_if_needed e.cipher (before_accept e now who body w).drawn id customer,
        )
        (attach-plain who.user_id id (bound_entry now who body.customer_ref cipher_id) customer))
