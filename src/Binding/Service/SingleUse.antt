-- ===== src/Binding/Service/SingleUse.antt =====
-- The cache after a successful `bind` (src/modules/binding/binding.service.ts): the pending resolve
-- is used up, and the guard's entry is there.
use app_tu_phuc_vu.Prelude.{ℕ, ◌≡◌, true, false, none, some, err, ok, ◌∙◌, ap}
use app_tu_phuc_vu.Prelude.Text.{text_eq, text_eq_refl}
use app_tu_phuc_vu.Cache.Contract.{live, value_of, expiry_of}
use app_tu_phuc_vu.Binding.Keys.{init_key, bind_key}
use app_tu_phuc_vu.Binding.RateLimiter.{clear_failures}
use app_tu_phuc_vu.Binding.RateLimiter.Checks.{HasRoom-check_locked}
use app_tu_phuc_vu.Binding.Env.{Env, World}
use app_tu_phuc_vu.Binding.Flow.{
  BindBody, BindResult, validation, session_expired, Caller, binding_cache_ttl_sec, cache_get,
  warm_entry, write_audit,
}
use app_tu_phuc_vu.Binding.Service.{bind}
use app_tu_phuc_vu.Binding.Service.Success.{
  lock_state, before_accept, cipher_of, IsEarned, bind-IsEarned,
}

module _ (e : Env) (now : ℕ) (who : Caller) (body : BindBody) where
  -- The cache before the guard's entry is written.
  abbrev emptied : World e → e.cache.State
  emptied w =
      e.cache.delete (init_key who.session_id)
        (clear_failures e.cache who.user_id body.customer_ref (lock_state e now who body w).1)

  HasRoom-emptied : (w : World e) → e.cache.HasRoom 1 w.cached → e.cache.HasRoom 1 (emptied w)
  unfolding clear_failures
  HasRoom-emptied w room = e.cache.HasRoom-delete 1 _ _ (
      e.cache.HasRoom-delete 1 _ _ (
        e.cache.HasRoom-delete 1 _ _ (
          HasRoom-check_locked e.cache now who.user_id body.customer_ref _ 1
            (e.cache.HasRoom-get 1 now _ _ room))))

  module _ (w : World e) (b : BindResult) (w' : World e) (run : bind e now who body w ≡ (ok b, w'))
      (bound : b.bound ≡ true) (room : e.cache.HasRoom 1 w.cached) where
    abbrev earned : IsEarned e now who body w b w'
    earned = bind-IsEarned e now who body w b w' run bound

    -- The guard's entry, as long as it lives.
    pub peek-bind_key :
        (t : ℕ)
        → e.cache.peek t (bind_key who.user_id) w'.cached
          ≡ live t (
              some (record {
                value =
                    warm_entry now who body.customer_ref
                      (cipher_of e now who body (before_accept e now who body w) earned.id);
                expiry = expiry_of now (some binding_cache_ttl_sec);
              }))
    peek-bind_key t =
        ap (e.cache.peek t (bind_key who.user_id)) earned.accepted.cache
        ∙ (rw (
          e.cache.peek-set now t binding_cache_ttl_sec (bind_key who.user_id) (bind_key who.user_id)
              _ (emptied w) (HasRoom-emptied w room),
          text_eq_refl,
        ))

    peek-init_key :
        (t : ℕ)
        → text_eq (bind_key who.user_id) (init_key who.session_id) ≡ false
        → e.cache.peek t (init_key who.session_id) w'.cached ≡ none
    peek-init_key t differ =
        ap (e.cache.peek t (init_key who.session_id)) earned.accepted.cache
        ∙ (rw (
          e.cache.peek-set now t binding_cache_ttl_sec (bind_key who.user_id)
              (init_key who.session_id) _ (emptied w) (HasRoom-emptied w room),
          differ,
          e.cache.peek-delete,
          text_eq_refl,
        ))

    -- After a bind that succeeded, another one on the same session, at whatever time and with
    -- whatever body, is told to begin again, where the cache had room and the user's key is not by
    -- chance the session's.
    pub bind_once :
        (t : ℕ) (body' : BindBody)
        → text_eq (bind_key who.user_id) (init_key who.session_id) ≡ false
        → (bind e t who body' w').0 ≡ err (validation session_expired)
    unfolding bind cache_get write_audit
    bind_once t body' differ =
        let gone : (e.cache.get t (init_key who.session_id) w'.cached).0 ≡ none =
          e.cache.get_lem t (init_key who.session_id) w'.cached
          ∙ ap value_of (peek-init_key t differ) in
        rw gone
