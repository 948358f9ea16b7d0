-- ===== src/Payment/Service/Webhook.antt =====
-- The webhook of src/modules/payment/payment.service.ts is answered once per payment.
use app_tu_phuc_vu.Prelude.{ℕ, ◌*◌, sym, true, ◌+◌, ◌≤◌, ◌≡◌, ◌∙◌, ap, refl, false, some, ok, arith}
use app_tu_phuc_vu.Prelude.Text.{text_eq_refl, codes}
use app_tu_phuc_vu.Cache.Contract.{live, value_of, expiry_of}
use app_tu_phuc_vu.Payment.Idempotency.{
  IdempotencyResult, build_cache_key, get_existing, store, default_ttl,
}
use app_tu_phuc_vu.Payment.Ports.{
  WebhookPayload, WebhookResult, WebhookStatus, success, failed, duplicate, Env, World,
}
use app_tu_phuc_vu.Payment.Service.{
  result_of, dispatch, delete_by_pattern, settle_webhook, process_webhook, handle_webhook,
}

module _ (e : Env) where
  HasRoom-settle_webhook :
      (status : WebhookStatus) (p : WebhookPayload) (w : World e)
      → e.cache.HasRoom 1 w.cached
      → e.cache.HasRoom 1 (settle_webhook e status p w).1.cached
  unfolding settle_webhook delete_by_pattern dispatch
  HasRoom-settle_webhook success p w room =
      e.HasRoom-delete_by_pattern 1 _ _ (e.HasRoom-delete_by_pattern 1 _ _ room)
  HasRoom-settle_webhook failed p w room = room

  module _ (now : ℕ) (p : WebhookPayload) (w : World e) where
    -- The entry that `store` makes.
    abbrev pub stored : IdempotencyResult WebhookResult
    stored = record {
      result = result_of p;
      stored_at = now;
      expires_at = now + default_ttl * 1000;
      command_type = codes "HandlePaymentWebhook";
    }

    abbrev settled : World e
    settled = (settle_webhook e p.status p w).1

    settled_ok : (settle_webhook e p.status p w).0 ≡ ok tt
    unfolding settle_webhook delete_by_pattern dispatch
    settled_ok = ground arith

    process_webhook_lem : process_webhook e now p w ≡ (
      ok (result_of p),
      record settled {
        cached =
            store e.cache now p.payment_id
              (result_of p)
              (codes "HandlePaymentWebhook")
              settled.cached;
      },
    )
    unfolding process_webhook
    process_webhook_lem = rw settled_ok refl

    processed-remembers :
        (t : ℕ)
        → e.cache.HasRoom 1 w.cached
        → e.cache.peek t (build_cache_key p.payment_id) (process_webhook e now p w).1.cached
          ≡ live t (some (record { value = stored; expiry = expiry_of now (some default_ttl) }))
    unfolding store
    processed-remembers t room =
        rw
          (
            process_webhook_lem,
            e.cache.peek-set now t default_ttl (build_cache_key p.payment_id)
                (build_cache_key p.payment_id) stored settled.cached
                (HasRoom-settle_webhook p.status p w room),
            text_eq_refl (build_cache_key p.payment_id),
          )
          refl

  -- An answer that the payment was processed leaves its entry.
  handled-processes :
      (now : ℕ) (p : WebhookPayload) (w w' : World e) (r : WebhookResult)
      → handle_webhook e now (some p) w ≡ (ok r, w')
      → r.processed ≡ true
      → process_webhook e now p
          (record w { cached = (e.cache.get now (build_cache_key p.payment_id) w.cached).1 })
        ≡ (ok r, w')
  unfolding handle_webhook get_existing
  handled-processes now p w w' r h done = ground arith

  -- After a webhook was processed, another one for the same payment within the hour, whatever else it
  -- says, is answered as a duplicate: no notification is dispatched and no port is called, where the
  -- cache had room for one more entry and gives dates back as dates, as the one in memory does.
  pub webhook_twice :
      (now t : ℕ) (p p' : WebhookPayload) (w w' : World e) (r : WebhookResult)
      → handle_webhook e now (some p) w ≡ (ok r, w')
      → r.processed ≡ true
      → e.keeps_dates ≡ true
      → e.cache.HasRoom 1 w.cached
      → p'.payment_id ≡ p.payment_id
      → t ≤ now + 3600000
      → ((handle_webhook e t (some p') w').0
          ≡ ok (record { processed = false; payment_id = p.payment_id; status = duplicate }))
        × ((handle_webhook e t (some p') w').1.remote ≡ w'.remote)
  unfolding handle_webhook get_existing
  webhook_twice now t p p' w w' r h done dates room same le =
      let w₁ = record w { cached = (e.cache.get now (build_cache_key p.payment_id) w.cached).1 } in
      let run = handled-processes now p w w' r h done in
      let there : (e.cache.get t (build_cache_key p.payment_id) w'.cached).0
          ≡ some (stored now p w₁) =
        e.cache.get_lem t (build_cache_key p.payment_id) w'.cached
        ∙ ap (λ x. value_of (e.cache.peek t (build_cache_key p.payment_id) x.1.cached)) (sym run)
        ∙ ap value_of (
            processed-remembers now p w₁ t
              (e.cache.HasRoom-get 1 now (build_cache_key p.payment_id) w.cached room))
        ∙ ground arith in
      rw (same, there, dates) (refl, refl)
