-- ===== src/Payment/Service.antt =====
-- createPayment, createBatchPayment and handleWebhook of src/modules/payment/payment.service.ts. A
-- body is `none` where its schema refuses it.
pub mod Webhook
pub mod Amounts
use app_tu_phuc_vu.Prelude.{
  ℕ, ◌+◌, Bool, true, false, Option, none, some, List, [], ◌∷◌, if◌then◌else◌, Exec, returns,
  throws, modifies, ok, ◌>>=◌, ◌>>◌, is_some,
}
use app_tu_phuc_vu.Prelude.Text.{Text, codes}
use app_tu_phuc_vu.Payment.Idempotency.{get_existing, store}
use app_tu_phuc_vu.Payment.Ports.{
  PaymentOrder, BatchOrder, CreatePaymentRequest, CreateBatchRequest, WebhookPayload, WebhookResult,
  WebhookStatus, Invoice, InvoiceStatus, unpaid, told, duplicate, success, failed, Reply, threw,
  empty, data_of, Notification, payment_completed, payment_failed, Env, World,
}

pub data PaymentError : Type 0 where
  invalid_body : PaymentError
  not_found : Text → PaymentError
  not_available : Text → InvoiceStatus → PaymentError
  upstream : PaymentError
  no_response : PaymentError

abbrev pub is_unpaid : InvoiceStatus → Bool
is_unpaid unpaid = true
is_unpaid _ = false

abbrev pub result_of : WebhookPayload → WebhookResult
result_of p = record { processed = true; payment_id = p.payment_id; status = told p.status }

module _ (e : Env) where
  abbrev pub Pay : Type 0 → Type 0
  Pay A = Exec PaymentError (World e) A

  abbrev pub replied : {A : Type 0} → PaymentError → Reply A → Pay A
  replied missing threw = throws upstream
  replied missing empty = throws missing
  replied missing (data_of x) = returns x

  unfoldable pub get_invoice : Text → Text → Pay Invoice
  get_invoice invoice_id customer_id w =
      let (answer, r) = e.ports.get_invoice invoice_id customer_id w.remote in
      replied (not_found invoice_id) answer (record w { remote = r })

  -- The invoice, if it is there and unpaid.
  unfoldable pub due_invoice : Text → Text → Pay Invoice
  due_invoice invoice_id customer_id = do
    invoice ← get_invoice invoice_id customer_id
    if is_unpaid invoice.payment_status
        then returns invoice
        else throws (not_available invoice_id invoice.payment_status)

  unfoldable pub send_order : PaymentOrder → Pay e.ports.Payment
  send_order order w =
      let (answer, r) = e.ports.create_payment order w.remote in
      replied (not_found order.invoice_id) answer (record w { remote = r })

  unfoldable pub create_payment : Text → Option CreatePaymentRequest → Pay e.ports.Payment
  create_payment customer_id none = throws invalid_body
  create_payment customer_id (some body) = do
    invoice ← due_invoice body.invoice_id customer_id
    send_order (record {
      invoice_id = body.invoice_id;
      customer_id = customer_id;
      method = body.method;
      amount = invoice.total_amount;
    })

  -- The loop over the invoices of a batch, from the amount so far.
  unfoldable pub total_due : Text → List Text → ℕ → Pay ℕ
  total_due customer_id [] sum = returns sum
  total_due customer_id (id ∷ ids) sum = do
    invoice ← due_invoice id customer_id
    total_due customer_id ids (sum + invoice.total_amount)

  -- Reading `data.paymentId` of an answer without data throws.
  unfoldable pub send_batch : BatchOrder → Pay e.ports.Payment
  send_batch order w =
      let (answer, r) = e.ports.create_batch order w.remote in
      replied no_response answer (record w { remote = r })

  unfoldable pub create_batch_payment : Text → Option CreateBatchRequest → Pay e.ports.Payment
  create_batch_payment customer_id none = throws invalid_body
  create_batch_payment customer_id (some body) = do
    sum ← total_due customer_id body.invoice_ids 0
    send_batch (record {
      invoice_ids = body.invoice_ids;
      customer_id = customer_id;
      method = body.method;
      total_amount = sum;
    })

  -- A dispatch that throws is logged and forgotten.
  unfoldable pub dispatch : Notification → Pay Unit
  dispatch n = modifies (λ w. record w { remote = (e.ports.dispatch n w.remote).1 })

  unfoldable pub delete_by_pattern : Text → Pay Unit
  delete_by_pattern pattern =
      modifies (λ w. record w { cached = (e.delete_by_pattern pattern w.cached).1 })

  unfoldable pub settle_webhook : WebhookStatus → WebhookPayload → Pay Unit
  settle_webhook success p = do
    delete_by_pattern (codes "cache:v2:port:invoice:*")
    delete_by_pattern (codes "cache:v2:port:debt:*")
    dispatch (payment_completed p.customer_id p.invoice_id p.amount p.payment_id)
  settle_webhook failed p = dispatch (payment_failed p.customer_id p.invoice_id p.payment_id)

  unfoldable pub process_webhook : ℕ → WebhookPayload → Pay WebhookResult
  process_webhook now p = do
    settle_webhook p.status p
    modifies (λ w. record w {
      cached = store e.cache now p.payment_id (result_of p) (codes "HandlePaymentWebhook") w.cached;
    })
    returns (result_of p)

  unfoldable pub handle_webhook : ℕ → Option WebhookPayload → Pay WebhookResult
  handle_webhook now none = throws invalid_body
  handle_webhook now (some p) = do
    existing ← λ w.
        let (found, s) = get_existing e.cache e.keeps_dates now p.payment_id w.cached in
        (ok found, record w { cached = s })
    if is_some existing
        then returns (record { processed = false; payment_id = p.payment_id; status = duplicate })
        else process_webhook now p
