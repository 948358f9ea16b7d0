-- ===== src/Payment/Tests.antt =====
-- The payment service (src/modules/payment/payment.service.ts) on small ports, and the theorems at
-- concrete inputs.
use app_tu_phuc_vu.Prelude.{ℕ, suc, ◌+◌, ◌≡◌, refl, true, false, some, [], ◌∷◌, ok, arith}
use app_tu_phuc_vu.Prelude.OrderedMap
use app_tu_phuc_vu.Prelude.Text.{codes, text_eq}
use app_tu_phuc_vu.Cache.Glob.{star, matches}
use app_tu_phuc_vu.Cache.Memory
use app_tu_phuc_vu.Cache.Memory.Instance.{memory_cache, HasRoom-delete_by_pattern}
use app_tu_phuc_vu.Payment.Idempotency.{IdempotencyResult, build_cache_key, get_existing, store}
use app_tu_phuc_vu.Payment.Ports.{
  Ports, Env, World, Invoice, unpaid, qr_code, success, told, duplicate, data_of,
  CreatePaymentRequest, CreateBatchRequest, WebhookPayload, WebhookResult,
}
use app_tu_phuc_vu.Payment.Service.{
  get_invoice, due_invoice, send_order, create_payment, total_due, send_batch, create_batch_payment,
  dispatch, delete_by_pattern, settle_webhook, process_webhook, handle_webhook,
}
use app_tu_phuc_vu.Payment.Service.Webhook.{webhook_twice}
use app_tu_phuc_vu.Payment.Service.Amounts.{
  IsDue, create_payment-IsDue, AllDue, create_batch-AllDue,
}

payments : Unit {0}
unfolding text_eq star matches OrderedMap.get OrderedMap.put OrderedMap.has OrderedMap.delete
    Memory.get Memory.set Memory.delete Memory.get_full_key Memory.delete_by_pattern build_cache_key
    get_existing store get_invoice due_invoice send_order create_payment total_due send_batch
    create_batch_payment dispatch delete_by_pattern settle_webhook process_webhook handle_webhook
payments = tt

-- Every invoice is unpaid, at 100 and the number of calls before; the remote state counts the calls.
abbrev small_ports : Ports
small_ports = record {
  Remote = ℕ;
  Payment = ℕ;
  get_invoice = λ id customer n.
      (data_of (record { payment_status = unpaid; total_amount = 100 + n }), suc n);
  create_payment = λ order n. (data_of order.amount, suc n);
  create_batch = λ order n. (data_of order.total_amount, suc n);
  dispatch = λ x n. (data_of tt, suc n);
}

abbrev env : Env
env = record {
  ports = small_ports;
  cache = memory_cache (IdempotencyResult WebhookResult);
  keeps_dates = true;
  delete_by_pattern = Memory.delete_by_pattern;
  HasRoom-delete_by_pattern = HasRoom-delete_by_pattern;
}

abbrev start : World env
start = record { cached = record { cache = []; key_prefix = []; max_entries = 1000 }; remote = 0 }

abbrev payload : WebhookPayload
payload = record {
  payment_id = codes "P-1";
  invoice_id = codes "I-1";
  customer_id = codes "C-1";
  amount = 100;
  status = success;
}

abbrev after_webhook : World env
after_webhook = (handle_webhook env 1000 (some payload) start).1

abbrev processed_reply : WebhookResult
processed_reply = record { processed = true; payment_id = codes "P-1"; status = told success }

webhook_test : handle_webhook env 1000 (some payload) start ≡ (ok processed_reply, after_webhook)
unfolding payments
webhook_test = refl

start_room : env.cache.HasRoom 1 start.cached
start_room = omega arith

webhook_twice_example :
    ((handle_webhook env 3601000 (some payload) after_webhook).0
      ≡ ok (record { processed = false; payment_id = codes "P-1"; status = duplicate }))
    × ((handle_webhook env 3601000 (some payload) after_webhook).1.remote ≡ after_webhook.remote)
webhook_twice_example =
    webhook_twice env 1000 3601000 payload payload start after_webhook processed_reply webhook_test
      refl refl start_room refl (omega arith)

abbrev one_invoice : CreatePaymentRequest
one_invoice = record { invoice_id = codes "I-1"; method = qr_code }

abbrev after_payment : World env
after_payment = (create_payment env (codes "C-1") (some one_invoice) start).1

payment_test : create_payment env (codes "C-1") (some one_invoice) start ≡ (ok 100, after_payment)
unfolding payments
payment_test = refl

create_payment-IsDue_example :
    (invoice : Invoice) × IsDue env (codes "C-1") (codes "I-1") 0 invoice
    × ((small_ports.create_payment
          (record {
            invoice_id = codes "I-1";
            customer_id = codes "C-1";
            method = qr_code;
            amount = invoice.total_amount;
          })
          1).0
        ≡ data_of 100)
create_payment-IsDue_example =
    create_payment-IsDue env (codes "C-1") one_invoice start 100 after_payment payment_test

abbrev two_invoices : CreateBatchRequest
two_invoices = record { invoice_ids = codes "I-1" ∷ codes "I-2" ∷ []; method = qr_code }

abbrev after_batch : World env
after_batch = (create_batch_payment env (codes "C-1") (some two_invoices) start).1

batch_test :
    create_batch_payment env (codes "C-1") (some two_invoices) start ≡ (ok 201, after_batch)
unfolding payments
batch_test = refl

create_batch-AllDue_example :
    (sum : ℕ) × (r : ℕ) × AllDue env (codes "C-1") two_invoices.invoice_ids 0 sum r
    × ((small_ports.create_batch
          (record {
            invoice_ids = two_invoices.invoice_ids;
            customer_id = codes "C-1";
            method = qr_code;
            total_amount = sum;
          })
          r).0
        ≡ data_of 201)
create_batch-AllDue_example =
    create_batch-AllDue env (codes "C-1") two_invoices start 201 after_batch batch_test

-- Over a cache that gives dates back as texts, a webhook is processed again.
abbrev parsed : Env
parsed = record env { keeps_dates = false }

abbrev on_parsed : World parsed → World parsed
on_parsed w = (handle_webhook parsed 1000 (some payload) w).1

repeated_test :
    (handle_webhook parsed 2000
      (some payload)
      (on_parsed (record { cached = start.cached; remote = 0 }))).0
    ≡ ok processed_reply
unfolding payments
repeated_test = refl

glob_test :
    (matches (codes "cache:v2:port:invoice:*") (codes "cache:v2:port:invoice:42") ≡ true)
    × (matches (codes "cache:v2:port:invoice:*") (codes "idempotency:P-1") ≡ false)
    × (matches (codes "a?c*e") (codes "abcdde") ≡ true)
unfolding payments
glob_test = (refl, refl, refl)
