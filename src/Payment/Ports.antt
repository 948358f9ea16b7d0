-- ===== src/Payment/Ports.antt =====
-- What src/modules/payment/payment.service.ts runs on: the ports that it calls through the registry,
-- the cache, and the requests after their schemas have validated them
-- (src/modules/payment/dto/payment.dto.ts).
use app_tu_phuc_vu.Prelude.{ℕ, Bool, List}
use app_tu_phuc_vu.Prelude.Text.{Text}
use app_tu_phuc_vu.Cache.Contract.{Cache}
use app_tu_phuc_vu.Payment.Idempotency.{IdempotencyResult}

pub data PaymentMethod : Type 0 where
  qr_code payment_link bank_transfer : PaymentMethod

pub data InvoiceStatus : Type 0 where
  paid unpaid overdue cancelled : InvoiceStatus

-- Of an invoice, what the payment service reads.
pub record Invoice : Type 0 where
  pub payment_status : InvoiceStatus
  pub total_amount : ℕ

pub record CreatePaymentRequest : Type 0 where
  pub invoice_id : Text
  pub method : PaymentMethod

pub record CreateBatchRequest : Type 0 where
  pub invoice_ids : List Text
  pub method : PaymentMethod

-- The arguments of `create-payment` and of `create-batch-payment`.
pub record PaymentOrder : Type 0 where
  pub invoice_id : Text
  pub customer_id : Text
  pub method : PaymentMethod
  pub amount : ℕ

pub record BatchOrder : Type 0 where
  pub invoice_ids : List Text
  pub customer_id : Text
  pub method : PaymentMethod
  pub total_amount : ℕ

pub data WebhookStatus : Type 0 where
  success failed : WebhookStatus

pub record WebhookPayload : Type 0 where
  pub payment_id : Text
  pub invoice_id : Text
  pub customer_id : Text
  pub amount : ℕ
  pub status : WebhookStatus

-- 'success' or 'failed', as the payload says, or 'duplicate'.
pub data ResultStatus : Type 0 where
  told : WebhookStatus → ResultStatus
  duplicate : ResultStatus

pub record WebhookResult : Type 0 where
  pub processed : Bool
  pub payment_id : Text
  pub status : ResultStatus

-- What a port's call gives: it throws, it has no data, or it has some.
pub data Reply (A : Type 0) : Type 0 where
  threw : Reply A
  empty : Reply A
  data_of : A → Reply A

-- The notification that the webhook dispatches.
pub data Notification : Type 0 where
  payment_completed : Text → Text → ℕ → Text → Notification
  payment_failed : Text → Text → Text → Notification

-- The ports, with a state behind them; `Payment` is what they answer for a created payment.
pub record Ports : Type 1 where
  pub Remote : Type 0
  pub Payment : Type 0
  pub get_invoice : Text → Text → Remote → Reply Invoice × Remote
  pub create_payment : PaymentOrder → Remote → Reply Payment × Remote
  pub create_batch : BatchOrder → Remote → Reply Payment × Remote
  pub dispatch : Notification → Remote → Reply (Unit {0}) × Remote

-- The cache service, whether it gives back dates as dates, and its deletion by a pattern, which makes
-- no entry.
pub record Env : Type 1 where
  pub ports : Ports
  pub cache : Cache (IdempotencyResult WebhookResult)
  pub keeps_dates : Bool
  pub delete_by_pattern : Text → cache.State → ℕ × cache.State
  pub HasRoom-delete_by_pattern :
      (n : ℕ) (pattern : Text) (s : cache.State)
      → cache.HasRoom n s
      → cache.HasRoom n (delete_by_pattern pattern s).1

pub record World (e : Env) : Type 0 where
  pub cached : e.cache.State
  pub remote : e.ports.Remote
