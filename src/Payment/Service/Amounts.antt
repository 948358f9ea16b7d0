-- ===== src/Payment/Service/Amounts.antt =====
-- What src/modules/payment/payment.service.ts orders: the amounts of invoices that were read as unpaid.
use app_tu_phuc_vu.Prelude.{
  ℕ, ◌+◌, ◌≡◌, ap, sym, ◌∙◌, chain_ok, ◌⊎◌, inl, inr, refl, true, some, List, [], ◌∷◌, ok, arith,
  Bool-cases,
}
use app_tu_phuc_vu.Prelude.Text.{Text}
use app_tu_phuc_vu.Payment.Ports.{
  PaymentOrder, BatchOrder, CreatePaymentRequest, CreateBatchRequest, Invoice, InvoiceStatus, paid,
  unpaid, overdue, cancelled, Reply, threw, empty, data_of, Env, World,
}
use app_tu_phuc_vu.Payment.Service.{
  is_unpaid, get_invoice, due_invoice, send_order, create_payment, total_due, send_batch,
  create_batch_payment,
}

Reply-cases : {A : Type 0} (x : Reply A) → (x ≡ threw) ⊎ (x ≡ empty) ⊎ ((a : A) × (x ≡ data_of a))
Reply-cases threw = inl refl
Reply-cases empty = inr (inl refl)
Reply-cases (data_of a) = inr (inr (a, refl))

is_unpaid_lem : (s : InvoiceStatus) → is_unpaid s ≡ true → s ≡ unpaid
is_unpaid_lem unpaid h = refl
is_unpaid_lem paid h = absurd (cc)
is_unpaid_lem overdue h = absurd (cc)
is_unpaid_lem cancelled h = absurd (cc)

module _ (e : Env) (customer_id : Text) where
  -- The port answered the invoice, and it was unpaid.
  abbrev pub IsDue : Text → e.ports.Remote → Invoice → Type 0
  IsDue id r invoice =
      ((e.ports.get_invoice id customer_id r).0 ≡ data_of invoice)
      × (invoice.payment_status ≡ unpaid)

  due_invoice-IsDue :
      (id : Text) (w : World e) (invoice : Invoice) (w' : World e)
      → due_invoice e id customer_id w ≡ (ok invoice, w')
      → IsDue id w.remote invoice
        × (w' ≡ record w { remote = (e.ports.get_invoice id customer_id w.remote).1 })
  unfolding due_invoice get_invoice
  due_invoice-IsDue id w invoice w' h =
      elim (Reply-cases (e.ports.get_invoice id customer_id w.remote).0) [
        | inl thrown ↦ absurd (ground arith)
        | inr (inl none_there) ↦ absurd (ground arith)
        | inr (inr (x, found)) ↦ elim (Bool-cases (is_unpaid x.payment_status)) [
          | inl free ↦
              let same : x ≡ invoice = ground arith in
              (
                (
                  found ∙ ap data_of same,
                  is_unpaid_lem invoice.payment_status (rw (sym same) free),
                ),
                ground arith,
              )
          | inr other ↦ absurd (ground arith)
        ]
      ]

  send_order-answers :
      (order : PaymentOrder) (w : World e) (payment : e.ports.Payment) (w' : World e)
      → send_order e order w ≡ (ok payment, w')
      → (e.ports.create_payment order w.remote).0 ≡ data_of payment
  unfolding send_order
  send_order-answers order w payment w' h =
      elim (Reply-cases (e.ports.create_payment order w.remote).0) [
        | inl thrown ↦ absurd (ground arith)
        | inr (inl none_there) ↦ absurd (ground arith)
        | inr (inr (x, found)) ↦ ground arith
      ]

  send_batch-answers :
      (order : BatchOrder) (w : World e) (payment : e.ports.Payment) (w' : World e)
      → send_batch e order w ≡ (ok payment, w')
      → (e.ports.create_batch order w.remote).0 ≡ data_of payment
  unfolding send_batch
  send_batch-answers order w payment w' h =
      elim (Reply-cases (e.ports.create_batch order w.remote).0) [
        | inl thrown ↦ absurd (ground arith)
        | inr (inl none_there) ↦ absurd (ground arith)
        | inr (inr (x, found)) ↦ ground arith
      ]

  abbrev batch_of : CreateBatchRequest → ℕ → BatchOrder
  batch_of body sum = record {
    invoice_ids = body.invoice_ids;
    customer_id = customer_id;
    method = body.method;
    total_amount = sum;
  }

  abbrev order_of : CreatePaymentRequest → Invoice → PaymentOrder
  order_of body invoice = record {
    invoice_id = body.invoice_id;
    customer_id = customer_id;
    method = body.method;
    amount = invoice.total_amount;
  }

  -- A payment that is created is ordered for the customer with the amount of an invoice that the
  -- billing port gave as unpaid just before, and the answer is the payment port's.
  pub create_payment-IsDue :
      (body : CreatePaymentRequest) (w : World e) (payment : e.ports.Payment) (w' : World e)
      → create_payment e customer_id (some body) w ≡ (ok payment, w')
      → (invoice : Invoice) × IsDue body.invoice_id w.remote invoice
        × ((e.ports.create_payment
              (record {
                invoice_id = body.invoice_id;
                customer_id = customer_id;
                method = body.method;
                amount = invoice.total_amount;
              })
              (e.ports.get_invoice body.invoice_id customer_id w.remote).1).0
            ≡ data_of payment)
  unfolding create_payment
  create_payment-IsDue body w payment w' h =
      let (invoice, first, rest) =
        chain_ok (due_invoice e body.invoice_id customer_id) (λ i. send_order e (order_of body i)) w
          w' payment h in
      let (due, next) = due_invoice-IsDue body.invoice_id w invoice _ first in
      let w₁ : World e = record w {
        remote = (e.ports.get_invoice body.invoice_id customer_id w.remote).1;
      } in
      let sent : send_order e (order_of body invoice) w₁ ≡ (ok payment, w') =
        ap (send_order e (order_of body invoice)) (sym next) ∙ rest in
      (invoice, due, send_order-answers (order_of body invoice) w₁ payment w' sent)

  -- Each invoice of the list was given as unpaid, one read after the other, and `sum` is the sum of
  -- their amounts.
  abbrev pub AllDue : List Text → e.ports.Remote → ℕ → e.ports.Remote → Type 0
  AllDue [] r sum r' = (sum ≡ 0) × (r' ≡ r)
  AllDue (id ∷ ids) r sum r' =
      (invoice : Invoice) × (others : ℕ) × IsDue id r invoice
      × (sum ≡ invoice.total_amount + others)
      × AllDue ids (e.ports.get_invoice id customer_id r).1 others r'

  total_due-AllDue :
      (ids : List Text) (sum : ℕ) (w : World e) (n : ℕ) (w' : World e)
      → total_due e customer_id ids sum w ≡ (ok n, w')
      → (more : ℕ) × (n ≡ sum + more) × AllDue ids w.remote more w'.remote
  unfolding total_due
  total_due-AllDue [] sum w n w' h = (0, ground arith, (refl, ground arith))
  total_due-AllDue (id ∷ ids) sum w n w' h =
      let (invoice, first, rest) =
        chain_ok (due_invoice e id customer_id)
          (λ i. total_due e customer_id ids (sum + i.total_amount)) w w' n h in
      let (due, next) = due_invoice-IsDue id w invoice _ first in
      let w₁ : World e = record w { remote = (e.ports.get_invoice id customer_id w.remote).1 } in
      let counted : total_due e customer_id ids (sum + invoice.total_amount) w₁ ≡ (ok n, w') =
        ap (total_due e customer_id ids (sum + invoice.total_amount)) (sym next) ∙ rest in
      let (more, adds, all) = total_due-AllDue ids (sum + invoice.total_amount) w₁ n w' counted in
      (invoice.total_amount + more, omega (arith, adds), (invoice, more, due, refl, all))

  -- A batch that is created is ordered with the sum of the amounts of its invoices, each of which the
  -- billing port gave as unpaid, and the answer is the payment port's.
  pub create_batch-AllDue :
      (body : CreateBatchRequest) (w : World e) (payment : e.ports.Payment) (w' : World e)
      → create_batch_payment e customer_id (some body) w ≡ (ok payment, w')
      → (sum : ℕ) × (r : e.ports.Remote) × AllDue body.invoice_ids w.remote sum r
        × ((e.ports.create_batch
              (record {
                invoice_ids = body.invoice_ids;
                customer_id = customer_id;
                method = body.method;
                total_amount = sum;
              })
              r).0
            ≡ data_of payment)
  unfolding create_batch_payment
  create_batch-AllDue body w payment w' h =
      let (n, first, rest) =
        chain_ok (total_due e customer_id body.invoice_ids 0) (λ n. send_batch e (batch_of body n))
          w w' payment h in
      let (sum, adds, all) = total_due-AllDue body.invoice_ids 0 w n _ first in
      let same : n ≡ sum = omega (arith, adds) in
      let w₁ = (total_due e customer_id body.invoice_ids 0 w).1 in
      (sum, w₁.remote, all, rw (sym same) (send_batch-answers (batch_of body n) w₁ payment w' rest))
