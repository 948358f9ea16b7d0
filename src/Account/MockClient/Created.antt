-- ===== src/Account/MockClient/Created.antt =====
-- A customer that was created in src/modules/account/clients/customer-service-mock.client.ts is found.
use app_tu_phuc_vu.Prelude.{
  ◌+◌, ◌≡◌, refl, sym, ap, Bool, true, false, ◌||◌, inl, inr, some, any, [], arith, Bool-cases,
}
use app_tu_phuc_vu.Prelude.OrderedMap
use app_tu_phuc_vu.Prelude.Text.{Text}
use app_tu_phuc_vu.Binding.Types.{one}
use app_tu_phuc_vu.Binding.Env.{CreateCustomerRequest, CreateCustomerResult, CreateOutcome, created}
use app_tu_phuc_vu.Account.Phone.{normalize_phone}
use app_tu_phuc_vu.Account.Seeds.{seed_customers}
use app_tu_phuc_vu.Account.MockClient.{
  MockClient, ensure_hydrated, has_phone, customers_at, resolve, new_customer, insert_new, create,
}
use app_tu_phuc_vu.Account.MockClient.Known.{
  IsKeyed, ensure_hydrated-IsKeyed, IsSettled, IsSettled-if, IsSettled-stays, put-alone, none_kept,
}

ensured : (s : MockClient) → IsSettled (ensure_hydrated s)
unfolding ensure_hydrated
ensured s = IsSettled-if s.hydrated s refl

inserted-IsSettled :
    (norm : Text) (p : CreateCustomerRequest) (s : MockClient)
    → IsSettled s
    → IsSettled (insert_new norm p s).1
inserted-IsSettled norm p s (inl h) = inl h
inserted-IsSettled norm p s (inr h) = inr (ground (arith, h))

abbrev ref_of : CreateOutcome → Text
ref_of (created r) = r.customer_ref
ref_of _ = []

neither : (a b : Bool) → (a || b) ≡ false → (a ≡ false) × (b ≡ false)
neither true b h = absurd (cc)
neither false b h = (refl, h)

-- After a customer was created at a phone, a resolve of any spelling of that phone finds exactly that
-- customer, by the reference that `create` returned, where each created customer stands under its
-- own phone.
pub create_then_resolve :
    (phone phone' : Text) (p : CreateCustomerRequest) (s s' : MockClient) (r : CreateCustomerResult)
    → IsKeyed s.created_customers
    → create phone p s ≡ (created r, s')
    → normalize_phone phone' ≡ normalize_phone phone
    → ((resolve phone' s').0.status ≡ one)
      × ((resolve phone' s').0.customer_ref ≡ some r.customer_ref)
unfolding create resolve customers_at
create_then_resolve phone phone' p s s' r keyed made same =
    let norm = normalize_phone phone in
    let h = ensure_hydrated s in
    let c = new_customer (h.counter + 1) norm p in
    elim (Bool-cases
      (OrderedMap.has h.created_customers norm || any (has_phone norm) seed_customers)) [
        | inl taken ↦ absurd (ground arith)
        | inr free ↦
            let (not_created, not_seed) = neither _ _ free in
            let run : insert_new norm p h ≡ (created r, s') = rw free at made in
            let next : (insert_new norm p h).1 ≡ s' = ap (λ x. x.1) run in
            let reply : c.customer_ref ≡ r.customer_ref = ap (λ x. ref_of x.0) run in
            let still =
              IsSettled-stays (insert_new norm p h).1 (inserted-IsSettled norm p h (ensured s)) in
            let found =
              put-alone norm c refl h.created_customers (ensure_hydrated-IsKeyed s keyed)
                not_created in
            let seeds = none_kept norm seed_customers not_seed in
            rw (sym next, same, still, found, seeds) (refl, ap some reply)
      ]
