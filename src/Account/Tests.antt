-- ===== src/Account/Tests.antt =====
-- The mock of the customer service (src/modules/account/clients/customer-service-mock.client.ts):
-- runs, and the theorems at concrete inputs.
use app_tu_phuc_vu.Prelude.{◌≡◌, refl, true, false, not, some, none, []}
use app_tu_phuc_vu.Prelude.OrderedMap
use app_tu_phuc_vu.Prelude.Text.{codes, text_eq}
use app_tu_phuc_vu.Binding.Types.{one, last_invoice_amount}
use app_tu_phuc_vu.Binding.Env.{CreateCustomerRequest, CreateCustomerResult, sinh_hoat, created}
use app_tu_phuc_vu.Binding.Register.{is_none_found}
use app_tu_phuc_vu.Account.Phone.{
  drop_zeros, normalize_phone, split_spaces, parts_of, masked_name, digits_onto, decimal, pad_six,
  value_onto, all_digits, after, number_of,
}
use app_tu_phuc_vu.Account.Seeds.{seed_customers}
use app_tu_phuc_vu.Account.MockClient.{
  MockClient, hydrate_rows, ensure_hydrated, customers_at, resolve, create, verify,
}
use app_tu_phuc_vu.Account.MockClient.Known.{is_conflict, create_agrees}
use app_tu_phuc_vu.Account.MockClient.Created.{create_then_resolve}

mock : Unit {0}
unfolding text_eq OrderedMap.get OrderedMap.put OrderedMap.has drop_zeros normalize_phone
    split_spaces parts_of masked_name digits_onto decimal pad_six value_onto all_digits after
    number_of seed_customers hydrate_rows ensure_hydrated customers_at resolve create verify
mock = tt

abbrev fresh : MockClient
fresh = record { created_customers = []; counter = 0; hydrated = false; db = some [] }

abbrev request : CreateCustomerRequest
request = record {
  full_name = codes "An";
  classification = sinh_hoat;
  address = record {
    street = codes "1 A";
    ward = codes "B";
    district = codes "C";
    city = codes "D";
  };
  email = none;
}

phone_test :
    (normalize_phone (codes "+84 901 234 567") ≡ codes "901234567")
    × (normalize_phone (codes "0901234567") ≡ codes "901234567")
unfolding mock
phone_test = (refl, refl)

name_test :
    (masked_name (codes " Le  Minh Khoi ") ≡ codes "Le M***")
    × (masked_name (codes "Hoa") ≡ codes "Hoa***")
unfolding mock
name_test = (refl, refl)

number_test :
    (pad_six 42 ≡ codes "000042")
    × (number_of (codes "REF-NEW-000042") ≡ some 42)
    × (number_of (codes "REF-001") ≡ none)
unfolding mock
number_test = (refl, refl, refl)

abbrev first : CreateCustomerResult
first = record { customer_id = codes "APP-000001"; customer_ref = codes "REF-NEW-000001" }

abbrev after_create : MockClient
after_create = (create (codes "0900000001") request fresh).1

create_test : create (codes "0900000001") request fresh ≡ (created first, after_create)
unfolding mock
create_test = refl

same_phone : normalize_phone (codes "+84900000001") ≡ normalize_phone (codes "0900000001")
unfolding mock
same_phone = refl

create_then_resolve_example :
    ((resolve (codes "+84900000001") after_create).0.status ≡ one)
    × ((resolve (codes "+84900000001") after_create).0.customer_ref ≡ some (codes "REF-NEW-000001"))
create_then_resolve_example =
    create_then_resolve (codes "0900000001") (codes "+84900000001") request fresh after_create first
      tt create_test same_phone

create_agrees_example :
    is_conflict (create (codes "0987654321") request fresh).0
    ≡ not (is_none_found (resolve (codes "0987654321") fresh).0.status)
create_agrees_example = create_agrees (codes "0987654321") request fresh tt

-- The phone of four customers names none of them.
capped_test : (resolve (codes "0666555444") fresh).0.capped ≡ true
unfolding mock
capped_test = refl

-- The customer that was created has no secret that verifies, not even the empty one.
created_secret_test :
    (verify
      (record {
        customer_ref = codes "REF-NEW-000001";
        secret_type = last_invoice_amount;
        secret_value = [];
      })
      after_create).0
    ≡ some false
unfolding mock
created_secret_test = refl
