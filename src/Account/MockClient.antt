-- ===== src/Account/MockClient.antt =====
-- `MockCustomerServiceClient` of src/modules/account/clients/customer-service-mock.client.ts: the
-- counter is the module's, and `db` the table of created customers, where there is one.
pub mod Known
pub mod Created
use app_tu_phuc_vu.Prelude.{
  ℕ, ◌+◌, Bool, true, false, ◌||◌, Option, none, some, List, [], ◌∷◌, ◌++◌, map, any, keep, or_else,
  ltb, max, length, if◌then◌else◌,
}
use app_tu_phuc_vu.Prelude.OrderedMap
use app_tu_phuc_vu.Prelude.OrderedMap.{OrderedMap}
use app_tu_phuc_vu.Prelude.Text.{Text, text_eq, codes}
use app_tu_phuc_vu.Binding.Types.{
  SecretType, last_invoice_amount, ma_kh, numeric, ChallengeDescriptor, Candidate, ResolveResult,
  none_found, one, many,
}
use app_tu_phuc_vu.Binding.Env.{
  VerifyRequest, CreateCustomerRequest, CreateOutcome, created, conflicted, CustomerService,
  Classification,
}
use app_tu_phuc_vu.Account.Phone.{normalize_phone, masked_name, pad_six, number_of}
use app_tu_phuc_vu.Account.Seeds.{FullAddress, SeedCustomer, seed_customers}

-- A row of mock_customer_store, of which a reference or a phone may be missing.
pub record StoreRow : Type 0 where
  pub customer_ref : Option Text
  pub full_name : Text
  pub phone : Option Text
  pub customer_id : Text
  pub classification : Classification
  pub last_invoice_amount : Option Text
  pub address_prefix : Option Text
  pub address : FullAddress

pub record MockClient : Type 0 where
  pub created_customers : OrderedMap SeedCustomer
  pub counter : ℕ
  pub hydrated : Bool
  pub db : Option (List StoreRow)

abbrev pub customer_in : Text → Text → StoreRow → SeedCustomer
customer_in ref phone row = record {
  customer_ref = ref;
  full_name = row.full_name;
  phone = phone;
  customer_id = row.customer_id;
  classification = row.classification;
  last_invoice_amount = or_else row.last_invoice_amount [];
  address_prefix = or_else row.address_prefix [];
  full_address = row.address;
}

abbrev restored : Text → Text → StoreRow → MockClient → MockClient
restored ref phone row s = record s {
  created_customers = OrderedMap.put s.created_customers phone (customer_in ref phone row);
  counter = max s.counter (or_else (number_of ref) 0);
}

-- A row without a reference or a phone, null or empty, is another mock's.
abbrev pub hydrate_row : Option Text → Option Text → StoreRow → MockClient → MockClient
hydrate_row (some (x ∷ xs)) (some (y ∷ ys)) row s = restored (x ∷ xs) (y ∷ ys) row s
hydrate_row _ _ row s = s

unfoldable pub hydrate_rows : List StoreRow → MockClient → MockClient
hydrate_rows [] s = s
hydrate_rows (row ∷ rows) s = hydrate_rows rows (hydrate_row row.customer_ref row.phone row s)

abbrev pub hydrate_from : Option (List StoreRow) → MockClient → MockClient
hydrate_from none s = s
hydrate_from (some rows) s = hydrate_rows rows (record s { hydrated = true })

unfoldable pub ensure_hydrated : MockClient → MockClient
unfolding hydrate_rows
ensure_hydrated s = if s.hydrated then s else hydrate_from s.db s

abbrev values : OrderedMap SeedCustomer → List SeedCustomer
values m = map (λ e. e.1) m

abbrev pub has_phone : Text → SeedCustomer → Bool
has_phone phone c = text_eq c.phone phone

-- The customers at a normalized phone, created ones first.
unfoldable pub customers_at : Text → MockClient → List SeedCustomer
customers_at norm s =
    keep (has_phone norm) (values s.created_customers) ++ keep (has_phone norm) seed_customers

abbrev hint : SeedCustomer → Text
hint c = masked_name c.full_name ++ codes " • " ++ c.address_prefix

abbrev challenge_for : SeedCustomer → ChallengeDescriptor
challenge_for c = record {
  factor = last_invoice_amount;
  label = codes "Số tiền hoá đơn gần nhất";
  input_mode = numeric;
}

abbrev pub candidate_of : SeedCustomer → Candidate
candidate_of c = record {
  customer_ref = c.customer_ref;
  masked_hint = hint c;
  challenge = challenge_for c;
}

abbrev result_none : ResolveResult
result_none = record {
  status = none_found;
  customer_ref = none;
  masked_hint = none;
  challenge = none;
  candidates = none;
  capped = false;
}

abbrev pub result_for : List SeedCustomer → ResolveResult
result_for [] = result_none
result_for (c ∷ []) = record result_none {
  status = one;
  customer_ref = some c.customer_ref;
  masked_hint = some (hint c);
  challenge = some (challenge_for c);
}
result_for (c ∷ d ∷ cs) =
    if ltb 3 (length (c ∷ d ∷ cs))
    then record result_none { status = many; capped = true }
    else record result_none { status = many; candidates = some (map candidate_of (c ∷ d ∷ cs)) }

unfoldable pub resolve : Text → MockClient → ResolveResult × MockClient
unfolding customers_at ensure_hydrated
resolve phone s =
    let s' = ensure_hydrated s in (result_for (customers_at (normalize_phone phone) s'), s')

abbrev joined : Text → Text → Text
joined a b = a ++ codes ", " ++ b

abbrev pub new_customer : ℕ → Text → CreateCustomerRequest → SeedCustomer
new_customer n norm p = record {
  customer_ref = codes "REF-NEW-" ++ pad_six n;
  full_name = p.full_name;
  phone = norm;
  customer_id = codes "APP-" ++ pad_six n;
  classification = p.classification;
  last_invoice_amount = [];
  address_prefix = joined p.address.street p.address.district;
  full_address = record {
    street = p.address.street;
    ward = p.address.ward;
    district = p.address.district;
    city = p.address.city;
    full_address =
        joined p.address.street (joined p.address.ward (joined p.address.district p.address.city));
  };
}

abbrev row_of : SeedCustomer → StoreRow
row_of c = record {
  customer_ref = some c.customer_ref;
  full_name = c.full_name;
  phone = some c.phone;
  customer_id = c.customer_id;
  classification = c.classification;
  last_invoice_amount = some [];
  address_prefix = some c.address_prefix;
  address = c.full_address;
}

abbrev with_row : StoreRow → Option (List StoreRow) → Option (List StoreRow)
with_row row none = none
with_row row (some rows) = some (rows ++ row ∷ [])

abbrev pub insert_new : Text → CreateCustomerRequest → MockClient → CreateOutcome × MockClient
insert_new norm p s =
    let n = s.counter + 1 in
    let c = new_customer n norm p in
    (
      created (record { customer_id = c.customer_id; customer_ref = c.customer_ref }),
      record s {
        created_customers = OrderedMap.put s.created_customers norm c;
        counter = n;
        db = with_row (row_of c) s.db;
      },
    )

unfoldable pub create : Text → CreateCustomerRequest → MockClient → CreateOutcome × MockClient
unfolding ensure_hydrated
create phone p s =
    let s' = ensure_hydrated s in
    let norm = normalize_phone phone in
    if OrderedMap.has s'.created_customers norm || any (has_phone norm) seed_customers
    then (conflicted, s')
    else insert_new norm p s'

abbrev find_seed : Text → List SeedCustomer → Option SeedCustomer
find_seed ref [] = none
find_seed ref (c ∷ cs) =
    let rest = find_seed ref cs in if text_eq c.customer_ref ref then some c else rest

abbrev right_secret : SecretType → Text → Option SeedCustomer → Bool
right_secret kind value none = false
right_secret last_invoice_amount value (some c) = text_eq c.last_invoice_amount value
right_secret ma_kh value (some c) = false

unfoldable pub verify : VerifyRequest → MockClient → Option Bool × MockClient
verify q s =
    (some (right_secret q.secret_type q.secret_value (find_seed q.customer_ref seed_customers)), s)

abbrev id_of : Option SeedCustomer → Option Text
id_of none = none
id_of (some c) = some c.customer_id

-- Of a profile, the customer id.
unfoldable pub profile : Text → MockClient → Option Text × MockClient
profile ref s = (id_of (find_seed ref seed_customers), s)

unfoldable pub resolve_channel : Text → Text → MockClient → ResolveResult × MockClient
unfolding resolve
resolve_channel channel id s =
    if text_eq channel (codes "APP") then resolve id s else (result_none, s)

-- The mock as the customer service of the bind flow.
abbrev pub mock_customers : CustomerService
mock_customers = record {
  Remote = MockClient;
  resolve = λ phone s. let (r, s') = resolve phone s in (some r, s');
  verify = verify;
  create = create;
  profile = profile;
}
