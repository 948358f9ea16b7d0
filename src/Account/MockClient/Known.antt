-- ===== src/Account/MockClient/Known.antt =====
-- What `create` and `resolve` of src/modules/account/clients/customer-service-mock.client.ts know of a
-- phone.
use app_tu_phuc_vu.Prelude.{
  ◌≤◌, length, or_else, ◌≡◌, refl, sym, ◌∙◌, Bool, true, false, not, ◌||◌, ◌⊎◌, Option, none, some,
  List, [], ◌∷◌, ◌++◌, map, any, keep, All, if◌then◌else◌, arith, Bool-cases, inl, inr,
}
use app_tu_phuc_vu.Prelude.OrderedMap
use app_tu_phuc_vu.Prelude.OrderedMap.{OrderedMap}
use app_tu_phuc_vu.Prelude.Text.{Text, text_eq, text_eq_refl, text_eq_iff}
use app_tu_phuc_vu.Binding.Env.{CreateCustomerRequest, CreateOutcome, conflicted}
use app_tu_phuc_vu.Binding.Register.{is_none_found}
use app_tu_phuc_vu.Account.Phone.{normalize_phone}
use app_tu_phuc_vu.Account.Seeds.{SeedCustomer, seed_customers}
use app_tu_phuc_vu.Account.MockClient.{
  StoreRow, MockClient, customer_in, hydrate_row, hydrate_rows, hydrate_from, ensure_hydrated,
  has_phone, customers_at, candidate_of, result_for, resolve, create,
}

-- Each created customer stands under its own phone.
abbrev pub IsKeyed : OrderedMap SeedCustomer → Type 0
IsKeyed m = All (λ e. e.1.phone ≡ e.0) m

abbrev is_empty : List SeedCustomer → Bool
is_empty [] = true
is_empty (c ∷ cs) = false

abbrev pub is_conflict : CreateOutcome → Bool
is_conflict conflicted = true
is_conflict _ = false

module _ (norm : Text) where
  put-IsKeyed :
      (m : OrderedMap SeedCustomer) (c : SeedCustomer)
      → c.phone ≡ norm
      → IsKeyed m
      → IsKeyed (OrderedMap.put m norm c)
  unfolding OrderedMap.put
  put-IsKeyed [] c h keyed = (h, tt)
  put-IsKeyed ((j, d) ∷ m) c h keyed = elim (Bool-cases (text_eq j norm)) [
    | inl same ↦ rw same (h ∙ sym ((text_eq_iff j norm).0 same), keyed.1)
    | inr other ↦ rw other (keyed.0, put-IsKeyed m c h keyed.1)
  ]

  has-empty :
      (m : OrderedMap SeedCustomer)
      → IsKeyed m
      → OrderedMap.has m norm ≡ not (is_empty (keep (has_phone norm) (map (λ e. e.1) m)))
  unfolding OrderedMap.has OrderedMap.get
  has-empty [] keyed = refl
  has-empty ((j, d) ∷ m) keyed = rw (keyed.0) (ground (arith, has-empty m keyed.1))

  any-empty :
      (cs : List SeedCustomer) → any (has_phone norm) cs ≡ not (is_empty (keep (has_phone norm) cs))
  any-empty [] = refl
  any-empty (c ∷ cs) = ground (arith, any-empty cs)

append-empty :
    (cs ds : List SeedCustomer)
    → (not (is_empty cs) || not (is_empty ds)) ≡ not (is_empty (cs ++ ds))
append-empty [] ds = refl
append-empty (c ∷ cs) ds = refl

result-empty : (cs : List SeedCustomer) → is_none_found (result_for cs).status ≡ is_empty cs
result-empty [] = refl
result-empty (c ∷ []) = refl
result-empty (c ∷ d ∷ cs) = ground arith

hydrate_row-IsKeyed :
    (ref phone : Option Text) (row : StoreRow) (s : MockClient)
    → IsKeyed s.created_customers
    → IsKeyed (hydrate_row ref phone row s).created_customers
hydrate_row-IsKeyed none phone row s keyed = keyed
hydrate_row-IsKeyed (some []) phone row s keyed = keyed
hydrate_row-IsKeyed (some (x ∷ xs)) none row s keyed = keyed
hydrate_row-IsKeyed (some (x ∷ xs)) (some []) row s keyed = keyed
hydrate_row-IsKeyed (some (x ∷ xs)) (some (y ∷ ys)) row s keyed =
    put-IsKeyed (y ∷ ys) s.created_customers (customer_in (x ∷ xs) (y ∷ ys) row) refl keyed

hydrate_rows-IsKeyed :
    (rows : List StoreRow) (s : MockClient)
    → IsKeyed s.created_customers
    → IsKeyed (hydrate_rows rows s).created_customers
unfolding hydrate_rows
hydrate_rows-IsKeyed [] s keyed = keyed
hydrate_rows-IsKeyed (row ∷ rows) s keyed =
    hydrate_rows-IsKeyed rows (hydrate_row row.customer_ref row.phone row s)
      (hydrate_row-IsKeyed row.customer_ref row.phone row s keyed)

hydrate_from-IsKeyed :
    (db : Option (List StoreRow)) (s : MockClient)
    → IsKeyed s.created_customers
    → IsKeyed (hydrate_from db s).created_customers
hydrate_from-IsKeyed none s keyed = keyed
hydrate_from-IsKeyed (some rows) s keyed =
    hydrate_rows-IsKeyed rows (record s { hydrated = true }) keyed

hydrated_if :
    (done : Bool) (s : MockClient)
    → IsKeyed s.created_customers
    → IsKeyed (if done then s else hydrate_from s.db s).created_customers
hydrated_if true s keyed = keyed
hydrated_if false s keyed = hydrate_from-IsKeyed s.db s keyed

pub ensure_hydrated-IsKeyed :
    (s : MockClient) → IsKeyed s.created_customers → IsKeyed (ensure_hydrated s).created_customers
unfolding ensure_hydrated
ensure_hydrated-IsKeyed s keyed = hydrated_if s.hydrated s keyed

-- Somebody is known at the phone: `create` looks for it, and `resolve` lists it.
known-customers_at :
    (norm : Text) (s : MockClient)
    → IsKeyed s.created_customers
    → (OrderedMap.has s.created_customers norm || any (has_phone norm) seed_customers)
      ≡ not (is_empty (customers_at norm s))
unfolding customers_at
known-customers_at norm s keyed =
    rw (has-empty norm s.created_customers keyed, any-empty norm seed_customers)
      (append-empty (keep (has_phone norm) (map (λ e. e.1) s.created_customers))
        (keep (has_phone norm) seed_customers))

-- From the same state, hydrated or not, `create` meets a conflict exactly where `resolve` would have
-- found somebody at the phone, where each created customer stands under its own phone.
pub create_agrees :
    (phone : Text) (p : CreateCustomerRequest) (s : MockClient)
    → IsKeyed s.created_customers
    → is_conflict (create phone p s).0 ≡ not (is_none_found (resolve phone s).0.status)
unfolding create resolve
create_agrees phone p s keyed =
    let norm = normalize_phone phone in
    let s' = ensure_hydrated s in
    let known = known-customers_at norm s' (ensure_hydrated-IsKeyed s keyed) in
    let listed = result-empty (customers_at norm s') in
    elim (Bool-cases
      (OrderedMap.has s'.created_customers norm || any (has_phone norm) seed_customers)) [
        | inl taken ↦ rw (taken, listed) (sym taken ∙ known)
        | inr free ↦ rw (free, listed) (sym free ∙ known)
      ]

-- Nothing is left to hydrate.
abbrev pub IsSettled : MockClient → Type 0
IsSettled s = (s.hydrated ≡ true) ⊎ (s.db ≡ none)

hydrate_rows-hydrated :
    (rows : List StoreRow) (s : MockClient)
    → s.hydrated ≡ true
    → (hydrate_rows rows s).hydrated ≡ true
unfolding hydrate_rows
hydrate_rows-hydrated [] s h = h
hydrate_rows-hydrated (row ∷ rows) s h =
    hydrate_rows-hydrated rows (hydrate_row row.customer_ref row.phone row s) (ground (arith, h))

IsSettled-from :
    (db : Option (List StoreRow)) (s : MockClient) → s.db ≡ db → IsSettled (hydrate_from db s)
IsSettled-from none s h = inr h
IsSettled-from (some rows) s h =
    inl (hydrate_rows-hydrated rows (record s { hydrated = true }) refl)

pub IsSettled-if :
    (done : Bool) (s : MockClient)
    → s.hydrated ≡ done
    → IsSettled (if done then s else hydrate_from s.db s)
IsSettled-if true s h = inl h
IsSettled-if false s h = IsSettled-from s.db s refl

pub IsSettled-stays : (s : MockClient) → IsSettled s → ensure_hydrated s ≡ s
unfolding ensure_hydrated
IsSettled-stays s (inl h) = ground (arith, h)
IsSettled-stays s (inr h) = ground (arith, h)

module _ (norm : Text) (c : SeedCustomer) (own : c.phone ≡ norm) where
  pub put-alone :
      (m : OrderedMap SeedCustomer)
      → IsKeyed m
      → OrderedMap.has m norm ≡ false
      → keep (has_phone norm) (map (λ e. e.1) (OrderedMap.put m norm c)) ≡ c ∷ []
  unfolding OrderedMap.put OrderedMap.has OrderedMap.get
  put-alone [] keyed h = ground (arith, own, text_eq_refl norm)
  put-alone ((j, d) ∷ m) keyed h = ground (arith, keyed.0, put-alone m keyed.1)

pub none_kept :
    (norm : Text) (cs : List SeedCustomer)
    → any (has_phone norm) cs ≡ false
    → keep (has_phone norm) cs ≡ []
none_kept norm [] h = refl
none_kept norm (c ∷ cs) h = ground (arith, none_kept norm cs)

length-candidates : (cs : List SeedCustomer) → length (map candidate_of cs) ≡ length cs
length-candidates [] = refl
length-candidates (c ∷ cs) = omega (arith, length-candidates cs)

few_candidates : (cs : List SeedCustomer) → length (or_else (result_for cs).candidates []) ≤ 3
few_candidates [] = omega arith
few_candidates (c ∷ []) = omega arith
few_candidates (c ∷ d ∷ cs) = ground (arith, length-candidates cs)

-- However many customers a phone has, a resolve names three of them at most.
pub resolve-candidates_le :
    (phone : Text) (s : MockClient) → length (or_else (resolve phone s).0.candidates []) ≤ 3
unfolding resolve
resolve-candidates_le phone s =
    few_candidates (customers_at (normalize_phone phone) (ensure_hydrated s))
