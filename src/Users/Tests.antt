-- ===== src/Users/Tests.antt =====
-- A user that registers with a phone number and links a Google account
-- (src/modules/auth/domain/entities/user.entity.ts), and a database of versions for
-- src/libs/shared/database/repositories/base-aggregate.repository.ts.
use app_tu_phuc_vu.Prelude.{
  ℕ, zero, suc, ◌++◌, ◌≡◌, ◌↔◌, or_else, refl, sym, ap, ◌<◌, ◌≢◌, ◌⊎◌, Bool, Bool-cases, inl, inr,
  true, false, Option, none, some, List, [], ◌∷◌, length, if◌then◌else◌, ◌==◌, ==_iff, arith,
}
use app_tu_phuc_vu.Prelude.Text.{Text, codes, text_eq, text_eq_refl}
use app_tu_phuc_vu.Users.Types.{
  phone, google, apple, user_registered, mark_verified, create_link, DomainEvent, provider_equals,
  provider_value, provider_from_string,
}
use app_tu_phuc_vu.Users.Aggregate.{
  User, event_of, new_user, add_domain_event, add_provider, link_phone, update_name, register,
  reconstitute, to_params, clear_domain_events,
}
use app_tu_phuc_vu.Users.Aggregate.Invariant.{IsSound}
use app_tu_phuc_vu.Users.Aggregate.Requests.{
  Change, provider_added, phone_linked, renamed, change_all, register_then_changes-IsSound,
}
use app_tu_phuc_vu.Users.Aggregate.Reconstitution.{reconstitute-to_params}
use app_tu_phuc_vu.Users.Repository.{
  SaveError, version_mismatch, other, SaveOptions, Effect, Services, save, publish_events, IsStore,
}
use app_tu_phuc_vu.Users.Repository.Versions.{
  registered-save, with_events, with_events-save, failed-save,
}

abbrev uuid : ℕ → Text
uuid n = codes "id-" ++ n ∷ []

abbrev number : Text
number = codes "0901234567"

-- The user of a registration by phone.
abbrev registered : User
unfolding register
registered =
    or_else (register uuid 0 1000 (some number) none none phone number none)
      (new_user uuid 0 1000 none none none)

registered_test : register uuid 0 1000 (some number) none none phone number none ≡ some registered
unfolding register add_provider provider_equals provider_value text_eq add_domain_event
registered_test = refl

-- The Google account is linked once, and the phone has its provider.
abbrev changes : List Change
changes =
    provider_added 5 2000 google (codes "g1") none
    ∷ provider_added 7 2500 google (codes "g1") none
    ∷ phone_linked 9 3000 number
    ∷ renamed (codes "An")
    ∷ []

changes_test : length (change_all uuid changes registered).domain_events ≡ 3
unfolding change_all register add_provider link_phone update_name provider_equals provider_value
    text_eq add_domain_event
changes_test = refl

register_then_changes-IsSound_example : IsSound 1 1 (change_all uuid changes registered)
register_then_changes-IsSound_example =
    register_then_changes-IsSound uuid 0 1000 (some number) none none phone number none registered
      changes registered_test

reconstitute-to_params_example :
    reconstitute (to_params registered) ≡ some (clear_domain_events registered)
reconstitute-to_params_example = reconstitute-to_params registered

provider_value_test : provider_from_string (codes "apple") ≡ some apple
unfolding provider_from_string text_eq
provider_value_test = refl

verified_test : (mark_verified 5 (create_link 1 [] [] google [] none)).is_verified ≡ true
unfolding mark_verified
verified_test = refl

-- The rows' versions, the events published and the events of the outbox.
abbrev Database : Type 0
Database = (Text → Option ℕ) × List DomainEvent × List DomainEvent

abbrev with_row : Text → ℕ → Database → Database
with_row id version (rows, sent, waiting) =
    (λ x. if text_eq x id then some version else rows x, sent, waiting)

abbrev matches : Option ℕ → ℕ → Bool
matches none v = false
matches (some version) v = version == v

abbrev updated : Bool → User → Database → Option SaveError × Database
updated true u d = (none, with_row u.id u.version d)
updated false u d = (some version_mismatch, d)

abbrev kept : User → ℕ → SaveOptions ℕ → Effect Database
kept u zero o d = (none, with_row u.id u.version d)
kept u (suc v) o d = updated (matches (d.0 u.id) (suc v)) u d

abbrev collected : List DomainEvent → Option ℕ → Effect Database
collected events transaction d = (none, (d.0, d.1, d.2 ++ events))

abbrev sample : Services ℕ Database
sample = record {
  persist = kept;
  publish = λ event d. (none, (d.0, d.1 ++ event ∷ [], d.2));
  add_many = some collected;
}

abbrev versions : Database → Text → Option ℕ
versions d id = d.0 id

matches_iff : (row : Option ℕ) (v : ℕ) → (matches row v ≡ true) ↔ (row ≡ some v)
matches_iff none v = ground arith
matches_iff (some version) v = ground (arith, ==_iff version v)

own_row : (u : User) (d : Database) → versions (with_row u.id u.version d) u.id ≡ some u.version
own_row u d = rw (text_eq_refl u.id) refl

kept-IsUpdate :
    (u : User) (v : ℕ) (o : SaveOptions ℕ) (d : Database)
    → 0 < v
    → versions d u.id ≡ some v
    → ((kept u v o d).0 ≡ none) × (versions (kept u v o d).1 u.id ≡ some u.version)
kept-IsUpdate u zero o d later row = absurd (omega arith)
kept-IsUpdate u (suc v) o d later row =
    rw ((matches_iff (d.0 u.id) (suc v)).1 row) (refl, own_row u d)

kept-IsRefusal :
    (u : User) (v : ℕ) (o : SaveOptions ℕ) (d : Database)
    → 0 < v
    → versions d u.id ≢ some v
    → kept u v o d ≡ (some version_mismatch, d)
kept-IsRefusal u zero o d later differs = absurd (omega arith)
kept-IsRefusal u (suc v) o d later differs = elim (Bool-cases (matches (d.0 u.id) (suc v))) [
  | inl same ↦ absurd (differs ((matches_iff (d.0 u.id) (suc v)).0 same))
  | inr differing ↦ rw differing refl
]

sample-IsStore : IsStore sample versions
sample-IsStore = record {
  updates = kept-IsUpdate;
  inserts = λ u o d h. (refl, own_row u d);
  refuses = kept-IsRefusal;
  publishes = λ event d id. refl;
  adds = λ add_many events transaction d id same.
      ap (λ add. versions (or_else add collected events transaction d).1 id) (sym same);
}

abbrev direct : SaveOptions ℕ
direct = record {
  transaction = none;
  use_outbox = false;
  force_outbox = false;
  skip_event_publishing = false;
}

abbrev nothing_stored : Database
nothing_stored = (λ id. none, [], [])

registered-save_example :
    save sample direct (change_all uuid changes registered) nothing_stored
    ≡ (some version_mismatch, change_all uuid changes registered, nothing_stored)
registered-save_example =
    registered-save sample versions sample-IsStore uuid 0 1000 (some number) none none phone number
      none registered changes direct nothing_stored registered_test refl

-- The registered user as it is read back, had a row been kept of it.
abbrev loaded : User
loaded = clear_domain_events registered

abbrev stored : Database
stored = (λ id. some 2, [], [])

abbrev event : DomainEvent
event = event_of uuid user_registered 3 1000 registered phone number

with_events-save_example :
    ((length (event ∷ []) ≡ 1)
      × (versions (save sample direct (with_events 5 (event ∷ []) loaded) stored).2 loaded.id
          ≡ some 3))
    ⊎ ((length (event ∷ []) ≢ 1)
        × (save sample direct (with_events 5 (event ∷ []) loaded) stored
            ≡ (some version_mismatch, with_events 5 (event ∷ []) loaded, stored)))
unfolding register add_provider add_domain_event clear_domain_events
with_events-save_example =
    with_events-save sample versions sample-IsStore 5 (event ∷ []) loaded direct stored
      (omega arith) refl

-- The bus fails.
abbrev broken : Services ℕ Database
broken = record sample { publish = λ event d. (some (other []), d) }

broken-IsStore : IsStore broken versions
broken-IsStore = record {
  updates = kept-IsUpdate;
  inserts = λ u o d h. (refl, own_row u d);
  refuses = kept-IsRefusal;
  publishes = λ event d id. refl;
  adds = λ add_many events transaction d id same.
      ap (λ add. versions (or_else add collected events transaction d).1 id) (sym same);
}

abbrev raised : User
raised = with_events 5 (event ∷ []) loaded

failed-save_example :
    (raised ≡ raised)
    × (versions (with_row raised.id 3 stored) raised.id ≡ some raised.version)
    × (save broken direct raised (with_row raised.id 3 stored)
        ≡ (some version_mismatch, raised, with_row raised.id 3 stored))
unfolding register add_provider add_domain_event clear_domain_events save publish_events text_eq
failed-save_example =
    failed-save broken versions broken-IsStore direct direct raised raised stored
      (with_row raised.id 3 stored) (other []) (omega arith) refl refl
