-- ===== src/Users/Repository.antt =====
-- src/libs/shared/database/repositories/base-aggregate.repository.ts: saving an aggregate and its
-- events. The services are parameters: `persist` is what a repository has to define, by the comment
-- on it and the example of src/libs/shared/README.md.
pub mod Versions
use app_tu_phuc_vu.Prelude.{
  ℕ, ◌-◌, ◌<◌, ◌≡◌, ◌≢◌, Bool, true, false, not, ◌&&◌, ◌||◌, Option, none, some, List, [], ◌∷◌,
  if◌then◌else◌,
}
use app_tu_phuc_vu.Prelude.Text.{Text}
use app_tu_phuc_vu.Users.Types.{DomainEvent}
use app_tu_phuc_vu.Users.Aggregate.{User, clear_domain_events}

-- The errors a save may end with; the mismatch is ConcurrencyException.
pub data SaveError : Type 0 where
  version_mismatch : SaveError
  other : Text → SaveError

-- RepositoryConfig and SaveOptions with their defaults; the transaction is the caller's, of any type.
pub record SaveOptions (T : Type 0) : Type 0 where
  pub transaction : Option T
  pub use_outbox : Bool
  pub force_outbox : Bool
  pub skip_event_publishing : Bool

-- An error, or none, and the database after it.
abbrev pub Effect : Type 0 → Type 0
Effect D = D → Option SaveError × D

-- What the subclass and the constructor's arguments do; the outbox may be absent.
pub record Services (T D : Type 0) : Type 0 where
  pub persist : User → ℕ → SaveOptions T → Effect D
  pub publish : DomainEvent → Effect D
  pub add_many : Option (List DomainEvent → Option T → Effect D)

abbrev pub is_empty : List DomainEvent → Bool
is_empty [] = true
is_empty (event ∷ events) = false

abbrev pub expected_version : User → ℕ
expected_version u = u.version - 1

module _ {D : Type 0} where
  abbrev pub and_then : Option SaveError × D → Effect D → Option SaveError × D
  and_then (some e, d) next = (some e, d)
  and_then (none, d) next = next d

  abbrev pub first_error : Option SaveError → Option SaveError × D → Option SaveError × D
  first_error (some e) (rest, d) = (some e, d)
  first_error none (rest, d) = (rest, d)

  abbrev pub settled : User → Option SaveError × D → Option SaveError × User × D
  settled u (none, d) = (none, clear_domain_events u, d)
  settled u (some e, d) = (some e, u, d)

module _ {T D : Type 0} where
  -- Every event is handed to the bus, also after one that fails.
  unfoldable pub publish_events : Services T D → List DomainEvent → Effect D
  publish_events s [] d = (none, d)
  publish_events s (event ∷ events) d =
      first_error (s.publish event d).0 (publish_events s events (s.publish event d).1)

  abbrev pub persist_with_outbox :
      Services T D → (List DomainEvent → Option T → Effect D) → SaveOptions T → User → ℕ → Effect D
  persist_with_outbox s add_many o u expected d = and_then (s.persist u expected o d) (λ d'.
      if is_empty u.domain_events then (none, d') else add_many u.domain_events o.transaction d')

  abbrev pub persist_and_publish : Services T D → SaveOptions T → User → ℕ → Effect D
  persist_and_publish s o u expected d = and_then (s.persist u expected o d) (λ d'.
      if not o.skip_event_publishing && not (is_empty u.domain_events)
      then publish_events s u.domain_events d'
      else (none, d'))

  -- By the outbox, where it is present and asked for.
  abbrev pub written :
      Services T D
      → Option (List DomainEvent → Option T → Effect D)
      → SaveOptions T
      → User
      → ℕ
      → Effect D
  written s none o u expected d = persist_and_publish s o u expected d
  written s (some add_many) o u expected d =
      if o.use_outbox || o.force_outbox
      then persist_with_outbox s add_many o u expected d
      else persist_and_publish s o u expected d

  -- The events are cleared where nothing failed.
  unfoldable pub save : Services T D → SaveOptions T → User → D → Option SaveError × User × D
  unfolding publish_events clear_domain_events
  save s o u d = settled u (written s s.add_many o u (expected_version u) d)

  -- The contract of the services: a row is inserted where version 0 is expected, updated where it
  -- has the version that is expected, and else refused; the bus and the outbox leave the rows.
  pub record IsStore (s : Services T D) (stored : D → Text → Option ℕ) : Type 0 where
    pub updates :
        (u : User) (v : ℕ) (o : SaveOptions T) (d : D)
        → 0 < v
        → stored d u.id ≡ some v
        → ((s.persist u v o d).0 ≡ none) × (stored (s.persist u v o d).1 u.id ≡ some u.version)
    pub inserts :
        (u : User) (o : SaveOptions T) (d : D)
        → stored d u.id ≡ none
        → ((s.persist u 0 o d).0 ≡ none) × (stored (s.persist u 0 o d).1 u.id ≡ some u.version)
    pub refuses :
        (u : User) (v : ℕ) (o : SaveOptions T) (d : D)
        → 0 < v
        → stored d u.id ≢ some v
        → s.persist u v o d ≡ (some version_mismatch, d)
    pub publishes :
        (event : DomainEvent) (d : D) (id : Text) → stored (s.publish event d).1 id ≡ stored d id
    pub adds :
        (add_many : List DomainEvent → Option T → Effect D) (events : List DomainEvent)
        (transaction : Option T) (d : D) (id : Text)
        → s.add_many ≡ some add_many
        → stored (add_many events transaction d).1 id ≡ stored d id
