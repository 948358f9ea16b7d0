-- ===== src/Users/Repository/Versions.antt =====
-- Which saves pass the version check of
-- src/libs/shared/database/repositories/base-aggregate.repository.ts.
use mathlib.Core.Path.{subst}
use app_tu_phuc_vu.Prelude.{
  ℕ, ◌+◌, ◌-◌, ◌<◌, ◌≡◌, ◌≢◌, refl, Option, none, some, inl, inr, ◌⊎◌, Bool-cases, ◌==◌, ==_iff,
  List, [], ◌∷◌, length, arith,
}
use app_tu_phuc_vu.Prelude.Text.{Text}
use app_tu_phuc_vu.Users.Types.{ProviderType, DomainEvent}
use app_tu_phuc_vu.Users.Aggregate.{User, add_domain_event, register}
use app_tu_phuc_vu.Users.Aggregate.Requests.{Change, change_all, register_then_changes-IsSound}
use app_tu_phuc_vu.Users.Repository.{
  SaveError, version_mismatch, SaveOptions, Effect, Services, publish_events, written, save,
  settled, IsStore,
}

-- The user with more events, one after the other.
abbrev pub with_events : ℕ → List DomainEvent → User → User
with_events now [] u = u
with_events now (event ∷ events) u = with_events now events (add_domain_event now event u)

with_events-counts :
    (now : ℕ) (events : List DomainEvent) (u : User)
    → ((with_events now events u).version ≡ u.version + length events)
      × ((with_events now events u).id ≡ u.id)
unfolding add_domain_event
with_events-counts now [] u = ground arith
with_events-counts now (event ∷ events) u =
    ground (arith, with_events-counts now events (add_domain_event now event u))

module _ {T D : Type 0} (s : Services T D) (stored : D → Text → Option ℕ)
    (store : IsStore s stored) where
  publish_events-stored :
      (events : List DomainEvent) (d : D) (id : Text)
      → stored (publish_events s events d).1 id ≡ stored d id
  unfolding publish_events
  publish_events-stored [] d id = refl
  publish_events-stored (event ∷ events) d id =
      ground
        (arith, store.publishes event d id, publish_events-stored events (s.publish event d).1 id)

  written-refused :
      (add_many : Option (List DomainEvent → Option T → Effect D)) (o : SaveOptions T) (u : User)
      (v : ℕ) (d : D)
      → s.persist u v o d ≡ (some version_mismatch, d)
      → written s add_many o u v d ≡ (some version_mismatch, d)
  written-refused none o u v d h = rw h refl
  written-refused (some add_many) o u v d h = ground arith

  written-stored :
      (add_many : Option (List DomainEvent → Option T → Effect D)) (o : SaveOptions T) (u : User)
      (v : ℕ) (d : D)
      → s.add_many ≡ add_many
      → (s.persist u v o d).0 ≡ none
      → stored (s.persist u v o d).1 u.id ≡ some u.version
      → stored (written s add_many o u v d).1 u.id ≡ some u.version
  written-stored none o u v d same h row =
      ground (arith, publish_events-stored u.domain_events (s.persist u v o d).1 u.id)
  written-stored (some add_many) o u v d same h row = ground (
    arith,
    publish_events-stored u.domain_events (s.persist u v o d).1 u.id,
    store.adds add_many u.domain_events o.transaction (s.persist u v o d).1 u.id same,
  )

  save-refused :
      (o : SaveOptions T) (u : User) (d : D)
      → 1 < u.version
      → stored d u.id ≢ some (u.version - 1)
      → save s o u d ≡ (some version_mismatch, u, d)
  unfolding save
  save-refused o u d later differs =
      rw
        (written-refused s.add_many o u (u.version - 1) d
          (store.refuses u (u.version - 1) o d (omega arith) differs))
        refl

  settled-database : (u : User) (end : Option SaveError × D) → (settled u end).2 ≡ end.1
  settled-database u (none, d) = refl
  settled-database u (some e, d) = refl

  save-stored :
      (o : SaveOptions T) (u : User) (d : D)
      → 1 < u.version
      → stored d u.id ≡ some (u.version - 1)
      → stored (save s o u d).2 u.id ≡ some u.version
  unfolding save
  save-stored o u d later row =
      let updated = store.updates u (u.version - 1) o d (omega arith) row in
      rw (settled-database u (written s s.add_many o u (u.version - 1) d))
        (written-stored s.add_many o u (u.version - 1) d refl updated.0 updated.1)

  -- The first save of a registered user is refused, whatever was changed since: the repository takes
  -- one version off and finds no row of it. The user keeps its events and nothing is written.
  pub registered-save :
      (uuid : ℕ → Text) (n now : ℕ) (number email name : Option Text) (t : ProviderType)
      (provider_id : Text) (provider_email : Option Text) (u : User) (changes : List Change)
      (o : SaveOptions T) (d : D)
      → register uuid n now number email name t provider_id provider_email ≡ some u
      → stored d (change_all uuid changes u).id ≡ none
      → save s o (change_all uuid changes u) d
        ≡ (some version_mismatch, change_all uuid changes u, d)
  registered-save uuid n now number email name t provider_id provider_email u changes o d made new =
      let sound =
        register_then_changes-IsSound uuid n now number email name t provider_id provider_email u
          changes made in
      save-refused o (change_all uuid changes u) d
        (omega (arith, sound.versioned, sound.told, sound.linked)) (λ h. absurd (cc))

  save-by_version :
      (id : Text) (k n : ℕ) (v : User) (o : SaveOptions T) (d : D)
      → v.id ≡ id
      → v.version ≡ k + n
      → 1 < k
      → stored d id ≡ some k
      → ((n ≡ 1) × (stored (save s o v d).2 id ≡ some (k + 1)))
        ⊎ ((n ≢ 1) × (save s o v d ≡ (some version_mismatch, v, d)))
  save-by_version id k n v o d own at later row = elim (Bool-cases (n == 1)) [
    | inl is_one ↦
        let one = (==_iff n 1).0 is_one in
        let less : v.version - 1 ≡ k = omega arith in
        let before : stored d v.id ≡ some (v.version - 1) = rw (own, less) row in
        let after = save-stored o v d (omega arith) before in
        let reached : v.version ≡ k + 1 = omega arith in inl (one, cc)
    | inr is_other ↦
        let other : n ≢ 1 = λ one. absurd (cc ((==_iff n 1).1 one)) in
        inr (
          other,
          save-refused o v d (omega arith)
              (λ h. let same : some k ≡ some (v.version - 1) = cc in absurd (ground arith)),
        )
  ]

  -- A user that is stored under a version above 1 and raised some events since is written if that
  -- was one event; with none or with several the save is refused, and nothing is written.
  pub with_events-save :
      (now : ℕ) (events : List DomainEvent) (u : User) (o : SaveOptions T) (d : D)
      → 1 < u.version
      → stored d u.id ≡ some u.version
      → ((length events ≡ 1)
          × (stored (save s o (with_events now events u) d).2 u.id ≡ some (u.version + 1)))
        ⊎ ((length events ≢ 1)
            × (save s o (with_events now events u) d
                ≡ (some version_mismatch, with_events now events u, d)))
  with_events-save now events u o d later row =
      let counts = with_events-counts now events u in
      save-by_version u.id u.version (length events) (with_events now events u) o d counts.1
        counts.0 later row

  settled-kept :
      (u u' : User) (end : Option SaveError × D) (error : SaveError) (d : D)
      → settled u end ≡ (some error, u', d)
      → u' ≡ u
  settled-kept u u' (none, d') error d h = absurd (cc)
  settled-kept u u' (some e, d') error d h = cc

  -- A save that passed the version check and then failed, at the bus or at the outbox, leaves the row
  -- written and the user with its events, and saving that user again, on the database as the failed
  -- save left it, is refused and changes nothing; a transaction that the caller rolls back is another
  -- database.
  pub failed-save :
      (o o' : SaveOptions T) (u u' : User) (d d' : D) (error : SaveError)
      → 1 < u.version
      → stored d u.id ≡ some (u.version - 1)
      → save s o u d ≡ (some error, u', d')
      → (u' ≡ u)
        × (stored d' u.id ≡ some u.version)
        × (save s o' u' d' ≡ (some version_mismatch, u', d'))
  unfolding save
  failed-save o o' u u' d d' error later row failed =
      let kept = settled-kept u u' (written s s.add_many o u (u.version - 1) d) error d' failed in
      let after : stored d' u.id ≡ some u.version =
        subst (λ end. stored end.2 u.id ≡ some u.version) failed (save-stored o u d later row) in
      let refused =
        save-refused o' u d' later
          (λ h. let same : some u.version ≡ some (u.version - 1) = cc in absurd (ground arith)) in
      rw kept (refl, after, refused)
