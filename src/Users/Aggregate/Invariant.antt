-- ===== src/Users/Aggregate/Invariant.antt =====
-- What holds of a user from its registration on (src/modules/auth/domain/entities/user.entity.ts).
use app_tu_phuc_vu.Prelude.{
  ℕ, ◌+◌, ◌≤◌, ◌≡◌, refl, Bool, false, ◌||◌, Bool-cases, inl, inr, Option, none, some, List, [],
  ◌∷◌, ◌++◌, any, All, All-append, length, length-append, arith, ==_iff,
}
use app_tu_phuc_vu.Prelude.Text.{Text, text_eq}
use app_tu_phuc_vu.Users.Types.{
  ProviderType, phone, provider_linked, user_registered, DomainEvent, ProviderLink, create_link,
  provider_equals, provider_value,
}
use app_tu_phuc_vu.Users.Aggregate.{
  User, event_of, new_user, add_domain_event, is_linked, add_provider, has_phone, link_phone,
  announced, register,
}

-- No provider is linked twice.
abbrev pub Distinct : List ProviderLink → Type 0
Distinct [] = Unit
Distinct (link ∷ links) =
    (any (is_linked link.provider_type link.provider_id) links ≡ false) × Distinct links

-- A user that was not saved since it was made: at least `least` providers, each linked once and the
-- user's own; an event for each provider and `extra` others, all of the user; and a version for
-- each event.
pub record IsSound (extra least : ℕ) (u : User) : Type 0 where
  pub distinct : Distinct u.providers
  pub owned : All (λ link. link.user_id ≡ u.id) u.providers
  pub linked : least ≤ length u.providers
  pub versioned : u.version ≡ length u.domain_events
  pub told : length u.domain_events ≡ length u.providers + extra
  pub named : All (λ event. event.aggregate_id ≡ u.id) u.domain_events

text_eq_sym : (x y : Text) → text_eq x y ≡ text_eq y x
unfolding text_eq
text_eq_sym [] [] = refl
text_eq_sym [] (c ∷ y) = refl
text_eq_sym (c ∷ x) [] = refl
text_eq_sym (c ∷ x) (d ∷ y) = ground (arith, text_eq_sym x y, ==_iff c d, ==_iff d c)

is_linked_sym :
    (link other : ProviderLink)
    → is_linked link.provider_type link.provider_id other
      ≡ is_linked other.provider_type other.provider_id link
unfolding provider_equals
is_linked_sym link other =
    rw
      (
        text_eq_sym (provider_value other.provider_type) (provider_value link.provider_type),
        text_eq_sym other.provider_id link.provider_id,
      )
      refl

any-append_one :
    {A : Type 0} (p : A → Bool) (xs : List A) (y : A) → any p (xs ++ y ∷ []) ≡ (any p xs || p y)
any-append_one p [] y = ground arith
any-append_one p (x ∷ xs) y = ground (arith, any-append_one p xs y)

Distinct-append :
    (links : List ProviderLink) (link : ProviderLink)
    → any (is_linked link.provider_type link.provider_id) links ≡ false
    → Distinct links
    → Distinct (links ++ link ∷ [])
Distinct-append [] link free h = ground arith
Distinct-append (other ∷ links) link free h = ground (
  arith,
  any-append_one (is_linked other.provider_type other.provider_id) links link,
  is_linked_sym link other,
  Distinct-append links link,
)

with_event-IsSound :
    (now extra least : ℕ) (event : DomainEvent) (u : User)
    → event.aggregate_id ≡ u.id
    → IsSound extra least u
    → IsSound (extra + 1) least (add_domain_event now event u)
unfolding add_domain_event
with_event-IsSound now extra least event u own s = record {
  distinct = s.distinct;
  owned = s.owned;
  linked = s.linked;
  versioned = ground (arith, s.versioned, length-append u.domain_events (event ∷ []));
  told = ground (arith, s.told, length-append u.domain_events (event ∷ []));
  named = All-append (λ e. e.aggregate_id ≡ u.id) u.domain_events (event ∷ []) s.named (own, tt);
}

with_link-IsSound :
    (now extra least : ℕ) (link : ProviderLink) (event : DomainEvent) (u : User)
    → any (is_linked link.provider_type link.provider_id) u.providers ≡ false
    → link.user_id ≡ u.id
    → event.aggregate_id ≡ u.id
    → IsSound extra least u
    → IsSound extra
        (least + 1)
        (add_domain_event now event (record u { providers = u.providers ++ link ∷ [] }))
unfolding add_domain_event
with_link-IsSound now extra least link event u free own own' s = record {
  distinct = Distinct-append u.providers link free s.distinct;
  owned = All-append (λ l. l.user_id ≡ u.id) u.providers (link ∷ []) s.owned (own, tt);
  linked = ground (arith, s.linked, length-append u.providers (link ∷ []));
  versioned = ground (arith, s.versioned, length-append u.domain_events (event ∷ []));
  told = ground (
    arith,
    s.told,
    length-append u.domain_events (event ∷ []),
    length-append u.providers (link ∷ []),
  );
  named = All-append (λ e. e.aggregate_id ≡ u.id) u.domain_events (event ∷ []) s.named (own', tt);
}

pub weaken : (extra least : ℕ) (u : User) → IsSound extra (least + 1) u → IsSound extra least u
weaken extra least u s = ground arith

module _ (uuid : ℕ → Text) where
  pub add_provider-IsSound :
      (n now extra least : ℕ) (t : ProviderType) (provider_id : Text) (provider_email : Option Text)
      (u u' : User)
      → add_provider uuid n now t provider_id provider_email u ≡ some u'
      → IsSound extra least u
      → IsSound extra (least + 1) u'
  unfolding add_provider
  add_provider-IsSound n now extra least t provider_id provider_email u u' h s =
      let link = create_link now (uuid n) u.id t provider_id provider_email in
      let event = event_of uuid provider_linked (n + 1) now u t provider_id in
      elim (Bool-cases (any (is_linked t provider_id) u.providers)) [
        | inl twice ↦ absurd (cc (rw twice at h))
        | inr free ↦
            let made : add_domain_event now event
                  (record u { providers = u.providers ++ link ∷ [] })
                ≡ u' =
              cc (rw free at h) in
            rw (← made) (with_link-IsSound now extra least link event u free refl refl s)
      ]

  pub link_phone-IsSound :
      (n now extra least : ℕ) (number : Text) (u u' : User)
      → link_phone uuid n now number u ≡ some u'
      → IsSound extra least u
      → IsSound extra least u'
  unfolding link_phone
  link_phone-IsSound n now extra least number u u' h s =
      let v = record u { phone_number = some number } in
      let sound : IsSound extra least v = ground arith in
      elim (Bool-cases (has_phone u)) [
        | inl has ↦ let same : v ≡ u' = cc (rw has at h) in rw (← same) sound
        | inr lacks ↦
            weaken extra least u'
              (add_provider-IsSound n now extra least phone number none v u' (rw lacks at h) sound)
      ]

  announced-IsSound :
      (n now : ℕ) (t : ProviderType) (provider_id : Text) (made : Option User) (u : User)
      → ((v : User) → made ≡ some v → IsSound 0 1 v)
      → announced uuid n now t provider_id made ≡ some u
      → IsSound 1 1 u
  announced-IsSound n now t provider_id none u sound h = absurd (cc)
  announced-IsSound n now t provider_id (some v) u sound h =
      let event = event_of uuid user_registered n now v t provider_id in
      let same : add_domain_event now event v ≡ u = cc in
      rw (← same) (with_event-IsSound now 0 1 event v refl (sound v refl))

  -- A registered user has one provider, and as many versions as events: one for the provider and one
  -- for the registration.
  pub register-IsSound :
      (n now : ℕ) (number email name : Option Text) (t : ProviderType) (provider_id : Text)
      (provider_email : Option Text) (u : User)
      → register uuid n now number email name t provider_id provider_email ≡ some u
      → IsSound 1 1 u
  unfolding register
  register-IsSound n now number email name t provider_id provider_email u h =
      announced-IsSound (n + 3) now t provider_id _ u
        (λ v made.
          add_provider-IsSound (n + 1) now 0 0 t provider_id provider_email
            (new_user uuid n now number email name) v made (ground arith))
        h
