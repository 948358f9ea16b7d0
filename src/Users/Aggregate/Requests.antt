-- ===== src/Users/Aggregate/Requests.antt =====
-- Any sequence of changes of a registered user (src/modules/auth/domain/entities/user.entity.ts).
use app_tu_phuc_vu.Prelude.{ℕ, ◌≡◌, refl, Option, none, some, List, [], ◌∷◌, arith}
use app_tu_phuc_vu.Prelude.Text.{Text}
use app_tu_phuc_vu.Users.Types.{ProviderType}
use app_tu_phuc_vu.Users.Aggregate.{User, add_provider, link_phone, update_name, register}
use app_tu_phuc_vu.Users.Aggregate.Invariant.{
  IsSound, add_provider-IsSound, link_phone-IsSound, register-IsSound, weaken,
}

-- A change, with the ids drawn before it and its time.
pub data Change : Type 0 where
  provider_added : ℕ → ℕ → ProviderType → Text → Option Text → Change
  phone_linked : ℕ → ℕ → Text → Change
  renamed : Text → Change

module _ (uuid : ℕ → Text) where
  abbrev pub asked : Change → User → Option User
  asked (provider_added n now t id email) u = add_provider uuid n now t id email u
  asked (phone_linked n now number) u = link_phone uuid n now number u
  asked (renamed name) u = some (update_name name u)

  -- A change that throws leaves the user as it was.
  abbrev pub or_kept : User → Option User → User
  or_kept u none = u
  or_kept u (some u') = u'

  unfoldable pub change_all : List Change → User → User
  change_all [] u = u
  change_all (change ∷ changes) u = change_all changes (or_kept u (asked change u))

  or_kept-IsSound :
      (u : User) (made : Option User)
      → IsSound 1 1 u
      → ((u' : User) → made ≡ some u' → IsSound 1 1 u')
      → IsSound 1 1 (or_kept u made)
  or_kept-IsSound u none s changed = s
  or_kept-IsSound u (some u') s changed = changed u' refl

  asked-IsSound :
      (change : Change) (u u' : User) → asked change u ≡ some u' → IsSound 1 1 u → IsSound 1 1 u'
  unfolding update_name
  asked-IsSound (provider_added n now t id email) u u' h s =
      weaken 1 1 u' (add_provider-IsSound uuid n now 1 1 t id email u u' h s)
  asked-IsSound (phone_linked n now number) u u' h s =
      link_phone-IsSound uuid n now 1 1 number u u' h s
  asked-IsSound (renamed name) u u' h s =
      let same : update_name name u ≡ u' = cc in
      let sound : IsSound 1 1 (update_name name u) = ground arith in rw (← same) sound

  change_all-IsSound :
      (changes : List Change) (u : User) → IsSound 1 1 u → IsSound 1 1 (change_all changes u)
  unfolding change_all
  change_all-IsSound [] u s = s
  change_all-IsSound (change ∷ changes) u s =
      change_all-IsSound changes (or_kept u (asked change u))
        (or_kept-IsSound u (asked change u) s (λ u' h. asked-IsSound change u u' h s))

  -- From its registration on and until it is saved, whatever changes are asked of it and whichever
  -- of them throw, a user has a provider, none is linked twice, each is the user's own, and the
  -- versions count the events: one for each provider and one for the registration, all of the user.
  pub register_then_changes-IsSound :
      (n now : ℕ) (number email name : Option Text) (t : ProviderType) (provider_id : Text)
      (provider_email : Option Text) (u : User) (changes : List Change)
      → register uuid n now number email name t provider_id provider_email ≡ some u
      → IsSound 1 1 (change_all changes u)
  register_then_changes-IsSound n now number email name t provider_id provider_email u changes h =
      change_all-IsSound changes u
        (register-IsSound uuid n now number email name t provider_id provider_email u h)
