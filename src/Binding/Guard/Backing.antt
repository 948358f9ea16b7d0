-- ===== src/Binding/Guard/Backing.antt =====
-- What a customer on a request rests on (src/modules/binding/guards/binding-verified.guard.ts).
use app_tu_phuc_vu.Prelude.{
  ℕ, ◌≡◌, ◌≢◌, sym, ◌⊎◌, refl, Bool, true, false, ◌&&◌, Option, none, some, List, [], ◌∷◌, arith,
  Bool-cases, Option-cases, inl, inr,
}
use app_tu_phuc_vu.Prelude.Text.{Text, text_eq, text_eq_iff}
use app_tu_phuc_vu.Binding.Types.{CacheValue, binding, lock, counter, init, BindingCacheEntry}
use app_tu_phuc_vu.Binding.Keys.{bind_key}
use app_tu_phuc_vu.Binding.Pii.{Decrypted, plain, failed, missing, decrypt_if_needed}
use app_tu_phuc_vu.Binding.Tables.{
  BindingRow, BindingStatus, pending, verified, revoked, is_verified, first_row,
}
use app_tu_phuc_vu.Binding.Env.{Env, World}
use app_tu_phuc_vu.Binding.Guard.{
  BoundCustomer, Verdict, passes, entry_in, row_entry, attach, verdict_on, resolve_binding,
  can_activate,
}

-- `row` is one of the rows.
abbrev pub IsAmong : BindingRow → List BindingRow → Type 0
IsAmong row [] = ⊥
IsAmong row (x ∷ rows) = (row ≡ x) ⊎ IsAmong row rows

first_row_sound :
    (p : BindingRow → Bool) (rows : List BindingRow) (row : BindingRow)
    → first_row p rows ≡ some row
    → IsAmong row rows × (p row ≡ true)
unfolding first_row
first_row_sound p [] row h = absurd (cc)
first_row_sound p (x ∷ rows) row h = elim (Bool-cases (p x)) [
  | inl yes_p ↦ (inl (ground arith), ground arith)
  | inr no_p ↦ let (among, kept) = first_row_sound p rows row (ground arith) in (inr among, kept)
]

attach-passes :
    (u : Text) (entry : BindingCacheEntry) (d : Decrypted) (c : BoundCustomer)
    → attach u entry d ≡ passes (some c)
    → (c.id ≡ u) × (d ≡ plain c.customer_id) × (c.customer_ref ≡ entry.customer_ref)
attach-passes u entry (plain (x ∷ xs)) c h = (ground arith, ground arith, ground arith)
attach-passes u entry (plain []) c h = absurd (cc)
attach-passes u entry missing c h = absurd (cc)
attach-passes u entry failed c h = absurd (cc)

verified_lem : (s : BindingStatus) → is_verified s ≡ true → s ≡ verified
verified_lem verified h = refl
verified_lem pending h = absurd (cc)
verified_lem revoked h = absurd (cc)

abbrev is_verified_of : Text → BindingRow → Bool
is_verified_of u row = text_eq row.user_id u && is_verified row.status

is_verified_of_lem :
    (u : Text) (row : BindingRow)
    → is_verified_of u row ≡ true
    → (row.user_id ≡ u) × (row.status ≡ verified)
is_verified_of_lem u row h =
    (ground (arith, text_eq_iff row.user_id u), verified_lem row.status (ground arith))

-- What a hit that carries a ciphertext is.
entry_in-binding :
    (v : Option CacheValue) (entry : BindingCacheEntry)
    → entry_in v ≡ some entry
    → entry.customer_id_cipher ≢ none
    → v ≡ some (binding entry)
entry_in-binding none entry h ciphered = absurd (cc)
entry_in-binding (some (binding b)) entry h ciphered = ground arith
entry_in-binding (some (lock n)) entry h ciphered = absurd (ground arith)
entry_in-binding (some (counter n m)) entry h ciphered = absurd (ground arith)
entry_in-binding (some (init r)) entry h ciphered = absurd (ground arith)

deciphered :
    (e : Env) (x : Option Text) (id : Text) → decrypt_if_needed e.cipher x ≡ plain id → x ≢ none
unfolding decrypt_if_needed
deciphered e none id h absent = absurd (cc)
deciphered e (some x) id h absent = absurd (cc)

-- The guard on a user that is there, whose verdict is not a bare pass.
guarded :
    (e : Env) (now : ℕ) (u : Text) (w : World e) (v : Verdict)
    → v ≢ passes none
    → (can_activate e now (some u) false w).0 ≡ v
    → verdict_on e u (resolve_binding e now u w).0 ≡ v
unfolding can_activate
guarded e now [] w v bare h = absurd (bare (sym h))
guarded e now (x ∷ xs) w v bare h = h

module _ (e : Env) (now : ℕ) (u : Text) (w : World e) where
  -- The entry stands in the cache, or it is a verified row of the user.
  abbrev pub IsBacked : BindingCacheEntry → Type 0
  IsBacked entry =
      ((e.cache.get now (bind_key u) w.cached).0 ≡ some (binding entry))
      ⊎ ((row : BindingRow) × IsAmong row w.bindings
          × (row.user_id ≡ u)
          × (row.status ≡ verified)
          × (entry ≡ row_entry row))

  -- What passes with a customer came through the verdict on what was resolved.
  through :
      (c : BoundCustomer)
      → (can_activate e now (some u) false w).0 ≡ passes (some c)
      → verdict_on e u (resolve_binding e now u w).0 ≡ passes (some c)
  through c h = guarded e now u w (passes (some c)) (λ same. absurd (ground arith)) h

  verdict_on-passes :
      (r : Option BindingCacheEntry) (c : BoundCustomer)
      → verdict_on e u r ≡ passes (some c)
      → (entry : BindingCacheEntry) × (r ≡ some entry)
        × (c.id ≡ u)
        × (decrypt_if_needed e.cipher entry.customer_id_cipher ≡ plain c.customer_id)
        × (c.customer_ref ≡ entry.customer_ref)
  verdict_on-passes none c h = absurd (cc)
  verdict_on-passes (some entry) c h =
      let (own, decrypted, ref) =
        attach-passes u entry (decrypt_if_needed e.cipher entry.customer_id_cipher) c h in
      (entry, refl, own, decrypted, ref)

  resolved-IsBacked :
      (entry : BindingCacheEntry)
      → (resolve_binding e now u w).0 ≡ some entry
      → entry.customer_id_cipher ≢ none
      → IsBacked entry
  unfolding resolve_binding
  resolved-IsBacked entry h ciphered =
      let cached = (e.cache.get now (bind_key u) w.cached).0 in
      elim (Option-cases (entry_in cached)) [
        | inr (x, hit) ↦ inl (entry_in-binding cached entry (ground arith) ciphered)
        | inl miss ↦ elim (Option-cases (first_row (is_verified_of u) w.bindings)) [
          | inl no_row ↦ absurd (ground arith)
          | inr (row, found) ↦
              let (among, kept) = first_row_sound (is_verified_of u) w.bindings row found in
              let (user, status) = is_verified_of_lem u row kept in
              inr (row, among, user, status, ground arith)
        ]
      ]

  -- A customer on a request of the user is the user's, has the reference of an entry that the cache
  -- holds for the user or of a verified row of the user, and its id is what that entry's or row's
  -- ciphertext decrypts to.
  pub can_activate-IsBacked :
      (c : BoundCustomer)
      → (can_activate e now (some u) false w).0 ≡ passes (some c)
      → (c.id ≡ u)
        × ((entry : BindingCacheEntry) × IsBacked entry
            × (decrypt_if_needed e.cipher entry.customer_id_cipher ≡ plain c.customer_id)
            × (c.customer_ref ≡ entry.customer_ref))
  can_activate-IsBacked c h =
      let found = resolve_binding e now u w in
      let (entry, resolved, own, decrypted, ref) = verdict_on-passes found.0 c (through c h) in
      (
        own,
        (
          entry,
          resolved-IsBacked entry resolved
              (deciphered e entry.customer_id_cipher c.customer_id decrypted),
          decrypted,
          ref,
        ),
      )
