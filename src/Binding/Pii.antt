-- ===== src/Binding/Pii.antt =====
-- src/modules/auth/infrastructure/persistence/encryption/pii-encryption.service.ts: encryption of
-- values that may be missing, over the AES-256-GCM of the platform's crypto module.
use app_tu_phuc_vu.Prelude.{ℕ, ◌≡◌, ◌≢◌, refl, Option, none, some, [], ◌∷◌}
use app_tu_phuc_vu.Prelude.Text.{Text}

-- The platform's cipher: the number stands for the random initialisation vector that a call draws;
-- decryption may throw.
pub record Cipher : Type 0 where
  pub encrypt : ℕ → Text → Text
  pub decrypt : Text → Option Text
  pub decrypt-encrypt : (iv : ℕ) (x : Text) → decrypt (encrypt iv x) ≡ some x
  pub encrypt-ne_nil : (iv : ℕ) (x : Text) → encrypt iv x ≢ []

-- What a call on a value that may be missing returns, where it does not throw.
pub data Decrypted : Type 0 where
  missing : Decrypted
  plain : Text → Decrypted
  failed : Decrypted

module _ (a : Cipher) where
  -- `if (!value) return null`: null and the empty text are falsy.
  unfoldable pub encrypt_if_needed : ℕ → Option Text → Option Text
  encrypt_if_needed iv none = none
  encrypt_if_needed iv (some []) = none
  encrypt_if_needed iv (some (x ∷ xs)) = some (a.encrypt iv (x ∷ xs))

  abbrev decrypted : Option Text → Decrypted
  decrypted none = failed
  decrypted (some x) = plain x

  abbrev decrypt_text : Text → Decrypted
  decrypt_text [] = missing
  decrypt_text (x ∷ xs) = decrypted (a.decrypt (x ∷ xs))

  unfoldable pub decrypt_if_needed : Option Text → Decrypted
  decrypt_if_needed none = missing
  decrypt_if_needed (some x) = decrypt_text x

  decrypt_text_lem : (y x : Text) → y ≢ [] → a.decrypt y ≡ some x → decrypt_text y ≡ plain x
  decrypt_text_lem [] x h e = absurd (h refl)
  decrypt_text_lem (c ∷ y) x h e = rw e

  -- A value with something in it comes back, whatever vector was drawn.
  pub decrypt-encrypt_if_needed :
      (iv : ℕ) (x : Text) → x ≢ [] → decrypt_if_needed (encrypt_if_needed iv (some x)) ≡ plain x
  unfolding encrypt_if_needed decrypt_if_needed
  decrypt-encrypt_if_needed iv [] h = absurd (h refl)
  decrypt-encrypt_if_needed iv (c ∷ x) h =
      decrypt_text_lem (a.encrypt iv (c ∷ x)) (c ∷ x) (a.encrypt-ne_nil iv (c ∷ x))
        (a.decrypt-encrypt iv (c ∷ x))
