-- ===== src/Crypto.antt =====
-- Encryption of the credentials at rest (src/core/crypto.py). Fernet is a parameter: a key text makes
-- a cipher or is refused, a cipher encrypts with fresh randomness, and decrypts or fails.
mod Laws
mod Examples
use claw_mux.Base.{
  ℕ, suc, ◌≡◌, Bool, true, false, not, Option, none, some, List, [], ◌∷◌, ◌++◌, if◌then◌else◌, ◌==◌,
  text_key, Text, codes, is_empty, strip, starts_with, remove_prefix, Result, ok, err,
}
use claw_mux.Base.Exec.{Exec, pure, raise, modify, ◌>>=◌, ◌>>◌}

abbrev pub token_prefix : Text
token_prefix = codes "fernet:v1:"

pub record Fernet (Cipher : Type 0) : Type 0 where
  pub make : Text → Option Cipher
  pub encrypt : Cipher → ℕ → Text → Text
  pub decrypt : Cipher → Text → Option Text
  pub decrypt-encrypt : (c : Cipher) (n : ℕ) (t : Text) → decrypt c (encrypt c n t) ≡ some t

pub data Failure : Type 0 where
  not_configured bad_key wrong_key : Failure

-- The module's globals: the last cipher and the key that it was made from; and the randomness left.
pub record Keyring (Cipher : Type 0) : Type 0 where
  pub cached : Option (Text × Cipher)
  pub fresh : ℕ

abbrev pub starting : {Cipher : Type 0} → Keyring Cipher
starting = record { cached = none; fresh = 0 }

unfoldable pub is_encrypted : Text → Bool
is_encrypted value = starts_with value token_prefix

-- `setting` is settings.credential_encryption_key.
module _ {Cipher : Type 0} (f : Fernet Cipher) (setting : Text) where
  abbrev pub Run : Type 0 → Type 0
  Run A = Exec (Keyring Cipher) Failure A

  abbrev pub remember : Text → Option Cipher → Run Cipher
  remember key none = raise bad_key
  remember key (some c) = do modify λ k. record k { cached = some (key, c) }; pure c

  -- `if _fernet is None or _fernet_key_source != key`
  abbrev pub reuse : Text → Option (Text × Cipher) → Run Cipher
  reuse key none = remember key (f.make key)
  reuse key (some (source, c)) = if source == key then pure c else remember key (f.make key)

  unfoldable pub get_fernet : Run Cipher
  get_fernet k =
      if is_empty (strip setting) then raise not_configured k else reuse (strip setting) k.cached k

  abbrev pub encrypt_with : Text → Cipher → Run Text
  encrypt_with plaintext c k =
      (ok (token_prefix ++ f.encrypt c k.fresh plaintext), record k { fresh = suc k.fresh })

  unfoldable pub encrypt_secret : Text → Run Text
  encrypt_secret plaintext =
      if is_empty (strip setting)
      then pure plaintext
      else do c ← get_fernet; encrypt_with plaintext c

  abbrev pub decrypted : Option Text → Run Text
  decrypted none = raise wrong_key
  decrypted (some t) = pure t

  unfoldable pub decrypt_secret : Text → Run Text
  decrypt_secret value =
      if is_encrypted value
      then (do c ← get_fernet; decrypted (f.decrypt c (remove_prefix token_prefix value)))
      else pure value

  abbrev pub bind_text : Text → Run (Option Text)
  bind_text value =
      if is_encrypted value then pure (some value) else do t ← encrypt_secret value; pure (some t)

  -- EncryptedText: what is written to the column for a value, and what is read back.
  unfoldable pub process_bind_param : Option Text → Run (Option Text)
  process_bind_param none = pure none
  process_bind_param (some value) = bind_text value

  unfoldable pub process_result_value : Option Text → Run (Option Text)
  process_result_value none = pure none
  process_result_value (some value) = do t ← decrypt_secret value; pure (some t)
