-- ===== src/Crypto/Laws.antt =====
-- What a column of encrypted texts gives back.
use claw_mux.Base.{
  ℕ, ◌≡◌, refl, sym, ap, ◌∙◌, inl, inr, ◌⊎◌, true, false, Option, none, some, ◌++◌, Bool-cases,
  Option-cases, text_key, list_eq, list_eq_iff, Text, is_empty, strip, starts_with,
  starts_with-append, drop-append, remove_prefix, Result, ok, err,
}
use claw_mux.Base.Exec.{Exec, pure, proceed, ◌>>=◌}
use claw_mux.Crypto.{
  token_prefix, Fernet, Failure, bad_key, Keyring, is_encrypted, get_fernet, reuse, remember,
  encrypt_secret, encrypt_with, decrypt_secret, decrypted, process_bind_param, process_result_value,
}

module _ {Cipher : Type 0} (f : Fernet Cipher) where
  -- The cipher in the cache is the one that its key makes.
  abbrev pub IsSound : Keyring Cipher → Type 0
  IsSound k = (s : Text) (c : Cipher) → k.cached ≡ some (s, c) → f.make s ≡ some c

  abbrev made : Option Cipher → Result Failure Cipher
  made none = err bad_key
  made (some c) = ok c

  remember-made :
      (setting key : Text) (o : Option Cipher) (k : Keyring Cipher)
      → (remember f setting key o k).0 ≡ made o
  remember-made setting key none k = refl
  remember-made setting key (some c) k = refl

  reuse-made :
      (setting key : Text) (o : Option (Text × Cipher)) (k : Keyring Cipher)
      → ((s : Text) (c : Cipher) → o ≡ some (s, c) → f.make s ≡ some c)
      → (reuse f setting key o k).0 ≡ made (f.make key)
  reuse-made setting key none k h = remember-made setting key (f.make key) k
  reuse-made setting key (some (s, c)) k h = elim (Bool-cases (list_eq s key)) [
    | inl e ↦
        rw e (
          ap made (sym (h s c refl)) ∙ ap (λ (t : Text). made (f.make t)) ((list_eq_iff s key).0 e))
    | inr e ↦ rw e (remember-made setting key (f.make key) k)
  ]

  -- A sound keyring gives the cipher of the configured key, from its cache or not.
  get_fernet-made :
      (setting : Text) (k : Keyring Cipher)
      → IsSound k
      → is_empty (strip setting) ≡ false
      → (get_fernet f setting k).0 ≡ made (f.make (strip setting))
  unfolding get_fernet
  get_fernet-made setting k h e = rw e (reuse-made setting (strip setting) k.cached k h)

  bind-returned :
      {A B : Type 0} (m : Exec (Keyring Cipher) Failure A) (g : A → Exec (Keyring Cipher) Failure B)
      (a : A) (k : Keyring Cipher)
      → (m k).0 ≡ ok a
      → (m >>= g) k ≡ g a (m k).1
  bind-returned m g a k h = rw h refl

  bind-raised :
      {A B : Type 0} (m : Exec (Keyring Cipher) Failure A) (g : A → Exec (Keyring Cipher) Failure B)
      (e : Failure) (k : Keyring Cipher)
      → (m k).0 ≡ err e
      → (m >>= g) k ≡ (err e, (m k).1)
  bind-raised m g e k h = rw h refl

  module _ (setting : Text) where
    -- What is stored for a text: itself without a key, else an encryption by the key's cipher.
    abbrev pub Encrypted : Text → Text → Type 0
    Encrypted v t =
        (c : Cipher) × (n : ℕ) × (is_empty (strip setting) ≡ false)
        × (f.make (strip setting) ≡ some c)
        × (t ≡ token_prefix ++ f.encrypt c n v)

    abbrev pub StoredFor : Text → Text → Type 0
    StoredFor v t = ((is_empty (strip setting) ≡ true) × (t ≡ v)) ⊎ Encrypted v t

    encrypt_plain :
        (v : Text) (k : Keyring Cipher)
        → is_empty (strip setting) ≡ true
        → (encrypt_secret f setting v k).0 ≡ ok v
    unfolding encrypt_secret
    encrypt_plain v k e = rw e refl

    encrypt_bad :
        (v : Text) (k : Keyring Cipher)
        → IsSound k
        → is_empty (strip setting) ≡ false
        → f.make (strip setting) ≡ none
        → (encrypt_secret f setting v k).0 ≡ err bad_key
    unfolding encrypt_secret
    encrypt_bad v k h e m = rw e (
        ap (λ p. p.0)
          (bind-raised (get_fernet f setting) (encrypt_with f setting v) bad_key k
            (get_fernet-made setting k h e ∙ ap made m)))

    encrypt_made :
        (v : Text) (c : Cipher) (k : Keyring Cipher)
        → IsSound k
        → is_empty (strip setting) ≡ false
        → f.make (strip setting) ≡ some c
        → (encrypt_secret f setting v k).0
          ≡ ok (token_prefix ++ f.encrypt c (get_fernet f setting k).1.fresh v)
    unfolding encrypt_secret
    encrypt_made v c k h e m = rw e (
        ap (λ p. p.0)
          (bind-returned (get_fernet f setting) (encrypt_with f setting v) c k
            (get_fernet-made setting k h e ∙ ap made m)))

    clash : {e : Failure} {b : Text} {r : Result Failure Text} → r ≡ err e → r ≡ ok b → ⊥
    clash h k = cc

    same : {a b : Text} {r : Result Failure Text} → r ≡ ok a → r ≡ ok b → b ≡ a
    same h k = cc

    encrypt-StoredFor :
        (v t : Text) (k : Keyring Cipher)
        → IsSound k
        → (encrypt_secret f setting v k).0 ≡ ok t
        → StoredFor v t
    encrypt-StoredFor v t k hk h = elim (Bool-cases (is_empty (strip setting))) [
      | inl e ↦ inl (e, same (encrypt_plain v k e) h)
      | inr e ↦ elim (Option-cases (f.make (strip setting))) [
        | inl n ↦ elim (clash (encrypt_bad v k hk e n) h) [ ]
        | inr (c, m) ↦
            inr (c, (get_fernet f setting k).1.fresh, e, m, same (encrypt_made v c k hk e m) h)
      ]
    ]

    decrypt_made :
        (c : Cipher) (t : Text) (k : Keyring Cipher)
        → IsSound k
        → is_empty (strip setting) ≡ false
        → f.make (strip setting) ≡ some c
        → is_encrypted t ≡ true
        → (decrypt_secret f setting t k).0
          ≡ (decrypted f setting
              (f.decrypt c (remove_prefix token_prefix t))
              (get_fernet f setting k).1).0
    unfolding decrypt_secret
    decrypt_made c t k h e m enc = rw enc (
        ap (λ p. p.0)
          (bind-returned (get_fernet f setting)
            (λ d. decrypted f setting (f.decrypt d (remove_prefix token_prefix t))) c k
            (get_fernet-made setting k h e ∙ ap made m)))

    encrypted :
        (v t : Text) (c : Cipher) (n : ℕ)
        → t ≡ token_prefix ++ f.encrypt c n v
        → is_encrypted t ≡ true
    unfolding is_encrypted
    encrypted v t c n q =
        ap (λ s. starts_with s token_prefix) q ∙ starts_with-append token_prefix (f.encrypt c n v)

    -- Both kinds of stored text are read back as the text, whatever cipher the keyring holds.
    decrypt-stored :
        (v t : Text) (k : Keyring Cipher)
        → IsSound k
        → is_encrypted v ≡ false
        → StoredFor v t
        → (decrypt_secret f setting t k).0 ≡ ok v
    unfolding decrypt_secret
    decrypt-stored v t k hk hv (inl (e, q)) = rw q (rw hv refl)
    decrypt-stored v t k hk hv (inr (c, n, e, m, q)) =
        decrypt_made c t k hk e m (encrypted v t c n q)
        ∙ ap (λ o. (decrypted f setting o (get_fernet f setting k).1).0)
            (ap (λ s. f.decrypt c (remove_prefix token_prefix s)) q
              ∙ ap (f.decrypt c) (drop-append token_prefix (f.encrypt c n v))
              ∙ f.decrypt-encrypt c n v)

    wrapped :
        (r : Result Failure Text) (k : Keyring Cipher) (t : Text)
        → (proceed r (λ x. pure (some x)) k).0 ≡ ok (some t)
        → r ≡ ok t
    wrapped (ok a) k t h = cc
    wrapped (err e) k t h = cc

    bind_param_plain :
        (v : Text) (k : Keyring Cipher)
        → is_encrypted v ≡ false
        → (process_bind_param f setting (some v) k).0
          ≡ (proceed
              (encrypt_secret f setting v k).0
              (λ x. pure (some x))
              (encrypt_secret f setting v k).1).0
    unfolding process_bind_param
    bind_param_plain v k h = rw h refl

    bind_param-StoredFor :
        (v t : Text) (k : Keyring Cipher)
        → IsSound k
        → is_encrypted v ≡ false
        → (process_bind_param f setting (some v) k).0 ≡ ok (some t)
        → StoredFor v t
    bind_param-StoredFor v t k hk hv h = encrypt-StoredFor v t k hk (
        wrapped (encrypt_secret f setting v k).0 (encrypt_secret f setting v k).1 t
          (sym (bind_param_plain v k hv) ∙ h))

    bind-stored :
        (v t : Text) (k : Keyring Cipher)
        → is_encrypted v ≡ false
        → StoredFor v t
        → (process_bind_param f setting (some t) k).0 ≡ ok (some t)
    unfolding process_bind_param
    bind-stored v t k hv (inl (e, q)) =
        bind_param_plain t k (ap is_encrypted q ∙ hv)
        ∙ ap (λ r. (proceed r (λ x. pure (some x)) (encrypt_secret f setting t k).1).0)
            (encrypt_plain t k e)
    bind-stored v t k hv (inr (c, n, e, m, q)) = rw (encrypted v t c n q) refl

    -- Under any key, valid ones and none: when a value that does not look encrypted has been written to
    -- the column, a later read gives the value back, from the keyring of any process whose cached cipher
    -- belongs to its key, and writing the stored text again stores that text.
    pub column_round_trip :
        (v t : Text) (k : Keyring Cipher)
        → IsSound k
        → is_encrypted v ≡ false
        → (process_bind_param f setting (some v) k).0 ≡ ok (some t)
        → (k' : Keyring Cipher) → IsSound k'
        → ((process_result_value f setting (some t) k').0 ≡ ok (some v))
          × ((process_bind_param f setting (some t) k').0 ≡ ok (some t))
    unfolding process_result_value
    column_round_trip v t k hk hv h k' hk' =
        let stored = bind_param-StoredFor v t k hk hv h in
        (
          ap (λ r. (proceed r (λ x. pure (some x)) (decrypt_secret f setting t k').1).0)
              (decrypt-stored v t k' hk' hv stored),
          bind-stored v t k' hv stored,
        )
