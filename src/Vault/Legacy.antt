-- ===== src/Vault/Legacy.antt =====
-- Ciphertexts of the earlier format in backend/app/services/security/pii_vault.py: their migration,
-- and those that the test of the version takes for the new format.
use text.Mathlib.TextPositions.{starts_with-append, slice-append_right, len-append}
use trust_shield.Base.{
  ℕ, String, Option, none, some, true, false, ◌∷◌, ◌++◌, ◌≡◌, refl, ◌+◌, ◌≤◌, arith, length, ◌<>◌,
  Option-cases, Bool-cases, inl, inr, length-append, take, drop, take-append_of_length,
  drop-append_of_length, sym, ◌∙◌, some_inj, ltb,
}
use trust_shield.Vault.{
  Bytes, Crypto, Settings, Entropy, Provider, local, nonce_length, tag_length, salt_prefix,
  begins_with, is_versioned, parse_versioned_envelope, strip_enc, local_master_key, unwrap_dek,
  decrypt_versioned, decrypt_legacy, encrypt_field, decrypt_blob, decrypt_field, reencrypt_blob,
  decrypt_field_with_reencrypt, is_encrypted,
}
use trust_shield.Vault.RoundTrip.{CryptoLaws, decrypt-encrypt}

pub strip_enc-append : (s : String) → strip_enc ("ENC:" <> s) ≡ s
unfolding strip_enc
strip_enc-append s =
    rw (starts_with-append "ENC:" s) (rw (len-append "ENC:" s) (slice-append_right "ENC:" s))

module _ (c : Crypto) where
  abbrev or_neither : Option (Option String × Option String) → Option String × Option String
  or_neither none = (none, none)
  or_neither (some r) = r

  reencrypt_blob_agrees :
      (s : Settings) (p : Provider) (e : Entropy) (blob : Bytes)
      → (or_neither (reencrypt_blob c s p e blob)).0 ≡ decrypt_blob c s p blob
  unfolding reencrypt_blob decrypt_blob
  reencrypt_blob_agrees s p e blob = ground arith

  reencrypt_blob_versioned :
      (s : Settings) (p : Provider) (e : Entropy) (blob : Bytes)
      → is_versioned blob ≡ true
      → (or_neither (reencrypt_blob c s p e blob)).1 ≡ none
  unfolding reencrypt_blob
  reencrypt_blob_versioned s p e blob h = ground arith

  reencrypt_blob_new :
      (s : Settings) (p : Provider) (e : Entropy) (blob : Bytes) (text new : String)
      → or_neither (reencrypt_blob c s p e blob) ≡ (some text, some new)
      → encrypt_field c s p e text ≡ some new
  unfolding reencrypt_blob
  reencrypt_blob_new s p e blob text new h = ground arith

  reencrypt_none :
      (s : Settings) (p : Provider) (e : Entropy) (ciphertext : String)
      → c.b64decode (strip_enc ciphertext) ≡ none
      → decrypt_field_with_reencrypt c s p e ciphertext ≡ (none, none)
  unfolding decrypt_field_with_reencrypt
  reencrypt_none s p e ciphertext h = rw (h, decrypt_field_with_reencrypt) refl

  reencrypt_some :
      (s : Settings) (p : Provider) (e : Entropy) (ciphertext : String) (blob : Bytes)
      → c.b64decode (strip_enc ciphertext) ≡ some blob
      → decrypt_field_with_reencrypt c s p e ciphertext ≡ or_neither (reencrypt_blob c s p e blob)
  unfolding decrypt_field_with_reencrypt
  reencrypt_some s p e ciphertext blob h = rw (h, decrypt_field_with_reencrypt) (ground arith)

  legacy_as_versioned :
      (s : Settings) (key body : Bytes) (n : ℕ)
      → local_master_key c s ≡ some key
      → begins_with (take n body) salt_prefix ≡ false
      → decrypt_blob c s local (1 ∷ n ∷ body) ≡ none
  unfolding decrypt_blob is_versioned decrypt_versioned parse_versioned_envelope unwrap_dek
  legacy_as_versioned s key body n k apart =
      elim (Bool-cases (ltb (length (drop n body)) (nonce_length + tag_length))) [
        | inl short ↦ rw short refl
        | inr long ↦ rw long (rw k (rw apart refl))
      ]

  -- Decryption with re-encryption gives the plaintext, or the failure, that plain decryption gives,
  -- and offers a new ciphertext only for a blob of the legacy format.
  pub reencrypt_agrees :
      (s : Settings) (p : Provider) (e : Entropy) (ciphertext : String)
      → ((decrypt_field_with_reencrypt c s p e ciphertext).0 ≡ decrypt_field c s p ciphertext)
        × ((blob : Bytes)
            → c.b64decode (strip_enc ciphertext) ≡ some blob
            → is_versioned blob ≡ true
            → (decrypt_field_with_reencrypt c s p e ciphertext).1 ≡ none)
  unfolding decrypt_field
  reencrypt_agrees s p e ciphertext = elim (Option-cases (c.b64decode (strip_enc ciphertext))) [
    | inl h ↦ rw (reencrypt_none s p e ciphertext h) (rw h refl, λ blob q v. refl)
    | inr (blob, h) ↦ rw (reencrypt_some s p e ciphertext blob h) (
      rw h (reencrypt_blob_agrees s p e blob),
      λ blob' q v. reencrypt_blob_versioned s p e blob (rw (some_inj (sym h ∙ q)) v),
    )
  ]

  -- A new ciphertext that is offered for a legacy value, with the local provider, decrypts to the
  -- plaintext that comes with it and counts as encrypted.
  pub reencrypted_decrypts :
      (laws : CryptoLaws c) (s : Settings) (e : Entropy) (ciphertext text new : String)
      (master : Bytes)
      → local_master_key c s ≡ some master
      → length e.salt ≡ 16
      → length e.nonce ≡ nonce_length
      → c.utf8_decode (c.utf8_encode text) ≡ some text
      → decrypt_field_with_reencrypt c s local e ciphertext ≡ (some text, some new)
      → (decrypt_field c s local new ≡ some text) × (is_encrypted c new ≡ true)
  reencrypted_decrypts laws s e ciphertext text new master key salt nonce utf h =
      let (again, made, back, marked) = decrypt-encrypt c laws s e text master key salt nonce utf in
      elim (Option-cases (c.b64decode (strip_enc ciphertext))) [
        | inl q ↦ cc (sym (reencrypt_none s local e ciphertext q) ∙ h)
        | inr (blob, q) ↦
            let same : again ≡ new = some_inj (
              sym made
              ∙ reencrypt_blob_new s local e blob text new
                  (sym (reencrypt_some s local e ciphertext blob q) ∙ h)) in
            (rw same at back, rw same at marked)
      ]

  -- A legacy ciphertext whose random nonce begins with the byte 1 is taken for the new format: with
  -- the local provider its decryption fails, although the legacy key decrypts it, unless the bytes
  -- in the place of the wrapped key happen to begin with "local:".
  pub legacy_nonce_lost :
      (s : Settings) (key plaintext nonce ciphertext : Bytes) (n : ℕ)
      → local_master_key c s ≡ some key
      → length nonce + 2 ≡ nonce_length
      → c.aes_decrypt key (1 ∷ n ∷ nonce) ciphertext ≡ some plaintext
      → tag_length ≤ length ciphertext
      → begins_with (take n (nonce ++ ciphertext)) salt_prefix ≡ false
      → (enc : (b : Bytes) → c.b64decode (c.b64encode b) ≡ some b)
      → let raw = (1 ∷ n ∷ nonce) ++ ciphertext in
        (decrypt_legacy c s raw ≡ some plaintext)
        × (decrypt_field c s local ("ENC:" <> c.b64encode raw) ≡ none)
  unfolding decrypt_legacy decrypt_field decrypt_blob is_versioned
  legacy_nonce_lost s key plaintext nonce ciphertext n k l d t apart enc =
      let head : Bytes = 1 ∷ n ∷ nonce in
      let size : length head ≡ nonce_length = omega arith in
      (
        rw k (
            ground (
              arith,
              length-append head ciphertext,
              take-append_of_length nonce_length head ciphertext size,
              drop-append_of_length nonce_length head ciphertext size,
            )),
        rw strip_enc-append (rw enc (legacy_as_versioned s key (nonce ++ ciphertext) n k apart)),
      )
