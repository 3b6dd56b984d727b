-- ===== src/Vault/RoundTrip.antt =====
-- Encryption and decryption of a field in backend/app/services/security/pii_vault.py, under the two
-- providers of backend/app/services/security/kms_provider.py.
use text.Mathlib.Text.{starts_with}
use trust_shield.Base.{
  String, none, some, true, false, ◌∷◌, ◌++◌, ◌≡◌, refl, ◌+◌, ◌≤◌, arith, length, is_set,
  Option-cases, inl, inr,
}
use trust_shield.Vault.{
  Bytes, Crypto, Settings, Entropy, local, kms, nonce_length, tag_length, salt_prefix, use_value,
  is_versioned, parse_versioned_envelope, strip_enc, get_provider, local_master_key, generate_dek,
  unwrap_dek, build_versioned_envelope, decrypt_versioned, encrypt_field, decrypt_blob,
  decrypt_field, is_encrypted,
}
use trust_shield.Vault.Envelope.{parse-build}

-- What the vault relies on of its libraries: AES-GCM takes keys of 32 bytes and nonces of 12, adds a
-- tag of 16 bytes, and decrypts what it encrypted; PBKDF2 gives the 32 bytes that are asked for;
-- base64 decodes what it encoded, and its alphabet has no colon.
pub record CryptoLaws (c : Crypto) : Type 0 where
  pub aes_total :
      (key nonce plaintext : Bytes)
      → length key ≡ 32
      → length nonce ≡ nonce_length
      → (ciphertext : Bytes) × (c.aes_encrypt key nonce plaintext ≡ some ciphertext)
  pub aes_inverse :
      (key nonce plaintext ciphertext : Bytes)
      → c.aes_encrypt key nonce plaintext ≡ some ciphertext
      → c.aes_decrypt key nonce ciphertext ≡ some plaintext
  pub aes_tagged :
      (key nonce plaintext ciphertext : Bytes)
      → c.aes_encrypt key nonce plaintext ≡ some ciphertext
      → length ciphertext ≡ length plaintext + tag_length
  pub pbkdf2_length : (master salt : Bytes) → length (c.pbkdf2 master salt) ≡ 32
  pub b64_inverse : (b : Bytes) → c.b64decode (c.b64encode b) ≡ some b
  pub b64_strict_inverse : (b : Bytes) → c.b64decode_strict (c.b64encode b) ≡ some b
  pub b64_alphabet : (b : Bytes) → starts_with (c.b64encode b) "ENC:" ≡ false

module _ (c : Crypto) where
  kms_versioned :
      (s : Settings) (id : String) (blob : Bytes) → decrypt_versioned c s (kms id) blob ≡ none
  unfolding decrypt_versioned unwrap_dek use_value
  kms_versioned s id blob = elim (Option-cases (parse_versioned_envelope blob)) [
    | inl h ↦ rw h refl
    | inr (parts, h) ↦ rw h refl
  ]

  -- With a KMS key configured and no provider made before, every encryption fails, and so does every
  -- decryption of a versioned ciphertext, whatever the KMS answers.
  pub kms_always_fails :
      (s : Settings) (e : Entropy) (v : String) (blob : Bytes)
      → is_set s.kms_key_id ≡ true
      → (encrypt_field c s (get_provider s none) e v ≡ none)
        × (is_versioned blob ≡ true → decrypt_blob c s (get_provider s none) blob ≡ none)
  unfolding encrypt_field generate_dek get_provider use_value decrypt_blob
  kms_always_fails s e v blob h = rw h (refl, λ versioned. rw (versioned, kms_versioned) refl)

  module _ (laws : CryptoLaws c) where
    build_total :
        (dek wrapped plaintext nonce : Bytes)
        → length dek ≡ 32
        → length nonce ≡ nonce_length
        → length wrapped ≤ 255
        → (blob : Bytes) × (build_versioned_envelope c dek wrapped plaintext nonce ≡ some blob)
    unfolding build_versioned_envelope
    build_total dek wrapped plaintext nonce h k w =
        let (ciphertext, e) = laws.aes_total dek nonce plaintext h k in
        (1 ∷ length wrapped ∷ (wrapped ++ (nonce ++ ciphertext)), ground arith)

    decrypt_versioned-build :
        (s : Settings) (master salt plaintext nonce blob : Bytes)
        → local_master_key c s ≡ some master
        → length nonce ≡ nonce_length
        → build_versioned_envelope c (c.pbkdf2 master salt) (salt_prefix ++ salt) plaintext nonce
          ≡ some blob
        → (decrypt_versioned c s local blob ≡ some plaintext) × (is_versioned blob ≡ true)
    unfolding decrypt_versioned unwrap_dek use_value
    decrypt_versioned-build s master salt plaintext nonce blob key h b =
        let dek = c.pbkdf2 master salt in
        let (ciphertext, e, parsed, versioned, _) =
          parse-build c dek (salt_prefix ++ salt) plaintext nonce blob h
            (laws.aes_tagged dek nonce plaintext) b in
        (rw parsed (rw key (laws.aes_inverse dek nonce plaintext ciphertext e)), versioned)

    strip_enc-b64encode : (b : Bytes) → strip_enc (c.b64encode b) ≡ c.b64encode b
    unfolding strip_enc
    strip_enc-b64encode b = rw laws.b64_alphabet refl

    -- With the local provider and a key of 32 bytes, encryption of a field succeeds, its result
    -- counts as encrypted, and it decrypts to the value, for every text that UTF-8 gives back.
    pub decrypt-encrypt :
        (s : Settings) (e : Entropy) (v : String) (master : Bytes)
        → local_master_key c s ≡ some master
        → length e.salt ≡ 16
        → length e.nonce ≡ nonce_length
        → c.utf8_decode (c.utf8_encode v) ≡ some v
        → (ciphertext : String) × (encrypt_field c s local e v ≡ some ciphertext)
          × (decrypt_field c s local ciphertext ≡ some v)
          × (is_encrypted c ciphertext ≡ true)
    unfolding encrypt_field decrypt_field decrypt_blob generate_dek use_value is_encrypted
    decrypt-encrypt s e v master key salt nonce text =
        let dek = c.pbkdf2 master e.salt in
        let plaintext = c.utf8_encode v in
        let (blob, b) =
          build_total dek (salt_prefix ++ e.salt) plaintext e.nonce
            (laws.pbkdf2_length master e.salt) nonce (omega arith) in
        let (decrypted, versioned) =
          decrypt_versioned-build s master e.salt plaintext e.nonce blob key nonce b in
        (
          c.b64encode blob,
          rw key (rw b refl),
          rw strip_enc-b64encode (rw laws.b64_inverse (rw versioned (rw decrypted text))),
          rw laws.b64_alphabet (rw laws.b64_strict_inverse versioned),
        )
