-- ===== src/Vault/Envelope.antt =====
-- The versioned envelope of backend/app/services/security/pii_vault.py as a format: what is built is
-- parsed back, and what is parsed was built.
use trust_shield.Base.{
  ℕ, some, true, [], ◌∷◌, ◌++◌, ◌≡◌, ◌↔◌, refl, ap, ◌∙◌, ◌+◌, ◌≤◌, ◌<◌, arith, length,
  length-append, length-take, length-drop, take, drop, take-append, drop-append, take-append-drop,
  take-append_of_length, drop-append_of_length, Option-cases, inl, inr,
}
use trust_shield.Vault.{
  Bytes, Crypto, parse_versioned_envelope, build_versioned_envelope, is_versioned, nonce_length,
  tag_length, version, max_wrapped_dek_len,
}

parse_parts_of :
    (v n : ℕ) (body wrapped nonce ciphertext : Bytes)
    → parse_versioned_envelope (v ∷ n ∷ body) ≡ some (wrapped, nonce, ciphertext)
    → (v ≡ version)
      × (nonce_length + tag_length ≤ length (drop n body))
      × (take n body ≡ wrapped)
      × (take nonce_length (drop n body) ≡ nonce)
      × (drop nonce_length (drop n body) ≡ ciphertext)
unfolding parse_versioned_envelope
parse_parts_of v n body wrapped nonce ciphertext h = ground arith

parse_parts :
    (wrapped nonce ciphertext : Bytes)
    → length nonce ≡ nonce_length
    → tag_length ≤ length ciphertext
    → parse_versioned_envelope (version ∷ length wrapped ∷ (wrapped ++ (nonce ++ ciphertext)))
      ≡ some (wrapped, nonce, ciphertext)
unfolding parse_versioned_envelope
parse_parts wrapped nonce ciphertext h k =
    rw (drop-append wrapped (nonce ++ ciphertext), take-append wrapped (nonce ++ ciphertext))
      (ground (
        arith,
        length-append nonce ciphertext,
        take-append_of_length nonce_length nonce ciphertext h,
        drop-append_of_length nonce_length nonce ciphertext h,
      ))

parsed_parts :
    (blob wrapped nonce ciphertext : Bytes)
    → parse_versioned_envelope blob ≡ some (wrapped, nonce, ciphertext)
    → (blob ≡ version ∷ length wrapped ∷ (wrapped ++ (nonce ++ ciphertext)))
      × (length nonce ≡ nonce_length)
      × (tag_length ≤ length ciphertext)
unfolding parse_versioned_envelope
parsed_parts [] wrapped nonce ciphertext h = cc
parsed_parts (v ∷ []) wrapped nonce ciphertext h = cc
parsed_parts (v ∷ n ∷ body) wrapped nonce ciphertext h =
    let (is_one, long, w, m, ct) = parse_parts_of v n body wrapped nonce ciphertext h in
    let rest = drop n body in
    let size : length (take n body) ≡ n =
      omega (arith, long, length-take n body, length-drop n body) in
    (
      rw (is_one, ← w, ← m, ← ct)
          (rw (take-append-drop nonce_length rest, take-append-drop n body) (rw size refl)),
      rw (← m) (omega (arith, long, length-take nonce_length rest)),
      rw (← ct) (omega (arith, long, length-drop nonce_length rest)),
    )

-- Parsing is exact: a blob is parsed into a wrapped key, a nonce and a ciphertext if and only if it is
-- the version, the length of the wrapped key, the wrapped key, the nonce and the ciphertext, and the
-- nonce has twelve bytes and the ciphertext at least those of a tag.
pub parse_exact :
    (blob wrapped nonce ciphertext : Bytes)
    → (parse_versioned_envelope blob ≡ some (wrapped, nonce, ciphertext)) ↔ (
        (blob ≡ version ∷ length wrapped ∷ (wrapped ++ (nonce ++ ciphertext)))
        × (length nonce ≡ nonce_length)
        × (tag_length ≤ length ciphertext))
parse_exact blob wrapped nonce ciphertext = (
  parsed_parts blob wrapped nonce ciphertext,
  λ (is, m, ct). ap parse_versioned_envelope is ∙ parse_parts wrapped nonce ciphertext m ct,
)

module _ (c : Crypto) where
  -- An envelope is refused exactly for a wrapped key of more than 255 bytes or a key or nonce that
  -- AES-GCM refuses.
  build_parts :
      (dek wrapped plaintext nonce blob : Bytes)
      → build_versioned_envelope c dek wrapped plaintext nonce ≡ some blob
      → (ciphertext : Bytes) × (c.aes_encrypt dek nonce plaintext ≡ some ciphertext)
        × (length wrapped ≤ max_wrapped_dek_len)
        × (blob ≡ version ∷ length wrapped ∷ (wrapped ++ (nonce ++ ciphertext)))
  unfolding build_versioned_envelope
  build_parts dek wrapped plaintext nonce blob h =
      elim (Option-cases (c.aes_encrypt dek nonce plaintext)) [
        | inl e ↦ absurd (ground arith)
        | inr (ciphertext, e) ↦ (ciphertext, e, ground arith, ground arith)
      ]

  -- An envelope that was built with a nonce of twelve bytes, by a cipher that adds a tag of sixteen,
  -- is recognised as versioned and parsed back into the wrapped key, the nonce and the ciphertext,
  -- and its length byte is a byte.
  pub parse-build :
      (dek wrapped plaintext nonce blob : Bytes)
      → length nonce ≡ nonce_length
      → ((ciphertext : Bytes)
          → c.aes_encrypt dek nonce plaintext ≡ some ciphertext
          → length ciphertext ≡ length plaintext + tag_length)
      → build_versioned_envelope c dek wrapped plaintext nonce ≡ some blob
      → (ciphertext : Bytes) × (c.aes_encrypt dek nonce plaintext ≡ some ciphertext)
        × (parse_versioned_envelope blob ≡ some (wrapped, nonce, ciphertext))
        × (is_versioned blob ≡ true)
        × (length wrapped < 256)
  unfolding is_versioned
  parse-build dek wrapped plaintext nonce blob h tag b =
      let (ciphertext, e, short, q) = build_parts dek wrapped plaintext nonce blob b in
      (
        ciphertext,
        e,
        rw q (parse_parts wrapped nonce ciphertext h (omega (arith, tag ciphertext e))),
        rw q refl,
        omega arith,
      )
