-- ===== src/Vault/Examples.antt =====
-- The theorems on backend/app/services/security/pii_vault.py with a toy cipher, which appends a tag
-- of zeros, and a toy base64, which writes a byte as that many strokes and a stop.
use Prim.Native.Char.{Char, code}
use text.Mathlib.Text.{starts_with}
use text.Mathlib.TextEquality.{starts_with_iff}
use text.Mathlib.TextLemmas.{cons-append, head-eq_of_cons-eq}
use trust_shield.Base.{
  ℕ, zero, suc, String, none, some, true, false, [], ◌∷◌, ◌++◌, ◌≡◌, ◌↔◌, refl, ◌+◌, ◌-◌, ◌≤◌,
  arith, length, ◌==◌, take, length-append, take-append_of_length, ap, ◌≢◌, some_inj, sym, ◌∙◌,
  Bool-cases, inl, inr,
}
use trust_shield.Vault.{
  Bytes, Crypto, Settings, Entropy, local, nonce_length, tag_length, salt_prefix, is_versioned,
  parse_versioned_envelope, strip_enc, local_master_key, build_versioned_envelope, decrypt_legacy,
  encrypt_field, decrypt_field, decrypt_field_with_reencrypt, is_encrypted, version, generate_dek,
  use_value, reencrypt_blob,
}
use trust_shield.Vault.Envelope.{parse_exact}
use trust_shield.Vault.RoundTrip.{CryptoLaws, decrypt-encrypt}

abbrev zeros : ℕ → Bytes
zeros zero = []
zeros (suc n) = 0 ∷ zeros n

abbrev strokes : ℕ → String → String
strokes zero rest = String.◌∷◌ "." rest
strokes (suc n) rest = String.◌∷◌ "i" (strokes n rest)

abbrev write_bytes : Bytes → String
write_bytes [] = ""
write_bytes (b ∷ bs) = strokes b (write_bytes bs)

abbrev read_bytes : ℕ → String → Bytes
read_bytes n String.[] = []
read_bytes n (String.◌∷◌ ch s) = elim (code ch == b'i') [
  | true ↦ read_bytes (n + 1) s
  | false ↦ n ∷ read_bytes 0 s
]

read_bytes-strokes :
    (k n : ℕ) (rest : String) → read_bytes k (strokes n rest) ≡ (k + n) ∷ read_bytes 0 rest
read_bytes-strokes k zero rest = ground arith
read_bytes-strokes k (suc n) rest = ground (arith, read_bytes-strokes (k + 1) n rest)

read_bytes-write_bytes : (b : Bytes) → read_bytes 0 (write_bytes b) ≡ b
read_bytes-write_bytes [] = refl
read_bytes-write_bytes (b ∷ bs) =
    ground (arith, read_bytes-strokes 0 b (write_bytes bs), read_bytes-write_bytes bs)

not_enc : (ch : Char) (s : String) → code ch ≢ b'E' → starts_with (String.◌∷◌ ch s) "ENC:" ≡ false
not_enc ch s h = elim (Bool-cases (starts_with (String.◌∷◌ ch s) "ENC:")) [
  | inr e ↦ e
  | inl e ↦
      let (u, p) = (starts_with_iff (String.◌∷◌ ch s) "ENC:").0 e in
      absurd (h (ap code (sym (head-eq_of_cons-eq (sym (cons-append "E" "NC:" u) ∙ p)))))
]

write_bytes_no_enc : (b : Bytes) → starts_with (write_bytes b) "ENC:" ≡ false
write_bytes_no_enc [] = refl
write_bytes_no_enc (zero ∷ bs) = not_enc "." (write_bytes bs) (omega arith)
write_bytes_no_enc (suc n ∷ bs) = not_enc "i" (strokes n (write_bytes bs)) (omega arith)

abbrev toy : Crypto
toy = record {
  aes_encrypt = λ key nonce p. some (p ++ zeros 16);
  aes_decrypt = λ key nonce x. some (take (length x - 16) x);
  pbkdf2 = λ master salt. zeros 32;
  hmac_hex = λ key msg. "";
  sha256 = λ b. b;
  b64encode = write_bytes;
  b64decode = λ s. some (read_bytes 0 s);
  b64decode_strict = λ s. some (read_bytes 0 s);
  utf8_encode = λ s. 104 ∷ 105 ∷ [];
  utf8_decode = λ b. some "hi";
  generate_data_key = λ id. (zeros 32, zeros 32);
  kms_decrypt = λ b. zeros 32;
}

toy_inverse : (p : Bytes) → take (length (p ++ zeros 16) - 16) (p ++ zeros 16) ≡ p
toy_inverse p =
    take-append_of_length (length (p ++ zeros 16) - 16) p (zeros 16)
      (omega (arith, length-append p (zeros 16)))

CryptoLaws-toy : CryptoLaws toy
CryptoLaws-toy = record {
  aes_total = λ key nonce p h k. (p ++ zeros 16, refl);
  aes_inverse = λ key nonce p x h. rw (← some_inj h) (ap some (toy_inverse p));
  aes_tagged = λ key nonce p x h. rw (← some_inj h) (length-append p (zeros 16));
  pbkdf2_length = λ master salt. refl;
  b64_inverse = λ b. ap some (read_bytes-write_bytes b);
  b64_strict_inverse = λ b. ap some (read_bytes-write_bytes b);
  b64_alphabet = write_bytes_no_enc;
}

abbrev wrapped_key : Bytes
wrapped_key = 9 ∷ []

abbrev settings : Settings
settings = record { pii_encryption_key = some (write_bytes (zeros 32)); kms_key_id = none }

abbrev kms_settings : Settings
kms_settings = record settings { kms_key_id = some "arn" }

abbrev entropy : Entropy
entropy = record { salt = zeros 16; nonce = zeros 12 }

master_key : local_master_key toy settings ≡ some (zeros 32)
unfolding local_master_key
master_key = refl

parse_exact_example :
    (parse_versioned_envelope (version ∷ 1 ∷ (wrapped_key ++ (zeros 12 ++ zeros 16)))
      ≡ some (wrapped_key, zeros 12, zeros 16))
    ↔ ((version ∷ 1 ∷ (wrapped_key ++ (zeros 12 ++ zeros 16))
          ≡ version ∷ length wrapped_key ∷ (wrapped_key ++ (zeros 12 ++ zeros 16)))
        × (length (zeros 12) ≡ nonce_length)
        × (tag_length ≤ length (zeros 16)))
parse_exact_example =
    parse_exact (version ∷ 1 ∷ (wrapped_key ++ (zeros 12 ++ zeros 16))) wrapped_key (zeros 12)
      (zeros 16)

decrypt-encrypt_example :
    (ciphertext : String) × (encrypt_field toy settings local entropy "hi" ≡ some ciphertext)
    × (decrypt_field toy settings local ciphertext ≡ some "hi")
    × (is_encrypted toy ciphertext ≡ true)
decrypt-encrypt_example =
    decrypt-encrypt toy CryptoLaws-toy settings entropy "hi" (zeros 32) master_key refl refl refl

abbrev old_text : String
old_text = write_bytes (zeros 30)

abbrev new_text : String
new_text =
    write_bytes
      (version ∷ 22 ∷ (salt_prefix ++ zeros 16) ++ (zeros 12 ++ ((104 ∷ 105 ∷ []) ++ zeros 16)))

reencrypted :
    decrypt_field_with_reencrypt toy settings local entropy old_text ≡ (some "hi", some new_text)
unfolding decrypt_field_with_reencrypt reencrypt_blob is_versioned decrypt_legacy local_master_key
    encrypt_field generate_dek use_value build_versioned_envelope strip_enc
reencrypted = refl
