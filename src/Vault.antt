-- ===== src/Vault.antt =====
-- Field encryption: backend/app/services/security/pii_vault.py with the local provider of
-- backend/app/services/security/kms_provider.py. A `bytes` value is a list of numbers, and an
-- exception of a call is `none`. Random bytes are arguments.
pub mod Envelope
pub mod RoundTrip
pub mod Legacy
mod Examples
use Prim.Native.String.{len, slice}
use text.Mathlib.Text.{starts_with}
use trust_shield.Base.{
  ℕ, String, Option, none, some, Bool, true, false, not, ◌&&◌, List, [], ◌∷◌, ◌++◌, ◌+◌, ltb, leb,
  ◌==◌, ◌<>◌, if◌then◌else◌, is_set, or_text, truthy, length, take, drop, ◌>>=◌,
}

abbrev pub Bytes : Type 0
Bytes = List ℕ

-- The libraries that the vault calls: AES-GCM (with its tag behind the ciphertext), PBKDF2,
-- HMAC-SHA256 in hexadecimal, SHA-256, base64 without and with `validate=True`, UTF-8, and the AWS
-- client's `generate_data_key` and `decrypt`.
pub record Crypto : Type 0 where
  pub aes_encrypt : Bytes → Bytes → Bytes → Option Bytes
  pub aes_decrypt : Bytes → Bytes → Bytes → Option Bytes
  pub pbkdf2 : Bytes → Bytes → Bytes
  pub hmac_hex : Bytes → Bytes → String
  pub sha256 : Bytes → Bytes
  pub b64encode : Bytes → String
  pub b64decode : String → Option Bytes
  pub b64decode_strict : String → Option Bytes
  pub utf8_encode : String → Bytes
  pub utf8_decode : Bytes → Option String
  pub generate_data_key : String → Bytes × Bytes
  pub kms_decrypt : Bytes → Bytes

pub record Settings : Type 0 where
  pub pii_encryption_key : Option String
  pub kms_key_id : Option String

-- The bytes of `os.urandom` for one encryption.
pub record Entropy : Type 0 where
  pub salt : Bytes
  pub nonce : Bytes

-- What a method of a provider gives its caller: an `async def` gives a coroutine.
pub data Called {ℓ} (A : Type ℓ) : Type ℓ where
  value : A → Called A
  coroutine : A → Called A

pub data Provider : Type 0 where
  local : Provider
  kms : String → Provider

-- `_NONCE_LENGTH`, `_TAG_LENGTH`, `_VERSION` and `_MAX_WRAPPED_DEK_LEN`
abbrev pub nonce_length : ℕ
nonce_length = 12

abbrev pub tag_length : ℕ
tag_length = 16

abbrev pub version : ℕ
version = 1

abbrev pub max_wrapped_dek_len : ℕ
max_wrapped_dek_len = 255

-- `LocalKeyProvider._SALT_PREFIX`, the bytes of "local:"
abbrev pub salt_prefix : Bytes
salt_prefix = 108 ∷ 111 ∷ 99 ∷ 97 ∷ 108 ∷ 58 ∷ []

-- `a.startswith(b)`
unfoldable pub begins_with : Bytes → Bytes → Bool
begins_with a [] = true
begins_with [] (y ∷ b) = false
begins_with (x ∷ a) (y ∷ b) = (x == y) && begins_with a b

-- Unpacking or using what a method gave: a coroutine raises a TypeError.
unfoldable pub use_value {ℓ} : {A : Type ℓ} → Called A → Option A
use_value (value a) = some a
use_value (coroutine a) = none

unfoldable pub is_versioned : Bytes → Bool
is_versioned [] = false
is_versioned (b ∷ []) = false
is_versioned (b ∷ c ∷ bs) = b == version

-- `blob[0]`, `blob[1]` and the slices of `_parse_versioned_envelope`
unfoldable pub parse_versioned_envelope : Bytes → Option (Bytes × Bytes × Bytes)
parse_versioned_envelope [] = none
parse_versioned_envelope (v ∷ []) = none
parse_versioned_envelope (v ∷ n ∷ body) =
    let rest = drop n body in
    if not (v == version)
    then none
    else if ltb (length rest) (nonce_length + tag_length)
    then none
    else some (take n body, take nonce_length rest, drop nonce_length rest)

-- what follows the prefix ENC:, if the text begins with it
unfoldable pub strip_enc : String → String
strip_enc s = if starts_with s "ENC:" then slice s 4 (len s) else s

unfoldable pub get_provider : Settings → Option Provider → Provider
get_provider s (some p) = p
get_provider s none = if is_set s.kms_key_id then kms (or_text s.kms_key_id "") else local

module _ (c : Crypto) where
  -- `_get_encryption_key` and `_local_master_key`
  unfoldable pub local_master_key : Settings → Option Bytes
  local_master_key s =
      if is_set s.pii_encryption_key
      then (do
        key ← c.b64decode (or_text s.pii_encryption_key "")
        if length key == 32 then some key else none)
      else none

  unfoldable pub generate_dek : Settings → Provider → Bytes → Option (Called (Bytes × Bytes))
  generate_dek s local salt = do
    master ← local_master_key s
    some (value (c.pbkdf2 master salt, salt_prefix ++ salt))
  generate_dek s (kms key_id) salt = some (coroutine (c.generate_data_key key_id))

  unfoldable pub unwrap_dek : Settings → Provider → Bytes → Option (Called Bytes)
  unfolding begins_with
  unwrap_dek s local wrapped = do
    master ← local_master_key s
    if begins_with wrapped salt_prefix
        then some (value (c.pbkdf2 master (drop 6 wrapped)))
        else none
  unwrap_dek s (kms key_id) wrapped = some (coroutine (c.kms_decrypt wrapped))

  unfoldable pub build_versioned_envelope : Bytes → Bytes → Bytes → Bytes → Option Bytes
  build_versioned_envelope dek wrapped plaintext nonce =
      if ltb max_wrapped_dek_len (length wrapped) then none else do
        ciphertext ← c.aes_encrypt dek nonce plaintext
        some (version ∷ length wrapped ∷ (wrapped ++ (nonce ++ ciphertext)))

  unfoldable pub decrypt_versioned : Settings → Provider → Bytes → Option Bytes
  decrypt_versioned s p blob = do
    (wrapped, nonce, ciphertext) ← parse_versioned_envelope blob
    called ← unwrap_dek s p wrapped
    dek ← use_value called
    c.aes_decrypt dek nonce ciphertext

  unfoldable pub decrypt_legacy : Settings → Bytes → Option Bytes
  decrypt_legacy s raw = do
    key ← local_master_key s
    if ltb (length raw) (nonce_length + tag_length)
        then none
        else c.aes_decrypt key (take nonce_length raw) (drop nonce_length raw)

  unfoldable pub encrypt_field : Settings → Provider → Entropy → String → Option String
  encrypt_field s p e v = do
    called ← generate_dek s p e.salt
    (dek, wrapped) ← use_value called
    blob ← build_versioned_envelope dek wrapped (c.utf8_encode v) e.nonce
    some (c.b64encode blob)

  unfoldable pub decrypt_blob : Settings → Provider → Bytes → Option String
  decrypt_blob s p blob = do
    plaintext ← if is_versioned blob then decrypt_versioned s p blob else decrypt_legacy s blob
    c.utf8_decode plaintext

  unfoldable pub decrypt_field : Settings → Provider → String → Option String
  decrypt_field s p ciphertext = do blob ← c.b64decode (strip_enc ciphertext); decrypt_blob s p blob

  -- The plaintext, and the new ciphertext of a legacy value.
  unfoldable pub reencrypt_blob :
      Settings → Provider → Entropy → Bytes → Option (Option String × Option String)
  reencrypt_blob s p e blob =
      if is_versioned blob
      then (do
        plaintext ← decrypt_versioned s p blob
        text ← c.utf8_decode plaintext
        some (some text, none))
      else (do
        plaintext ← decrypt_legacy s blob
        text ← c.utf8_decode plaintext
        some (some text, encrypt_field s p e text))

  unfoldable pub decrypt_field_with_reencrypt :
      Settings → Provider → Entropy → String → Option String × Option String
  decrypt_field_with_reencrypt s p e ciphertext = elim (c.b64decode (strip_enc ciphertext)) [
    | none ↦ (none, none)
    | some blob ↦ elim (reencrypt_blob s p e blob) [ none ↦ (none, none) | some result ↦ result ]
  ]

  unfoldable pub is_encrypted : String → Bool
  is_encrypted v =
      if starts_with v "ENC:"
      then elim (c.b64decode_strict (slice v 4 (len v))) [
        | none ↦ false
        | some blob ↦ leb (nonce_length + tag_length) (length blob)
      ]
      else elim (c.b64decode_strict v) [ none ↦ false | some blob ↦ is_versioned blob ]
