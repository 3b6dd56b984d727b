-- ===== src/Webhooks/Signatures.antt =====
-- Which signature headers `verify_signature` of backend/app/services/integration/webhook_dispatcher.py
-- accepts.
use Prim.Native.Char.{Char, code}
use text.Mathlib.TextLemmas.{append_assoc, cons-append, nil-append}
use trust_shield.Base.{
  ℕ, String, some, true, false, ◌&&◌, [], ◌∷◌, ◌≡◌, refl, sym, ap, ◌∙◌, ◌≤◌, ◌==◌, ◌<>◌, arith,
  if◌then◌else◌, ltb, leb, Bool-cases, Option-cases, inl, inr, eq_refl, eq_iff, some_inj,
}
use trust_shield.Webhooks.{
  WebhookLibrary, replay_tolerance_seconds, distance, split, split_once, read_items, value_of,
  is_ascii, mac_of, compute_signature, build_signature_header, compare_digest, read_header,
  verify_signature,
}

-- No character of the text has the code.
abbrev pub Without : ℕ → String → Type 0
Without n String.[] = Unit
Without n (String.◌∷◌ c s) = ((code c == n) ≡ false) × Without n s

-- What the code relies on: the texts of numbers and the MACs are ASCII without a comma, and a
-- number is read back from its text.
pub record WebhookLaws (lib : WebhookLibrary) : Type 0 where
  pub number-Without : (n : ℕ) → Without b',' (lib.str_int n)
  pub mac-Without : (k m : String) → Without b',' (lib.hmac_sha256 k m)
  pub mac-is_ascii : (k m : String) → is_ascii (lib.hmac_sha256 k m) ≡ true
  pub int-str : (n : ℕ) → lib.int_of (lib.str_int n) ≡ some n

split-Without : (n : ℕ) (s : String) → Without n s → split n s ≡ s ∷ []
unfolding split
split-Without n String.[] h = refl
split-Without n (String.◌∷◌ c s) (h, k) = rw (h, split-Without n s k) refl

split-joined :
    (n : ℕ) (s rest : String) (c : Char)
    → Without n s
    → (code c == n) ≡ true
    → split n (s <> String.◌∷◌ c "" <> rest) ≡ s ∷ split n rest
unfolding split
split-joined n String.[] rest c h e = rw (nil-append, cons-append, nil-append, split, e) refl
split-joined n (String.◌∷◌ d s) rest c (h, k) e =
    rw (cons-append d s, split, h, split-joined n s rest c k e) refl

split_once-joined :
    (n : ℕ) (s rest : String) (c : Char)
    → Without n s
    → (code c == n) ≡ true
    → split_once n (s <> String.◌∷◌ c "" <> rest) ≡ some (s, rest)
unfolding split_once
split_once-joined n String.[] rest c h e =
    rw (nil-append, cons-append, nil-append, split_once, e) refl
split_once-joined n (String.◌∷◌ d s) rest c (h, k) e =
    rw (cons-append d s, split_once, h, split_once-joined n s rest c k e) refl

append-Without : (n : ℕ) (s t : String) → Without n s → Without n t → Without n (s <> t)
append-Without n String.[] t h k = rw nil-append k
append-Without n (String.◌∷◌ c s) t (h, g) k = rw cons-append (h, append-Without n s t g k)

keyed : (k v : String) → Without b'=' k → split_once b'=' (k <> "=" <> v) ≡ some (k, v)
keyed k v h = split_once-joined b'=' k v _ h refl

time_part : (v : String) → split_once b'=' ("t=" <> v) ≡ some ("t", v)
time_part v = ap (split_once b'=') (append_assoc "t" "=" v) ∙ keyed "t" v (refl, tt)

version_part : (v : String) → split_once b'=' ("v1=" <> v) ≡ some ("v1", v)
version_part v = ap (split_once b'=') (append_assoc "v1" "=" v) ∙ keyed "v1" v (refl, (refl, tt))

-- The parts of a header, for texts without a comma.
signed_parts :
    (number mac : String)
    → Without b',' number
    → Without b',' mac
    → split b',' ("t=" <> number <> "," <> "v1=" <> mac) ≡ ("t=" <> number) ∷ ("v1=" <> mac) ∷ []
signed_parts number mac h k =
    ap (split b',') (sym (append_assoc "t=" number _))
    ∙ split-joined b',' ("t=" <> number) ("v1=" <> mac) _
        (append-Without b',' "t=" number (refl, (refl, tt)) h) refl
    ∙ ap (λ ss. ("t=" <> number) ∷ ss)
        (split-Without b',' ("v1=" <> mac)
          (append-Without b',' "v1=" mac (refl, (refl, (refl, tt))) k))

two_items :
    (number mac : String)
    → read_items (("t=" <> number) ∷ ("v1=" <> mac) ∷ []) ≡ some (("t", number) ∷ ("v1", mac) ∷ [])
unfolding read_items
two_items number mac = rw (time_part number, read_items, version_part mac) refl

equal_digests : (a b : String) → compare_digest a b ≡ some true → a ≡ b
unfolding compare_digest
equal_digests a b = elim (Bool-cases (is_ascii a && is_ascii b)) [
  | inl h ↦ rw h (λ e. (eq_iff a b).0 (some_inj e))
  | inr h ↦ rw h (λ e. cc)
]

module _ (lib : WebhookLibrary) where
  module _ (laws : WebhookLaws lib) where
    read_header-built :
        (secret payload : String) (timestamp : ℕ)
        → read_header lib (build_signature_header lib secret payload timestamp)
          ≡ some (timestamp, mac_of lib secret payload timestamp)
    unfolding read_header build_signature_header compute_signature read_items split_once value_of
        split
    read_header-built secret payload timestamp =
        let number = lib.str_int timestamp in
        let mac = mac_of lib secret payload timestamp in
        rw
          (
            signed_parts number mac (laws.number-Without timestamp) (laws.mac-Without secret _),
            read_header,
            two_items number mac,
            laws.int-str timestamp,
          )
          refl

  verify_signature-read :
      (now : ℕ) (secret body header : String) (timestamp : ℕ) (received : String)
      → read_header lib header ≡ some (timestamp, received)
      → verify_signature lib now secret body header ≡ (
          if ltb replay_tolerance_seconds (distance now timestamp)
          then some false
          else compare_digest received (mac_of lib secret body timestamp))
  unfolding verify_signature compute_signature split_once
  verify_signature-read now secret body header timestamp received h =
      rw (h, verify_signature, version_part (mac_of lib secret body timestamp)) refl

  -- A header is accepted by `verify_signature` only if it carries the MAC, by the secret, of the body
  -- at an instant at most five minutes away.
  pub accepted_has_mac :
      (now : ℕ) (secret body header : String)
      → verify_signature lib now secret body header ≡ some true
      → (timestamp : ℕ) × (read_header lib header
          ≡ some (timestamp, mac_of lib secret body timestamp))
        × (distance now timestamp ≤ replay_tolerance_seconds)
  unfolding verify_signature
  accepted_has_mac now secret body header = elim (Option-cases (read_header lib header)) [
    | inl e ↦ rw (e, verify_signature) (λ h. (let z : false ≡ true = some_inj h in cc))
    | inr ((timestamp, received), e) ↦ λ h.
        let (near, same) =
          accepted_if now body secret timestamp received
            (sym (verify_signature-read now secret body header timestamp received e) ∙ h) in
        (
          timestamp,
          e ∙ ap (λ (x : String). let q : ℕ × String = (timestamp, x) in some q) same,
          near,
        )
  ]
    where
      accepted_if :
          (now : ℕ) (body secret : String) (timestamp : ℕ) (received : String)
          → (if ltb replay_tolerance_seconds (distance now timestamp)
              then some false
              else compare_digest received (mac_of lib secret body timestamp))
            ≡ some true
          → (distance now timestamp ≤ replay_tolerance_seconds)
            × (received ≡ mac_of lib secret body timestamp)
      accepted_if now body secret timestamp received =
          elim (Bool-cases (ltb replay_tolerance_seconds (distance now timestamp))) [
            | inl late ↦ rw late (λ h. (let z : false ≡ true = some_inj h in cc))
            | inr near ↦ rw near (λ h. (ground arith, equal_digests received _ h))
          ]

  module _ (laws : WebhookLaws lib) where
    -- A header that `build_signature_header` made is accepted for its secret and body within five
    -- minutes of its timestamp, before or after, and rejected at any other instant; it is never an
    -- error.
    pub verify_signature-built :
        (now : ℕ) (secret payload : String) (timestamp : ℕ)
        → verify_signature lib now secret payload
            (build_signature_header lib secret payload timestamp)
          ≡ some (leb (distance now timestamp) replay_tolerance_seconds)
    unfolding compare_digest
    verify_signature-built now secret payload timestamp =
        let mac = mac_of lib secret payload timestamp in
        verify_signature-read now secret payload _ timestamp mac
          (read_header-built laws secret payload timestamp)
        ∙ rw (laws.mac-is_ascii secret _, eq_refl mac) (ground arith)
