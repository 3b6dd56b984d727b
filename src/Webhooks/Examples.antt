-- ===== src/Webhooks/Examples.antt =====
-- The theorems on webhooks, at subscribers whose servers answer, or never do.
use trust_shield.Base.{
  ℕ, zero, suc, String, none, some, true, List, [], ◌∷◌, ◌≡◌, refl, ◌≤◌, ◌=s=◌, arith,
  if◌then◌else◌, leb, length, All, Bool-cases, inl, inr,
}
use trust_shield.Sessions.Toy.{toy, toy_laws, write_number}
use trust_shield.Webhooks.{
  WebhookLibrary, Subscription, replay_tolerance_seconds, distance, is_ascii, mac_of,
  compute_signature, build_signature_header, read_header, verify_signature, answered, raised,
  Network, dispatch_event, split, split_once, read_items, value_of, compare_digest,
}
use trust_shield.Webhooks.Signatures.{
  Without, WebhookLaws, accepted_has_mac, verify_signature-built,
}
use trust_shield.Webhooks.Timing.{subscribers, Received, dispatch_event-Received}

-- Two keys whose MACs differ.
abbrev toy_mac : String → String
toy_mac key = if key =s= "k1" then "5f" else "6a"

abbrev hooks : WebhookLibrary
hooks = record { hmac_sha256 = λ key text. toy_mac key; str_int = toy.str_int; int_of = toy.int_of }

number-Without : (n : ℕ) → Without b',' (write_number n "")
number-Without zero = (refl, tt)
number-Without (suc n) = (refl, number-Without n)

toy_mac-Without : (key : String) → Without b',' (toy_mac key)
toy_mac-Without key = elim (Bool-cases (key =s= "k1")) [
  | inl h ↦ rw h (refl, (refl, tt))
  | inr h ↦ rw h (refl, (refl, tt))
]

toy_mac-is_ascii : (key : String) → is_ascii (toy_mac key) ≡ true
unfolding is_ascii
toy_mac-is_ascii key = elim (Bool-cases (key =s= "k1")) [ inl h ↦ rw h refl | inr h ↦ rw h refl ]

hook_laws : WebhookLaws hooks
hook_laws = record {
  number-Without = number-Without;
  mac-Without = λ key text. toy_mac-Without key;
  mac-is_ascii = λ key text. toy_mac-is_ascii key;
  int-str = toy_laws.int-str;
}

abbrev subscriber : ℕ → Subscription
subscriber k = record {
  id = k;
  tenant_id = "acme";
  url = "https://acme.example/hook";
  event_types = "scam_detected" ∷ [];
  secret = "k1";
  is_active = true;
}

abbrev fast : Network
fast = record { post = λ url body header at. (answered 200, 1) }

abbrev slow : Network
slow = record { post = λ url body header at. (raised, 10) }

verify_signature-built_example :
    verify_signature hooks 7 "k1" "{}" (build_signature_header hooks "k1" "{}" 5)
    ≡ some (leb (distance 7 5) replay_tolerance_seconds)
verify_signature-built_example = verify_signature-built hooks hook_laws 7 "k1" "{}" 5

accepted_has_mac_example :
    (timestamp : ℕ) × (read_header hooks (build_signature_header hooks "k1" "{}" 5)
      ≡ some (timestamp, mac_of hooks "k1" "{}" timestamp))
    × (distance 7 timestamp ≤ replay_tolerance_seconds)
accepted_has_mac_example =
    accepted_has_mac hooks 7 "k1" "{}" (build_signature_header hooks "k1" "{}" 5)
      (verify_signature-built hooks hook_laws 7 "k1" "{}" 5)

-- A signature that is not ASCII is an error of `verify_signature`.
non_ascii_raises : verify_signature hooks 0 "k1" "{}" "t=.,v1=é" ≡ none
unfolding verify_signature read_header split split_once read_items value_of compare_digest is_ascii
    compute_signature
non_ascii_raises = refl

abbrev three : List Subscription
three = subscriber 1 ∷ subscriber 2 ∷ subscriber 3 ∷ []

dispatch_event-Received_example :
    All
      (Received 10 hooks "acme" "scam_detected" "{}" 0
        (length (subscribers "acme" "scam_detected" three)))
      (dispatch_event hooks slow "acme" "scam_detected" "{}" 0 three).requests
dispatch_event-Received_example =
    dispatch_event-Received 10 hooks hook_laws slow "acme" "scam_detected" "{}" 0 three
      (λ url body header at. omega arith)
