-- ===== src/Risk/Payloads.antt =====
-- The payloads of backend/app/services/intel/ingest_normalizer.py and what its normalizers read of them,
-- with values that are missing or of an unexpected type.
use trust_shield.Base.{
  ℕ, String, Option, none, some, Bool, true, false, List, [], ◌∷◌, ◌==◌, ◌=s=◌, ◌>>=◌,
  if◌then◌else◌, truthy,
}

-- A value of a type that the normalizers do not expect: whether Python takes it for true and can hash
-- it, what `str` makes of it, and a number that just equal values share.
pub record Other : Type 0 where
  pub is_true : Bool
  pub is_hashable : Bool
  pub shown : String
  pub identity : ℕ

-- What a dictionary has under a key: nothing, `None`, a value of the expected type, or another.
pub data Field (A : Type 0) : Type 0 where
  absent : Field A
  null : Field A
  value : A → Field A
  other : Other → Field A

pub record FoundEntity : Type 0 where
  pub value_field : Field String
  pub entity_type : Field String

pub record QrCode : Type 0 where
  pub is_suspicious : Bool
  pub content : Field String
  pub content_type : Field String

-- A payload; of `session_metadata` its key `session_id`. A number is one that is ordered with all
-- others, and for the keys `risk_score` and `risk` what `float` makes of the value. A member of a list
-- that is no dictionary is `none`; an empty text or dictionary in place of a list counts as an empty
-- list.
pub record Payload (F : Type 0) : Type 0 where
  pub session_metadata : Field (Field String)
  pub session_id : Field String
  pub entities : Field (List (Option FoundEntity))
  pub flagged_entities : Field (List (Option FoundEntity))
  pub entity_type : Field String
  pub entity_value : Field String
  pub scam_type : Field String
  pub risk_score : Field F
  pub risk : Field F
  pub geo_location : Field String
  pub report_count : Field F
  pub report_id : Field String
  pub amount : Field F
  pub payer_vpa : Field String
  pub payee_vpa : Field String
  pub caller_id : Field String
  pub qr_codes : Field (List (Option QrCode))
  pub image_hash : Field String
  pub risk_level : Field String

-- `get(key, d)`, where a value that is not of the expected type raises as soon as it is used: in
-- `float`, in a comparison or a product, as a dictionary or by the model `IntelEvent`.
unfoldable pub field_or : {A : Type 0} → A → Field A → Option A
field_or d absent = some d
field_or d null = none
field_or d (value x) = some x
field_or d (other o) = none

-- `get(key, d)` where it is looked for among the values of an enumeration or compared with a text, none
-- of which is empty: the empty text stands for a value that is no text.
unfoldable pub raw_text : String → Field String → String
raw_text d absent = d
raw_text d null = ""
raw_text d (value s) = s
raw_text d (other o) = ""

-- `f"{get(key, d)}"`
unfoldable pub shown_or : String → Field String → String
shown_or d absent = d
shown_or d null = "None"
shown_or d (value s) = s
shown_or d (other o) = o.shown

-- An optional field of the model.
unfoldable pub optional : {A : Type 0} → Field A → Option (Option A)
optional absent = some none
optional null = some none
optional (value x) = some (some x)
optional (other o) = none

-- The members of a list whose first is taken where the list is true.
unfoldable pub members_of : {A : Type 0} → Field (List A) → Option (List A)
members_of absent = some []
members_of null = some []
members_of (value xs) = some xs
members_of (other o) = if o.is_true then none else some []

-- `payload.get("entities") or payload.get("flagged_entities", [])`, and its first member or `{}`
unfoldable pub first_entity : {F : Type 0} → Payload F → Option FoundEntity
first_entity p =
    let nothing : FoundEntity = record { value_field = absent; entity_type = absent } in
    members_of p.entities >>= λ es. elim es [
      | e ∷ rest ↦ e
      | [] ↦ members_of p.flagged_entities >>= λ fs. elim fs [ e ∷ rest ↦ e | [] ↦ some nothing ]
    ]

-- The first suspicious code, or else the default.
unfoldable pub suspicious_or : Option QrCode → List (Option QrCode) → Option QrCode
suspicious_or d [] = d
suspicious_or d (none ∷ qs) = none
suspicious_or d (some q ∷ qs) =
    let rest = suspicious_or d qs in if q.is_suspicious then some q else rest

-- The first suspicious code, or the first one, or `{}`.
unfoldable pub suspicious_qr : List (Option QrCode) → Option QrCode
suspicious_qr [] = some (record { is_suspicious = false; content = absent; content_type = absent })
suspicious_qr (q ∷ qs) = suspicious_or q (q ∷ qs)

-- `get(a) == get(b)`
unfoldable pub same_value : Field String → Field String → Bool
same_value a b = elim a [
  | absent ↦ elim b [ absent ↦ true | null ↦ true | value t ↦ false | other q ↦ false ]
  | null ↦ elim b [ absent ↦ true | null ↦ true | value t ↦ false | other q ↦ false ]
  | value s ↦ elim b [ absent ↦ false | null ↦ false | value t ↦ s =s= t | other q ↦ false ]
  | other p ↦ elim b [
    | absent ↦ false
    | null ↦ false
    | value t ↦ false
    | other q ↦ p.identity == q.identity
  ]
]

-- `session_meta.get("session_id", "unknown")`
unfoldable pub get_session : {F : Type 0} → Payload F → Option String
get_session p = field_or p.session_id p.session_metadata >>= λ id. field_or "unknown" id

-- `first_entity.get("value") or payload.get("caller_id", "unknown")`
unfoldable pub caller_or : Field String → Field String → Option String
caller_or found caller_id =
    let caller = field_or "unknown" caller_id in
    elim found [
      | absent ↦ caller
      | null ↦ caller
      | value s ↦ if truthy s then some s else caller
      | other o ↦ if o.is_true then none else caller
    ]

-- `suspicious_qr.get("content", payload.get("image_hash", "unknown"))`
unfoldable pub content_or : Field String → Field String → Option String
content_or content image_hash = elim content [
  | absent ↦ field_or "unknown" image_hash
  | null ↦ none
  | value s ↦ some s
  | other o ↦ none
]
