-- ===== src/Risk/Readable.antt =====
-- Payloads of backend/app/services/intel/ingest_normalizer.py that the normalizers can read, and what they
-- find in them.
use trust_shield.Base.{
  String, Option, none, some, Bool, true, false, ◌&&◌, List, [], ◌∷◌, ◌≡◌, refl, ◌=s=◌, ◌>>=◌,
  if◌then◌else◌, Bool-cases, inl, inr,
}
use trust_shield.Risk.Payloads.{
  Field, absent, null, value, other, FoundEntity, QrCode, Payload, field_or, optional, members_of,
  first_entity, suspicious_or, suspicious_qr, same_value, get_session, caller_or, content_or,
}

-- The key is missing or holds a value of the expected type.
abbrev pub is_plain : {A : Type 0} → Field A → Bool
is_plain absent = true
is_plain null = false
is_plain (value x) = true
is_plain (other o) = false

-- A list that is empty or begins with a dictionary whose `value` is plain, or no list.
abbrev pub is_plain_first : Field (List (Option FoundEntity)) → Bool
is_plain_first absent = true
is_plain_first null = false
is_plain_first (value []) = true
is_plain_first (value (none ∷ es)) = false
is_plain_first (value (some e ∷ es)) = is_plain e.value_field
is_plain_first (other o) = false

-- Dictionaries whose `content` is plain.
abbrev pub are_plain_codes : List (Option QrCode) → Bool
are_plain_codes [] = true
are_plain_codes (none ∷ qs) = false
are_plain_codes (some q ∷ qs) = let rest = are_plain_codes qs in is_plain q.content && rest

abbrev pub is_plain_codes : Field (List (Option QrCode)) → Bool
is_plain_codes absent = true
is_plain_codes null = false
is_plain_codes (value qs) = are_plain_codes qs
is_plain_codes (other o) = false

-- The keys of which the normalizers need a text, a number or a list are plain, and so is the key
-- `session_id` of `session_metadata`. Types of entities and scams, the payer and the key of a report may
-- be anything.
pub record IsReadable {F : Type 0} (p : Payload F) : Type 0 where
  pub session_metadata :
      (elim p.session_metadata [
        | absent ↦ is_plain p.session_id
        | null ↦ false
        | value id ↦ is_plain id
        | other o ↦ false
      ])
      ≡ true
  pub session_id : is_plain p.session_id ≡ true
  pub entities : is_plain_first p.entities ≡ true
  pub flagged_entities : is_plain_first p.flagged_entities ≡ true
  pub risk_score : is_plain p.risk_score ≡ true
  pub risk : is_plain p.risk ≡ true
  pub geo_location : is_plain p.geo_location ≡ true
  pub amount : is_plain p.amount ≡ true
  pub payee_vpa : is_plain p.payee_vpa ≡ true
  pub caller_id : is_plain p.caller_id ≡ true
  pub qr_codes : is_plain_codes p.qr_codes ≡ true
  pub image_hash : is_plain p.image_hash ≡ true
  pub risk_level : is_plain p.risk_level ≡ true

-- There is a value, which has a property.
abbrev pub Has : {A : Type 0} → (A → Type 0) → Option A → Type 0
Has P o = (x : _) × (o ≡ some x) × P x

abbrev pub Any : {A : Type 0} → A → Type 0
Any x = Unit

pub field_or-Has : {A : Type 0} (d : A) (f : Field A) → is_plain f ≡ true → Has Any (field_or d f)
unfolding field_or
field_or-Has d absent h = (d, refl, tt)
field_or-Has d null h = cc
field_or-Has d (value x) h = (x, refl, tt)
field_or-Has d (other o) h = cc

pub optional-Has : {A : Type 0} (f : Field A) → is_plain f ≡ true → Has Any (optional f)
unfolding optional
optional-Has absent h = (none, refl, tt)
optional-Has null h = cc
optional-Has (value x) h = (some x, refl, tt)
optional-Has (other o) h = cc

pub get_session-Has : {F : Type 0} (p : Payload F) → IsReadable p → Has Any (get_session p)
unfolding get_session field_or
get_session-Has p r = go p.session_metadata r.session_metadata
  where
    go :
        (m : Field (Field String))
        → (elim m [
          | absent ↦ is_plain p.session_id
          | null ↦ false
          | value id ↦ is_plain id
          | other o ↦ false
        ])
          ≡ true
        → Has Any (field_or p.session_id m >>= λ id. field_or "unknown" id)
    go absent h = field_or-Has "unknown" p.session_id h
    go null h = cc
    go (value id) h = field_or-Has "unknown" id h
    go (other o) h = cc

abbrev pub HasPlainValue : FoundEntity → Type 0
HasPlainValue e = is_plain e.value_field ≡ true

first_of_flagged :
    (f : Field (List (Option FoundEntity)))
    → is_plain_first f ≡ true
    → Has HasPlainValue (
        members_of f >>= λ fs. elim fs [
          | e ∷ rest ↦ e
          | [] ↦ some (record { value_field = absent; entity_type = absent })
        ])
unfolding members_of
first_of_flagged absent h = (_, refl, refl)
first_of_flagged null h = cc
first_of_flagged (value []) h = (_, refl, refl)
first_of_flagged (value (none ∷ es)) h = cc
first_of_flagged (value (some e ∷ es)) h = (e, refl, h)
first_of_flagged (other o) h = cc

pub first_entity-Has :
    {F : Type 0} (p : Payload F) → IsReadable p → Has HasPlainValue (first_entity p)
unfolding first_entity members_of
first_entity-Has p r =
    go p.entities r.entities _ (first_of_flagged p.flagged_entities r.flagged_entities)
  where
    go :
        (f : Field (List (Option FoundEntity)))
        → is_plain_first f ≡ true
        → (more : Option FoundEntity) → Has HasPlainValue more
        → Has HasPlainValue (members_of f >>= λ es. elim es [ e ∷ rest ↦ e | [] ↦ more ])
    go absent h more k = k
    go null h more k = cc
    go (value []) h more k = k
    go (value (none ∷ es)) h more k = cc
    go (value (some e ∷ es)) h more k = (e, refl, h)
    go (other o) h more k = cc

pub caller_or-Has :
    (found caller_id : Field String)
    → is_plain found ≡ true
    → is_plain caller_id ≡ true
    → Has Any (caller_or found caller_id)
unfolding caller_or
caller_or-Has absent c h k = field_or-Has "unknown" c k
caller_or-Has null c h k = cc
caller_or-Has (value s) c h k = elim (Bool-cases (s =s= "")) [
  | inl e ↦ rw e (field_or-Has "unknown" c k)
  | inr e ↦ rw e (s, refl, tt)
]
caller_or-Has (other o) c h k = cc

pub content_or-Has :
    (content image_hash : Field String)
    → is_plain content ≡ true
    → is_plain image_hash ≡ true
    → Has Any (content_or content image_hash)
unfolding content_or
content_or-Has absent i h k = field_or-Has "unknown" i k
content_or-Has null i h k = cc
content_or-Has (value s) i h k = (s, refl, tt)
content_or-Has (other o) i h k = cc

abbrev pub HasPlainContent : QrCode → Type 0
HasPlainContent q = is_plain q.content ≡ true

and_both : (a b : Bool) → (a && b) ≡ true → (a ≡ true) × (b ≡ true)
and_both true b h = (refl, h)
and_both false b h = cc

if-Has :
    {A : Type 0} {P : A → Type 0} (b : Bool) (x y : Option A)
    → Has P x
    → Has P y
    → Has P (if b then x else y)
if-Has true x y h k = h
if-Has false x y h k = k

suspicious_or-Has :
    (d : Option QrCode) (qs : List (Option QrCode))
    → Has HasPlainContent d
    → are_plain_codes qs ≡ true
    → Has HasPlainContent (suspicious_or d qs)
unfolding suspicious_or
suspicious_or-Has d [] k h = k
suspicious_or-Has d (none ∷ qs) k h = cc
suspicious_or-Has d (some q ∷ qs) k h =
    let (plain, rest) = and_both (is_plain q.content) (are_plain_codes qs) h in
    if-Has q.is_suspicious (some q) (suspicious_or d qs) (q, refl, plain)
      (suspicious_or-Has d qs k rest)

pub suspicious_qr-Has :
    (qs : List (Option QrCode)) → are_plain_codes qs ≡ true → Has HasPlainContent (suspicious_qr qs)
unfolding suspicious_qr
suspicious_qr-Has [] h = (_, refl, refl)
suspicious_qr-Has (none ∷ qs) h = cc
suspicious_qr-Has (some q ∷ qs) h =
    suspicious_or-Has (some q) (some q ∷ qs)
      (q, refl, (and_both (is_plain q.content) (are_plain_codes qs) h).0) h

pub codes-Has :
    (f : Field (List (Option QrCode)))
    → is_plain_codes f ≡ true
    → Has (λ qs. are_plain_codes qs ≡ true) (field_or [] f)
unfolding field_or
codes-Has absent h = ([], refl, refl)
codes-Has null h = cc
codes-Has (value qs) h = (qs, refl, h)
codes-Has (other o) h = cc

-- The key is missing or holds `None`.
abbrev pub is_unnamed : Field String → Bool
is_unnamed absent = true
is_unnamed null = true
is_unnamed (value s) = false
is_unnamed (other o) = false

pub unnamed-same :
    (a b : Field String) → is_unnamed a ≡ true → is_unnamed b ≡ true → same_value a b ≡ true
unfolding same_value
unnamed-same absent absent h k = refl
unnamed-same absent null h k = refl
unnamed-same absent (value s) h k = cc
unnamed-same absent (other o) h k = cc
unnamed-same null absent h k = refl
unnamed-same null null h k = refl
unnamed-same null (value s) h k = cc
unnamed-same null (other o) h k = cc
unnamed-same (value s) b h k = cc
unnamed-same (other o) b h k = cc
