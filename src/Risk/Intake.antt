-- ===== src/Risk/Intake.antt =====
-- The normalizers of backend/app/services/intel/ingest_normalizer.py: from the payload of a signal to
-- an event. A normalizer that raises answers `none`.
pub mod Bounds
use trust_shield.Base.{
  ℕ, String, Option, none, some, Bool, true, false, not, ◌&&◌, List, [], ◌∷◌, ◌≡◌, ◌==◌, ◌=s=◌,
  ◌<>◌, ◌>>=◌, if◌then◌else◌, truthy,
}
use trust_shield.Base.Float.{FloatOps, fmin, fmax}
use trust_shield.Risk.{
  EntityType, upi, phone, anydesk, teamviewer, url_shortlink, ifsc, apk, ScamType, unknown, vishing,
  fake_support, refund_scam, otp_harvesting, remote_access, phishing, sim_swap,
}
use trust_shield.Risk.Payloads.{
  Field, absent, null, value, other, Payload, field_or, raw_text, shown_or, optional, first_entity,
  suspicious_qr, same_value, get_session, caller_or, content_or,
}
use trust_shield.Risk.Emission.{IntelEvent}

-- The member of the enumeration with a value, or the default.
unfoldable pub entity_type_or : EntityType → String → EntityType
entity_type_or d s =
    if s =s= "UPI"
    then upi
    else if s =s= "PHONE"
    then phone
    else if s =s= "ANYDESK"
    then anydesk
    else if s =s= "TEAMVIEWER"
    then teamviewer
    else if s =s= "URL_SHORTLINK"
    then url_shortlink
    else if s =s= "IFSC"
    then ifsc
    else if s =s= "APK"
    then apk
    else d

unfoldable pub scam_type_of : String → ScamType
scam_type_of s =
    if s =s= "vishing"
    then vishing
    else if s =s= "fake_support"
    then fake_support
    else if s =s= "refund_scam"
    then refund_scam
    else if s =s= "otp_harvesting"
    then otp_harvesting
    else if s =s= "remote_access"
    then remote_access
    else if s =s= "phishing"
    then phishing
    else if s =s= "sim_swap"
    then sim_swap
    else unknown

module _ {F : Type 0} (ops : FloatOps F) where
  -- `min(max(risk, 0), 100)`
  unfoldable pub cut : F → F
  cut risk = fmin ops (fmax ops risk (ops.of_ℕ 0)) (ops.of_ℕ 100)

  abbrev pub IsRisk : F → Type 0
  IsRisk x = (ops.le (ops.of_ℕ 0) x ≡ true) × (ops.le x (ops.of_ℕ 100) ≡ true)

  -- The model `IntelEvent`, which raises (`none`) for a risk outside of 0 to 100.
  unfoldable pub validated : IntelEvent F → Option (IntelEvent F)
  validated e = if ops.le (ops.of_ℕ 0) e.risk && ops.le e.risk (ops.of_ℕ 100) then some e else none

  abbrev get_scam_type : Payload F → ScamType
  get_scam_type p = scam_type_of (raw_text "unknown" p.scam_type)

  -- `float(payload.get("risk_score", payload.get("risk", 0)))`
  unfoldable pub get_risk : Payload F → Option F
  get_risk p = elim p.risk_score [
    | absent ↦ field_or (ops.of_ℕ 0) p.risk
    | null ↦ none
    | value x ↦ some x
    | other o ↦ none
  ]

  unfoldable pub normalize_analyze : String → Payload F → Option (IntelEvent F)
  normalize_analyze now p = do
    session_id ← get_session p
    first ← first_entity p
    entity_value ← field_or session_id first.value_field
    risk ← get_risk p
    geo ← optional p.geo_location
    validated (record {
      entity_value = entity_value;
      entity_type = entity_type_or phone (raw_text "PHONE" first.entity_type);
      scam_type = get_scam_type p;
      risk = cut risk;
      source = "analyze";
      session_id = session_id;
      occurred_at = now;
      geo = geo;
    })

  unfoldable pub normalize_report : String → Payload F → Option (IntelEvent F)
  normalize_report now p = do
    report_count ← field_or (ops.of_ℕ 1) p.report_count
    entity_value ← field_or "unknown" p.entity_value
    session_id ← field_or ("report-" <> shown_or "unknown" p.report_id) p.session_id
    validated (record {
      entity_value = entity_value;
      entity_type = entity_type_or phone (raw_text "PHONE" p.entity_type);
      scam_type = get_scam_type p;
      risk = fmin ops (ops.of_ℕ 100) (ops.mul report_count (ops.of_ℕ 10));
      source = "report";
      session_id = session_id;
      occurred_at = now;
      geo = none;
    })

  -- The risk of a payment: at least 70 for more than 50000, and 80 from an address to itself.
  unfoldable pub payment_risk : F → F → Bool → F
  payment_risk risk amount same =
      let large = if ops.lt (ops.of_ℕ 50000) amount then fmax ops risk (ops.of_ℕ 70) else risk in
      if same then fmax ops large (ops.of_ℕ 80) else large

  unfoldable pub normalize_webhook : String → Payload F → Option (IntelEvent F)
  normalize_webhook now p = do
    risk_score ← field_or (ops.of_ℕ 0) p.risk_score
    amount ← field_or (ops.of_ℕ 0) p.amount
    let risk = payment_risk risk_score amount (same_value p.payer_vpa p.payee_vpa)
    entity_value ← field_or "unknown" p.payee_vpa
    session_id ← field_or ("webhook-" <> shown_or "unknown" p.payer_vpa) p.session_id
    geo ← optional p.geo_location
    validated (record {
      entity_value = entity_value;
      entity_type = upi;
      scam_type = if ops.le (ops.of_ℕ 50) risk then phishing else unknown;
      risk = cut risk;
      source = "webhook";
      session_id = session_id;
      occurred_at = now;
      geo = geo;
    })

  unfoldable pub normalize_voice : String → Payload F → Option (IntelEvent F)
  normalize_voice now p = do
    first ← first_entity p
    entity_value ← caller_or first.value_field p.caller_id
    risk ← get_risk p
    session_id ← field_or ("voice-" <> entity_value) p.session_id
    validated (record {
      entity_value = entity_value;
      entity_type = entity_type_or phone (raw_text "PHONE" first.entity_type);
      scam_type = get_scam_type p;
      risk = cut risk;
      source = "voice";
      session_id = session_id;
      occurred_at = now;
      geo = none;
    })

  unfoldable pub risk_of_level : String → F
  risk_of_level level =
      if level =s= "critical"
      then ops.of_ℕ 90
      else if level =s= "high"
      then ops.of_ℕ 70
      else if level =s= "medium"
      then ops.of_ℕ 45
      else ops.of_ℕ 15

  -- `_RISK_LEVEL_MAP.get(payload.get("risk_level", "low"), 15.0)`
  unfoldable pub get_level_risk : Field String → Option F
  get_level_risk absent = some (risk_of_level "low")
  get_level_risk null = some (ops.of_ℕ 15)
  get_level_risk (value s) = some (risk_of_level s)
  get_level_risk (other o) = if o.is_hashable then some (ops.of_ℕ 15) else none

  unfoldable pub normalize_image : String → Payload F → Option (IntelEvent F)
  normalize_image now p = do
    codes ← field_or [] p.qr_codes
    qr ← suspicious_qr codes
    entity_value ← content_or qr.content p.image_hash
    risk ← get_level_risk p.risk_level
    session_id ← field_or ("image-" <> shown_or "unknown" p.image_hash) p.session_id
    let guess = if raw_text "" qr.content_type =s= "url" then "URL_SHORTLINK" else "APK"
    validated (record {
      entity_value = entity_value;
      entity_type = entity_type_or url_shortlink (raw_text guess p.entity_type);
      scam_type = get_scam_type p;
      risk = cut risk;
      source = "image";
      session_id = session_id;
      occurred_at = now;
      geo = none;
    })

  -- `normalize_and_emit` up to the four sinks, which it starts with the event.
  unfoldable pub normalize : String → String → Payload F → Option (IntelEvent F)
  normalize now event_type p =
      if event_type =s= "analyze"
      then normalize_analyze now p
      else if event_type =s= "report"
      then normalize_report now p
      else if event_type =s= "webhook"
      then normalize_webhook now p
      else if event_type =s= "voice"
      then normalize_voice now p
      else if event_type =s= "image"
      then normalize_image now p
      else none
