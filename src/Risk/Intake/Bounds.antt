-- ===== src/Risk/Intake/Bounds.antt =====
-- The risks of the events that backend/app/services/intel/ingest_normalizer.py makes, and the payloads of
-- which it makes one.
use trust_shield.Base.{
  String, Option, none, some, true, ◌&&◌, [], ◌≡◌, refl, ap, ◌∙◌, arith, ◌>>=◌, if◌then◌else◌,
  Bool-cases, inl, inr,
}
use trust_shield.Base.Float.{FloatOps, FloatLaws, fmax}
use trust_shield.Risk.Emission.{IntelEvent}
use trust_shield.Risk.Payloads.{
  Field, absent, null, value, other, Payload, field_or, optional, members_of, first_entity,
  suspicious_qr, same_value, get_session, caller_or, content_or,
}
use trust_shield.Risk.Readable.{
  IsReadable, is_plain, is_unnamed, Has, Any, field_or-Has, optional-Has, get_session-Has,
  first_entity-Has, caller_or-Has, content_or-Has, suspicious_qr-Has, codes-Has, unnamed-same,
}
use trust_shield.Risk.Intake.{
  cut, IsRisk, validated, get_risk, risk_of_level, get_level_risk, payment_risk, normalize_analyze,
  normalize_webhook, normalize_voice, normalize_image, normalize,
}

module _ {F : Type 0} (ops : FloatOps F) (laws : FloatLaws ops) where
  -- `max(a, b)` is at least either.
  fmax-le : (a b : F) → (ops.le a (fmax ops a b) ≡ true) × (ops.le b (fmax ops a b) ≡ true)
  fmax-le a b = elim (Bool-cases (ops.lt a b)) [
    | inl h ↦ rw h (laws.lt-le a b h, laws.le_refl b)
    | inr h ↦ rw h (laws.le_refl a, laws.not-lt-le a b h)
  ]

  cut-IsRisk : (x : F) → IsRisk ops (cut ops x)
  unfolding cut
  cut-IsRisk x =
      let (_, low) = fmax-le x (ops.of_ℕ 0) in
      elim (Bool-cases (ops.lt (ops.of_ℕ 100) (fmax ops x (ops.of_ℕ 0)))) [
        | inl h ↦ rw h (laws.le-of_ℕ 0 100 (omega arith), laws.le_refl (ops.of_ℕ 100))
        | inr h ↦ rw h (low, laws.not-lt-le (ops.of_ℕ 100) (fmax ops x (ops.of_ℕ 0)) h)
      ]

  validated-some : (e : IntelEvent F) → IsRisk ops e.risk → validated ops e ≡ some e
  unfolding validated
  validated-some e (h, k) =
      ap (λ b. if b && ops.le e.risk (ops.of_ℕ 100) then some e else none) h
      ∙ ap (λ b. if b then some e else none) k

  -- What an event that is made with a cut risk leads to.
  abbrev pub Made : String → Option (IntelEvent F) → Type 0
  Made source o = (e : IntelEvent F) × (o ≡ some e) × IsRisk ops e.risk × (e.source ≡ source)

  -- An event that is made of a value that is there.
  Made-then :
      {A : Type 0} {P : A → Type 0} (source : String) (o : Option A) (f : A → Option (IntelEvent F))
      → Has P o
      → ((x : A) → P x → Made source (f x))
      → Made source (o >>= f)
  Made-then source o f (x, h, k) g = rw h (g x k)

  validated-Made : (e : IntelEvent F) → IsRisk ops e.risk → Made e.source (validated ops e)
  validated-Made e h = (e, validated-some e h, h, refl)

  get_risk-Has : (p : Payload F) → IsReadable p → Has Any (get_risk ops p)
  unfolding get_risk
  get_risk-Has p r = go p.risk_score r.risk_score
    where
      go :
          (s : Field F)
          → is_plain s ≡ true
          → Has Any (elim s [
            | absent ↦ field_or (ops.of_ℕ 0) p.risk
            | null ↦ none
            | value x ↦ some x
            | other o ↦ none
          ])
      go absent i = field_or-Has (ops.of_ℕ 0) p.risk r.risk
      go null i = cc
      go (value x) i = (x, refl, tt)
      go (other o) i = cc

  get_level_risk-Has : (f : Field String) → is_plain f ≡ true → Has Any (get_level_risk ops f)
  unfolding get_level_risk
  get_level_risk-Has absent h = (risk_of_level ops "low", refl, tt)
  get_level_risk-Has null h = cc
  get_level_risk-Has (value s) h = (risk_of_level ops s, refl, tt)
  get_level_risk-Has (other o) h = cc

  analyze-Made :
      (now : String) (p : Payload F) → IsReadable p → Made "analyze" (normalize_analyze ops now p)
  unfolding normalize_analyze
  analyze-Made now p r = Made-then "analyze" (get_session p) _ (get_session-Has p r) (λ id _.
      Made-then "analyze" (first_entity p) _ (first_entity-Has p r) (λ e h.
        Made-then "analyze" (field_or id e.value_field) _ (field_or-Has id e.value_field h) (λ v _.
          Made-then "analyze" (get_risk ops p) _ (get_risk-Has p r) (λ x _.
            Made-then "analyze" (optional p.geo_location) _
              (optional-Has p.geo_location r.geo_location)
              (λ g _. validated-Made _ (cut-IsRisk x))))))

  webhook-Made :
      (now : String) (p : Payload F) → IsReadable p → Made "webhook" (normalize_webhook ops now p)
  unfolding normalize_webhook
  webhook-Made now p r =
      Made-then "webhook" (field_or (ops.of_ℕ 0) p.risk_score) _
        (field_or-Has (ops.of_ℕ 0) p.risk_score r.risk_score)
        (λ s _.
          Made-then "webhook" (field_or (ops.of_ℕ 0) p.amount) _
            (field_or-Has (ops.of_ℕ 0) p.amount r.amount)
            (λ a _.
              Made-then "webhook" (field_or "unknown" p.payee_vpa) _
                (field_or-Has "unknown" p.payee_vpa r.payee_vpa)
                (λ v _.
                  Made-then "webhook" (field_or _ p.session_id) _
                    (field_or-Has _ p.session_id r.session_id)
                    (λ id _.
                      Made-then "webhook" (optional p.geo_location) _
                        (optional-Has p.geo_location r.geo_location)
                        (λ g _. validated-Made _ (cut-IsRisk _))))))

  voice-Made :
      (now : String) (p : Payload F) → IsReadable p → Made "voice" (normalize_voice ops now p)
  unfolding normalize_voice
  voice-Made now p r = Made-then "voice" (first_entity p) _ (first_entity-Has p r) (λ e h.
      Made-then "voice" (caller_or e.value_field p.caller_id) _
        (caller_or-Has e.value_field p.caller_id h r.caller_id)
        (λ v _. Made-then "voice" (get_risk ops p) _ (get_risk-Has p r) (λ x _.
          Made-then "voice" (field_or _ p.session_id) _ (field_or-Has _ p.session_id r.session_id)
            (λ id _. validated-Made _ (cut-IsRisk x)))))

  image-Made :
      (now : String) (p : Payload F) → IsReadable p → Made "image" (normalize_image ops now p)
  unfolding normalize_image
  image-Made now p r =
      Made-then "image" (field_or [] p.qr_codes) _ (codes-Has p.qr_codes r.qr_codes) (λ qs h.
        Made-then "image" (suspicious_qr qs) _ (suspicious_qr-Has qs h) (λ q k.
          Made-then "image" (content_or q.content p.image_hash) _
            (content_or-Has q.content p.image_hash k r.image_hash)
            (λ v _.
              Made-then "image" (get_level_risk ops p.risk_level) _
                (get_level_risk-Has p.risk_level r.risk_level)
                (λ x _.
                  Made-then "image" (field_or _ p.session_id) _
                    (field_or-Has _ p.session_id r.session_id)
                    (λ id _. validated-Made _ (cut-IsRisk x))))))

  -- Analyses, payments, calls and images always give an event, of the kind of the signal and with a
  -- risk from 0 to 100, where the session, the lists, the numbers, the location, the payee, the caller,
  -- the hash of the image and the level of risk are each missing or of the expected type, a list of
  -- entities that is not empty begins with a dictionary whose value is missing or a text, and the codes
  -- are dictionaries whose content is missing or a text.
  pub normalize_answers :
      (now : String) (p : Payload F)
      → IsReadable p
      → Made "analyze" (normalize ops now "analyze" p)
        × Made "webhook" (normalize ops now "webhook" p)
        × Made "voice" (normalize ops now "voice" p)
        × Made "image" (normalize ops now "image" p)
  unfolding normalize
  normalize_answers now p r =
      (analyze-Made now p r, webhook-Made now p r, voice-Made now p r, image-Made now p r)

  -- A call without a named caller, in whose transcript no entity was found, gives no event: the model
  -- refuses `None` for the entity.
  pub voice_without_caller :
      (now : String) (p : Payload F)
      → p.entities ≡ absent
      → p.flagged_entities ≡ value []
      → p.caller_id ≡ null
      → normalize ops now "voice" p ≡ none
  unfolding normalize normalize_voice first_entity members_of caller_or field_or
  voice_without_caller now p h k n = rw (h, k, n) refl

  -- A payment whose payload has `None` or nothing for both addresses counts as one from an address to
  -- itself: its risk is at least 80.
  pub payment_without_addresses :
      (risk amount : F) (payer payee : Field String)
      → is_unnamed payer ≡ true
      → is_unnamed payee ≡ true
      → ops.le (ops.of_ℕ 80) (payment_risk ops risk amount (same_value payer payee)) ≡ true
  unfolding payment_risk
  payment_without_addresses risk amount payer payee h k =
      rw (unnamed-same payer payee h k) ((fmax-le _ (ops.of_ℕ 80)).1)
