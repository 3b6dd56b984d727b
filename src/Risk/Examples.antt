-- ===== src/Risk/Examples.antt =====
-- The theorems on the scorer, the engine and the proactive interventions, with whole numbers as the
-- floats: every law of `FloatLaws` holds of them.
use trust_shield.Base.{ℕ, String, none, some, true, false, [], ◌∷◌, ◌≡◌, refl, ◌⊎◌, arith}
use trust_shield.Base.Int.{pos, ◌+ℤ◌}
use trust_shield.Base.Whole.{whole_floats, whole_laws}
use trust_shield.Risk.{
  coached_victim_intervention, unknown, RiskScore, SessionContext, ActiveModel, upi, score, tally,
  finish, cap, add_classifier, add_entities, add_contact, add_reports, add_bonus, add_behavior,
  attribution, is_high_risk, action_of, level_of, anydesk,
}
use trust_shield.Risk.Engine.{
  BehavioralContext, decide, decide_score, is_coached, decide_never_softer, InNoLowerBand,
}
use trust_shield.Risk.Payloads.{Payload, absent, null, value}
use trust_shield.Risk.Readable.{IsReadable}
use trust_shield.Risk.Intake.{normalize}
use trust_shield.Risk.Intake.Bounds.{Made, normalize_answers, voice_without_caller}
use trust_shield.Risk.Emission.{IntelEvent, IntelDict, InterventionSettings}

abbrev digits : ℕ → String
digits n = "n"

-- A session with a remote access tool, from an unknown sender with two reports.
abbrev session : SessionContext ℕ
session = record {
  confidence = 1;
  entity_types = anydesk ∷ [];
  contact_initiated_by = "unknown";
  prior_reports_for_sender = 2;
  behavioral_risk_score = none;
}

abbrev model : ActiveModel ℕ
model = record { transformer_weight = 0; gbm_weight = 1; model_version = "v1" }

abbrev reported : ℕ → SessionContext ℕ
reported n = record session { prior_reports_for_sender = n }

-- What the scorer gives after `n` reports, for the sum `x`.
abbrev scored : ℕ → ℕ → RiskScore ℕ
scored n x = finish whole_floats digits "v1" (tally whole_floats digits (reported n) model) (pos x)

scored_two : score whole_floats digits session model ≡ some (scored 2 55)
unfolding score finish tally add_classifier add_entities add_contact add_reports add_bonus
    add_behavior attribution is_high_risk cap level_of action_of
scored_two = refl

scored_four : score whole_floats digits (reported 4) model ≡ some (scored 4 65)
unfolding score finish tally add_classifier add_entities add_contact add_reports add_bonus
    add_behavior attribution is_high_risk cap level_of action_of
scored_four = refl

-- The graph adds 20, and the behavioural context is that of a coached victim.
abbrev coached : BehavioralContext ℕ
coached = record { behavioral_risk_score = 6; classifier_confidence = 9 }

abbrev calm : BehavioralContext ℕ
calm = record { behavioral_risk_score = 5; classifier_confidence = 9 }

decide_never_softer_example :
    ((is_coached whole_floats (some calm) ≡ true)
      × ((decide_score (pos 75)).action ≡ coached_victim_intervention))
    ⊎ ((is_coached whole_floats (some calm) ≡ false)
        × InNoLowerBand (scored 2 55).recommended_action (decide_score (pos 75)).action)
unfolding decide cap finish is_coached ◌+ℤ◌
decide_never_softer_example =
    decide_never_softer whole_floats digits session model (scored 2 55) scored_two 1 (pos 20) refl
      (omega arith) (some calm) (decide_score (pos 75)) refl

abbrev agreed : IntelDict ℕ
agreed = record {
  risk = some 90;
  consented = some true;
  session_id = some "s1";
  entity_value = some "x@upi";
}

abbrev enabled : InterventionSettings ℕ
enabled = record { proactive_intervention_enabled = true; intervention_risk_threshold = 8 }

abbrev signal : IntelEvent ℕ
signal = record {
  entity_value = "x@upi";
  entity_type = upi;
  scam_type = unknown;
  risk = 95;
  source = "report";
  session_id = "s1";
  occurred_at = "noon";
  geo = none;
}

-- A payload without any key but a list of no codes.
abbrev nothing_known : Payload ℕ
nothing_known = record {
  session_metadata = absent;
  session_id = absent;
  entities = absent;
  flagged_entities = value [];
  entity_type = absent;
  entity_value = absent;
  scam_type = absent;
  risk_score = value 120;
  risk = absent;
  geo_location = absent;
  report_count = absent;
  report_id = absent;
  amount = absent;
  payer_vpa = absent;
  payee_vpa = absent;
  caller_id = absent;
  qr_codes = value [];
  image_hash = absent;
  risk_level = absent;
}

nothing_known-IsReadable : IsReadable nothing_known
nothing_known-IsReadable = record {
  session_metadata = refl;
  session_id = refl;
  entities = refl;
  flagged_entities = refl;
  risk_score = refl;
  risk = refl;
  geo_location = refl;
  amount = refl;
  payee_vpa = refl;
  caller_id = refl;
  qr_codes = refl;
  image_hash = refl;
  risk_level = refl;
}

normalize_answers_example :
    Made whole_floats whole_laws "analyze" (normalize whole_floats "now" "analyze" nothing_known)
    × Made whole_floats whole_laws "webhook" (normalize whole_floats "now" "webhook" nothing_known)
    × Made whole_floats whole_laws "voice" (normalize whole_floats "now" "voice" nothing_known)
    × Made whole_floats whole_laws "image" (normalize whole_floats "now" "image" nothing_known)
normalize_answers_example =
    normalize_answers whole_floats whole_laws "now" nothing_known nothing_known-IsReadable

-- The same call by a caller who is not named.
unnamed_call :
    normalize whole_floats "now" "voice" (record nothing_known { caller_id = null }) ≡ none
unnamed_call = voice_without_caller whole_floats whole_laws "now" _ refl refl refl
