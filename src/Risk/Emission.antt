-- ===== src/Risk/Emission.antt =====
-- Proactive interventions: `evaluate_intervention` of
-- backend/app/services/intervention/action_engine.py, the InterventionLog of
-- backend/app/models/intervention.py, and the events that
-- backend/app/services/intel/ingest_normalizer.py hands to it.
use trust_shield.Base.{
  String, Option, none, some, Bool, true, false, List, [], ◌∷◌, ◌++◌, ◌≡◌, refl, ◌↔◌, ◌<>◌,
  if◌then◌else◌, some_inj,
}
use trust_shield.Base.Float.{FloatOps}
use trust_shield.Risk.{EntityType, ScamType}

pub record IntelEvent (F : Type 0) : Type 0 where
  pub entity_value : String
  pub entity_type : EntityType
  pub scam_type : ScamType
  pub risk : F
  pub source : String
  pub session_id : String
  pub occurred_at : String
  pub geo : Option String

-- The keys of the `intel_event` dictionary that are read; `none` is a missing key.
pub record IntelDict (F : Type 0) : Type 0 where
  pub risk : Option F
  pub consented : Option Bool
  pub session_id : Option String
  pub entity_value : Option String

-- A row, of the columns that `evaluate_intervention` sets.
pub record InterventionLog : Type 0 where
  pub session_id : String
  pub intervention_type : String
  pub status : String
  pub details : String

pub record InterventionSettings (F : Type 0) : Type 0 where
  pub proactive_intervention_enabled : Bool
  pub intervention_risk_threshold : F

-- What is returned, with the rows of the table after it.
pub record Evaluation : Type 0 where
  pub intervention_enqueued : Bool
  pub reason : String
  pub logs : List InterventionLog

-- `dict.get(key, default)`
abbrev pub get_or {ℓ} : {A : Type ℓ} → A → Option A → A
get_or d none = d
get_or d (some a) = a

-- `event.model_dump(mode="json")`, which has a key for each field of the event.
unfoldable pub model_dump : {F : Type 0} → IntelEvent F → IntelDict F
model_dump e = record {
  risk = some e.risk;
  consented = none;
  session_id = some e.session_id;
  entity_value = some e.entity_value;
}

abbrev skipped : String → List InterventionLog → Evaluation
skipped reason logs = record { intervention_enqueued = false; reason = reason; logs = logs }

-- The answer, by the outcomes of the three tests.
abbrev chosen : Bool → Bool → Bool → List InterventionLog → InterventionLog → Evaluation
chosen enabled below consented logs entry =
    if enabled
    then if below
      then skipped "risk_below_threshold" logs
      else if consented
      then record {
        intervention_enqueued = true;
        reason = "high_risk_with_consent";
        logs = logs ++ entry ∷ [];
      }
      else skipped "no_dpdp_consent" logs
    else skipped "proactive_intervention_disabled" logs

enqueue_iff :
    (logs : List InterventionLog) (entry : InterventionLog) (a b : Bool) (c : Option Bool)
    → ((chosen a b (get_or false c) logs entry).intervention_enqueued ≡ true)
      ↔ ((a ≡ true) × (b ≡ false) × (c ≡ some true))
enqueue_iff logs entry true true c = (λ h. cc, λ (_, h, _). cc)
enqueue_iff logs entry true false none = (λ h. cc, λ (_, _, h). cc)
enqueue_iff logs entry true false (some true) = (λ _. (refl, refl, refl), λ _. refl)
enqueue_iff logs entry true false (some false) = (λ h. cc, λ (_, _, h). let f = some_inj h in cc)
enqueue_iff logs entry false b c = (λ h. cc, λ (h, _, _). cc)

logs_follow :
    (logs : List InterventionLog) (entry : InterventionLog) (a b c : Bool)
    → (chosen a b c logs entry).logs
      ≡ (if (chosen a b c logs entry).intervention_enqueued then logs ++ entry ∷ [] else logs)
logs_follow logs entry true true c = refl
logs_follow logs entry true false true = refl
logs_follow logs entry true false false = refl
logs_follow logs entry false b c = refl

unconsented :
    (logs : List InterventionLog) (entry : InterventionLog) (a b : Bool)
    → (chosen a b false logs entry).logs ≡ logs
unconsented logs entry true true = refl
unconsented logs entry true false = refl
unconsented logs entry false b = refl

module _ {F : Type 0} (ops : FloatOps F) where
  unfoldable pub normalised : F → F
  normalised risk = if ops.lt (ops.of_ℕ 1) risk then ops.div risk (ops.decimal 100 0) else risk

  unfoldable pub log_entry : IntelDict F → InterventionLog
  unfolding normalised
  log_entry e = record {
    session_id = get_or "unknown" e.session_id;
    intervention_type = "proactive_warning";
    status = "triggered";
    details =
        "Proactive warning for entity "
        <> get_or "unknown" e.entity_value
        <> " (risk="
        <> ops.format2 (normalised (get_or (ops.of_ℕ 0) e.risk))
        <> ")";
  }

  unfoldable pub evaluate_intervention :
      InterventionSettings F → IntelDict F → List InterventionLog → Evaluation
  evaluate_intervention s e logs =
      if s.proactive_intervention_enabled
      then if ops.lt (normalised (get_or (ops.of_ℕ 0) e.risk)) s.intervention_risk_threshold
        then skipped "risk_below_threshold" logs
        else if get_or false e.consented
        then record {
          intervention_enqueued = true;
          reason = "high_risk_with_consent";
          logs = logs ++ log_entry e ∷ [];
        }
        else skipped "no_dpdp_consent" logs
      else skipped "proactive_intervention_disabled" logs

  -- `_emit_to_proactive_intervention`, which drops the answer
  unfoldable pub emit_to_proactive_intervention :
      InterventionSettings F → IntelEvent F → List InterventionLog → List InterventionLog
  emit_to_proactive_intervention s e logs = (evaluate_intervention s (model_dump e) logs).logs

  -- An intervention is enqueued exactly when the feature is on, the normalised risk is not below the
  -- threshold and the event says that the entity consented.
  pub evaluate_enqueues_iff :
      (s : InterventionSettings F) (e : IntelDict F) (logs : List InterventionLog)
      → ((evaluate_intervention s e logs).intervention_enqueued ≡ true) ↔ (
          (s.proactive_intervention_enabled ≡ true)
          × (ops.lt (normalised (get_or (ops.of_ℕ 0) e.risk)) s.intervention_risk_threshold ≡ false)
          × (e.consented ≡ some true))
  unfolding evaluate_intervention
  evaluate_enqueues_iff s e logs =
      enqueue_iff logs (log_entry e) s.proactive_intervention_enabled
        (ops.lt (normalised (get_or (ops.of_ℕ 0) e.risk)) s.intervention_risk_threshold) e.consented

  -- The log gets the entry of the event when an intervention is enqueued, and stays as it is
  -- otherwise.
  pub evaluate_logs :
      (s : InterventionSettings F) (e : IntelDict F) (logs : List InterventionLog)
      → (evaluate_intervention s e logs).logs ≡ (
          if (evaluate_intervention s e logs).intervention_enqueued
          then logs ++ log_entry e ∷ []
          else logs)
  unfolding evaluate_intervention
  evaluate_logs s e logs =
      logs_follow logs (log_entry e) s.proactive_intervention_enabled
        (ops.lt (normalised (get_or (ops.of_ℕ 0) e.risk)) s.intervention_risk_threshold)
        (get_or false e.consented)

  -- Whatever the settings, an event handed on by the normalizer never leaves a proactive intervention
  -- in the log.
  pub emitted_events_never_intervene :
      (s : InterventionSettings F) (e : IntelEvent F) (logs : List InterventionLog)
      → emit_to_proactive_intervention s e logs ≡ logs
  unfolding emit_to_proactive_intervention evaluate_intervention model_dump
  emitted_events_never_intervene s e logs =
      unconsented logs (log_entry (model_dump e)) s.proactive_intervention_enabled (
        ops.lt (normalised (get_or (ops.of_ℕ 0) (model_dump e).risk)) s.intervention_risk_threshold)
